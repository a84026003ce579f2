-- ===== src/ShortestPath/Routes.antt =====
-- The paths among which trans_sec/controller/shortest_path.py searches, and walks in general.
use mathlib.Core.List.{Memᴰ}
use transparent_security.Prelude.{◌≡◌, Bool, true, false, not, ◌&&◌, some, List, [], ◌∷◌, ◌++◌}
use transparent_security.Prelude.Equality.{Eq, ◌==◌, contains}
use transparent_security.Prelude.Dict.{get}
use transparent_security.ShortestPath.{Neighbors}

module _ {ℓ} {N : Type ℓ} ⦃e : Eq N⦄ (g : Neighbors N) (exclude : N → Bool) (b : N) where
  -- `n` stands in the list of `a`.
  abbrev pub Adjacent : N → N → Type ℓ
  Adjacent a n = (l : List N) × (get a g ≡ some l) × Memᴰ n l

  -- A node that a path may go on to: excluded nodes are no way through.
  abbrev pub MayPass : N → Type 0
  MayPass n = (exclude n && not (n == b)) ≡ false

  -- A path from `a` to `b` that visits no node of `visited` nor any node twice.
  pub data Route : List N → N → List N → Type ℓ where
    stop : {visited : List N} {a : N} → (a == b) ≡ true → Route visited a (a ∷ [])
    step :
        {visited : List N} {a : N} (n : N) {path : List N}
        → (a == b) ≡ false
        → Adjacent a n
        → MayPass n
        → contains n (visited ++ a ∷ []) ≡ false
        → Route (visited ++ a ∷ []) n path
        → Route visited a (a ∷ path)

  -- Every node that a list holds has a list itself.
  abbrev pub IsClosed : Type ℓ
  IsClosed = (a n : N) → Adjacent a n → (l : List N) × (get n g ≡ some l)

  -- A walk from `a` to `b`, by the nodes behind `a`.
  abbrev pub IsWalk : N → List N → Type ℓ
  IsWalk a [] = a ≡ b
  IsWalk a (n ∷ path) = Adjacent a n × MayPass n × IsWalk n path

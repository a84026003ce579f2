-- ===== src/ShortestPath/Unvisited.antt =====
-- How deep the recursion of trans_sec/controller/shortest_path.py can go: each call visits one more
-- of the keys.
use transparent_security.Prelude.{
  ℕ, suc, ◌≤◌, ◌<◌, ◌≡◌, refl, false, ◌||◌, some, List, [], ◌∷◌, ◌++◌, arith, Bool-cases, inl, inr,
  if◌then◌else◌,
}
use transparent_security.Prelude.Equality.{Eq, ◌==◌, contains, beq_refl}
use transparent_security.Prelude.Lists.{length}
use transparent_security.Prelude.Dict.{get}
use transparent_security.ShortestPath.{Neighbors}

module _ {ℓ} {N : Type ℓ} ⦃e : Eq N⦄ where
  -- The number of keys that are not visited.
  abbrev pub unvisited : List N → Neighbors N → ℕ
  unvisited visited [] = 0
  unvisited visited ((k, l) ∷ g) =
      if contains k visited then unvisited visited g else suc (unvisited visited g)

  pub contains-snoc :
      (n a : N) (visited : List N) → contains n (visited ++ a ∷ []) ≡ (contains n visited || a == n)
  contains-snoc n a [] = ground arith
  contains-snoc n a (v ∷ visited) = ground (arith, contains-snoc n a visited)

  unvisited-snoc-le :
      (a : N) (visited : List N) (g : Neighbors N)
      → unvisited (visited ++ a ∷ []) g ≤ unvisited visited g
  unvisited-snoc-le a visited [] = omega arith
  unvisited-snoc-le a visited ((k, l) ∷ g) =
      ground (arith, unvisited-snoc-le a visited g, contains-snoc k a visited)

  -- A visit to a key that is not visited leaves fewer of them.
  pub unvisited-snoc-lt :
      (a : N) (visited : List N) (g : Neighbors N) {l : List N}
      → get a g ≡ some l
      → contains a visited ≡ false
      → unvisited (visited ++ a ∷ []) g < unvisited visited g
  unfolding get
  unvisited-snoc-lt a visited [] h new = cc
  unvisited-snoc-lt a visited ((k, l) ∷ g) h new = elim (Bool-cases (k == a)) [
    | inl same ↦ ground (
      arith,
      same,
      e.beq_iff k a,
      beq_refl k,
      contains-snoc k a visited,
      unvisited-snoc-le a visited g,
    )
    | inr other ↦ ground (
      arith,
      unvisited-snoc-lt a visited g (rw other at h) new,
      contains-snoc k a visited,
      e.beq_iff k a,
      e.beq_iff a k,
    )
  ]

  pub unvisited-nil : (g : Neighbors N) → unvisited [] g ≡ length g
  unvisited-nil [] = refl
  unvisited-nil ((k, l) ∷ g) = ground (arith, unvisited-nil g)

-- ===== src/ShortestPath/Sorting.antt =====
-- `paths.sort(key=len)` and `paths[0]`, of trans_sec/controller/shortest_path.py. The sort is stable.
use mathlib.Core.Path.{subst}
use mathlib.Core.List.{Memᴰ}
use transparent_security.Prelude.{
  ℕ, ◌≤◌, ◌≡◌, Option, none, some, ◌⊎◌, inl, inr, refl, sym, ◌∙◌, Bool-cases, leb→le, List, [], ◌∷◌,
  leb, if◌then◌else◌, arith,
}
use transparent_security.Prelude.Lists.{length, All}

module _ {ℓ} {A : Type ℓ} where
  insert : List A → List (List A) → List (List A)
  insert path [] = path ∷ []
  insert path (p ∷ paths) =
      let rest = insert path paths in
      if leb (length path) (length p) then path ∷ p ∷ paths else p ∷ rest

  sort : List (List A) → List (List A)
  sort [] = []
  sort (path ∷ paths) = insert path (sort paths)

  first : List (List A) → Option (List A)
  first [] = none
  first (path ∷ paths) = some path

  unfoldable pub shortest : List (List A) → Option (List A)
  unfolding insert sort first
  shortest paths = first (sort paths)

  pub Memᴰ-All {κ} :
      (P : List A → Type κ) {p : List A} (l : List (List A)) → All P l → Memᴰ p l → P p
  Memᴰ-All P [] h m = elim m [ ]
  Memᴰ-All P (x ∷ l) h (Memᴰ.head e) = subst P (sym e) h.0
  Memᴰ-All P (x ∷ l) h (Memᴰ.tail m) = Memᴰ-All P l h.1 m

  abbrev better : List A → Option (List A) → Option (List A)
  better path none = some path
  better path (some q) = if leb (length path) (length q) then some path else some q

  first-insert : (path : List A) (l : List (List A)) → first (insert path l) ≡ better path (first l)
  unfolding first insert
  first-insert path [] = refl
  first-insert path (q ∷ l) = elim (Bool-cases (leb (length path) (length q))) [
    | inl e ↦ rw e refl
    | inr e ↦ rw e refl
  ]

  shortest-cons :
      (path : List A) (paths : List (List A))
      → shortest (path ∷ paths) ≡ better path (shortest paths)
  unfolding shortest
  shortest-cons path paths = first-insert path (sort paths)

  All-mono :
      (m n : ℕ) (paths : List (List A))
      → m ≤ n
      → All (λ q. n ≤ length q) paths
      → All (λ q. m ≤ length q) paths
  All-mono m n [] h a = tt
  All-mono m n (q ∷ paths) h a = (omega arith, All-mono m n paths h a.1)

  -- `p` is in the list and no longer than any path of it.
  pub record IsShortest (p : List A) (paths : List (List A)) : Type ℓ where
    pub listed : Memᴰ p paths
    pub least : All (λ q. length p ≤ length q) paths

  pub shortest_cases :
      (paths : List (List A))
      → (shortest paths ≡ none) × (paths ≡ [])
        ⊎ ((p : List A) × (shortest paths ≡ some p) × IsShortest p paths)
  shortest_cases [] = inl (unfold shortest in refl, refl)
  shortest_cases (path ∷ paths) = elim (shortest_cases paths) [
    | inl (e, empty) ↦ inr (
      path,
      shortest-cons path paths ∙ rw e refl,
      record { listed = Memᴰ.head refl; least = (omega arith, rw empty tt) },
    )
    | inr (q, e, h) ↦ elim (Bool-cases (leb (length path) (length q))) [
      | inl short ↦ inr (
        path,
        shortest-cons path paths ∙ rw e (rw short refl),
        record {
          listed = Memᴰ.head refl;
          least = (omega arith, All-mono _ (length q) paths (leb→le _ _ short) h.least);
        },
      )
      | inr long ↦ inr (
        q,
        shortest-cons path paths ∙ rw e (rw long refl),
        record { listed = Memᴰ.tail h.listed; least = (ground arith, h.least) },
      )
    ]
  ]

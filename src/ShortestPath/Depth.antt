-- ===== src/ShortestPath/Depth.antt =====
-- The depth of the recursion of trans_sec/controller/shortest_path.py.
use transparent_security.Prelude.{
  ℕ, zero, suc, ◌<◌, ◌≡◌, refl, Bool, false, ◌⊎◌, inl, inr, Option, List, [], ◌∷◌, ◌++◌, arith,
  Bool-cases, Option-cases,
}
use transparent_security.Prelude.Equality.{Eq, ◌==◌, contains}
use transparent_security.Prelude.Lists.{length}
use transparent_security.Prelude.Dict.{get}
use transparent_security.Prelude.Result.{Result, ok, err, key_error, ◌>>=◌}
use transparent_security.ShortestPath.Unvisited.{unvisited, unvisited-snoc-lt, unvisited-nil}
use transparent_security.ShortestPath.{Neighbors, is_skipped, collect, rec_path, shortest_path}

-- A value, or a KeyError and nothing else.
abbrev pub Ends {ℓ} : {A : Type ℓ} → Result A → Type ℓ
Ends {A = A} r = ((v : A) × (r ≡ ok v)) ⊎ (r ≡ err key_error)

Ends-bind {ℓ κ} :
    {A : Type ℓ} {B : Type κ} {m : Result A} {f : A → Result B}
    → Ends m
    → ((v : A) → Ends (f v))
    → Ends (m >>= f)
Ends-bind {f = f} (inl (v, e)) rest = rw e (rest v)
Ends-bind (inr e) rest = inr (rw e refl)

module _ {ℓ} {N : Type ℓ} ⦃e : Eq N⦄ where
  -- Calls that agree where they are made give the same paths.
  collect-eq :
      (call call' : N → Result (Option (List N))) (skipped : N → Bool) (l : List N)
      → ((n : N) → skipped n ≡ false → call n ≡ call' n)
      → collect call skipped l ≡ collect call' skipped l
  unfolding collect
  collect-eq call call' skipped [] same = refl
  collect-eq call call' skipped (n ∷ l) same =
      let rest = collect-eq call call' skipped l same in
      elim (Bool-cases (skipped n)) [
        | inl skip ↦ rw skip rest
        | inr take ↦ rw take (rw (same n take) (rw rest refl))
      ]

  rec_path-eq :
      (g : Neighbors N) (exclude : N → Bool) (b : N) (f f' : ℕ) (a : N) (visited : List N)
      → contains a visited ≡ false
      → unvisited visited g < f
      → unvisited visited g < f'
      → rec_path f g exclude a b visited ≡ rec_path f' g exclude a b visited
  unfolding rec_path
  rec_path-eq g exclude b zero f' a visited new h h' = elim h [ ]
  rec_path-eq g exclude b (suc f) zero a visited new h h' = elim h' [ ]
  rec_path-eq g exclude b (suc f) (suc f') a visited new h h' = elim (Bool-cases (a == b)) [
    | inl there ↦ rw (there, rec_path) refl
    | inr apart ↦ elim (Option-cases (get a g)) [
      | inl missing ↦ rw (apart, rec_path) (rw missing refl)
      | inr (l, key) ↦
          let new_visited = visited ++ a ∷ [] in
          let less = unvisited-snoc-lt a visited g key new in
          let paths =
            collect-eq (λ n. rec_path f g exclude n b new_visited)
              (λ n. rec_path f' g exclude n b new_visited) (is_skipped exclude b new_visited) l
              (λ n taken.
                rec_path-eq g exclude b f f' n new_visited (ground arith) (omega arith)
                  (omega arith)) in
          rw (apart, rec_path) (rw key (rw paths refl))
    ]
  ]

  collect-Ends :
      (call : N → Result (Option (List N))) (skipped : N → Bool) (l : List N)
      → ((n : N) → skipped n ≡ false → Ends (call n))
      → Ends (collect call skipped l)
  unfolding collect
  collect-Ends call skipped [] ends = inl ([], refl)
  collect-Ends call skipped (n ∷ l) ends =
      let rest = collect-Ends call skipped l ends in
      elim (Bool-cases (skipped n)) [
        | inl skip ↦ rw skip rest
        | inr take ↦
            rw take (Ends-bind (ends n take) (λ path. Ends-bind rest (λ paths. inl (_, refl))))
      ]

  rec_path-Ends :
      (g : Neighbors N) (exclude : N → Bool) (b : N) (f : ℕ) (a : N) (visited : List N)
      → contains a visited ≡ false
      → unvisited visited g < f
      → Ends (rec_path f g exclude a b visited)
  unfolding rec_path
  rec_path-Ends g exclude b zero a visited new h = elim h [ ]
  rec_path-Ends g exclude b (suc f) a visited new h = elim (Bool-cases (a == b)) [
    | inl there ↦ rw (there, rec_path) (inl (_, refl))
    | inr apart ↦ elim (Option-cases (get a g)) [
      | inl missing ↦ rw (apart, rec_path) (rw missing (inr refl))
      | inr (l, key) ↦
          let new_visited = visited ++ a ∷ [] in
          let less = unvisited-snoc-lt a visited g key new in
          let paths =
            collect-Ends (λ n. rec_path f g exclude n b new_visited)
              (is_skipped exclude b new_visited) l
              (λ n taken. rec_path-Ends g exclude b f n new_visited (ground arith) (omega arith)) in
          rw (apart, rec_path) (rw key (Ends-bind paths (λ found. inl (_, refl))))
    ]
  ]

  -- The recursion ends, at a depth that is at most one more than the number of keys: with any fuel
  -- above that number it does not run out of fuel, but returns a path or None or raises a KeyError,
  -- and the result is that of `shortest_path`, in every graph, whatever the nodes.
  pub shortest_path_depth :
      (g : Neighbors N) (a b : N) (exclude : N → Bool) (fuel : ℕ)
      → length g < fuel
      → Ends (rec_path fuel g exclude a b [])
        × (rec_path fuel g exclude a b [] ≡ shortest_path g a b exclude)
  unfolding shortest_path
  shortest_path_depth g a b exclude fuel h = (
    rec_path-Ends g exclude b fuel a [] refl (omega (arith, unvisited-nil g)),
    rec_path-eq g exclude b fuel (suc (length g)) a [] refl (omega (arith, unvisited-nil g))
        (omega (arith, unvisited-nil g)),
  )

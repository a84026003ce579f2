-- ===== src/ShortestPath/Search.antt =====
-- `__rec_path` of trans_sec/controller/shortest_path.py finds a shortest path, or says that there is
-- none.
use mathlib.Core.Path.{subst}
use mathlib.Core.List.Memᴰ
use mathlib.Core.List.{Memᴰ}
use transparent_security.Prelude.{
  ℕ, suc, zero, ◌≤◌, ◌<◌, ◌≡◌, refl, ap, Bool, true, false, inl, inr, Option, some, List, [], ◌∷◌,
  ◌++◌, arith, Bool-cases,
}
use transparent_security.Prelude.Equality.{Eq, ◌==◌, contains}
use transparent_security.Prelude.Lists.{length}
use transparent_security.Prelude.Dict.{get}
use transparent_security.Prelude.Result.{ok}
use transparent_security.ShortestPath.Sorting.{shortest, shortest_cases, Memᴰ-All}
use transparent_security.ShortestPath.Routes.{Adjacent, MayPass, Route, stop, step, IsClosed}
use transparent_security.ShortestPath.Unvisited.{unvisited, unvisited-snoc-lt}
use transparent_security.ShortestPath.Collecting.{Answers, Collected, Sound, collect-Collected}
use transparent_security.ShortestPath.{Neighbors, is_skipped, extended, rec_path}

module _ {ℓ} {N : Type ℓ} ⦃e : Eq N⦄ (g : Neighbors N) (exclude : N → Bool) (b : N) where
  abbrev Onward : List N → N → List N → Type ℓ
  Onward visited a q =
      (n : N) × (path : List N) × (q ≡ a ∷ path)
      × Adjacent g exclude b a n
      × MayPass g exclude b n
      × (contains n (visited ++ a ∷ []) ≡ false)
      × Route g exclude b (visited ++ a ∷ []) n path

  Route-Onward :
      {visited : List N} {a : N} {q : List N}
      → Route g exclude b visited a q
      → (a == b) ≡ false
      → Onward visited a q
  Route-Onward (stop there) apart = absurd (cc (there, apart))
  Route-Onward (step n {path = path} far near may new rest) apart =
      (n, path, refl, near, may, new, rest)

  length_of_Route :
      {visited : List N} {a : N} {q : List N} → Route g exclude b visited a q → 1 ≤ length q
  length_of_Route (stop there) = omega arith
  length_of_Route (step n far near may new rest) = omega arith

  not_skipped :
      (new_visited : List N) (n : N)
      → contains n new_visited ≡ false
      → MayPass g exclude b n
      → is_skipped exclude b new_visited n ≡ false
  not_skipped new_visited n new may = ground arith

  skipped_not :
      (new_visited : List N) (n : N)
      → is_skipped exclude b new_visited n ≡ false
      → (contains n new_visited ≡ false) × MayPass g exclude b n
  skipped_not new_visited n h = ground arith

  module _ (a : N) (visited l : List N) (apart : (a == b) ≡ false) (key : get a g ≡ some l)
      (paths : List (List N))
      (c : Collected g exclude b
        (is_skipped exclude b (visited ++ a ∷ []))
        (visited ++ a ∷ [])
        l
        paths) where
    -- A route goes on through a neighbor, for which a path as short was collected.
    collected :
        (q : List N)
        → Route g exclude b visited a q
        → (p : List N) × Memᴰ p paths × (suc (length p) ≤ length q)
    collected q r =
        let (n, path, e, (l', key', mem), may, new, rest) = Route-Onward r apart in
        let same : l' ≡ l = cc (key', key) in
        let (p, listed, short) =
          c.complete n (subst (Memᴰ n) same mem) (not_skipped _ n new may) path rest in
        (p, listed, omega (arith, ap (λ (x : List N). length x) e))

    Sound-Route :
        (p : List N)
        → Sound g exclude b (is_skipped exclude b (visited ++ a ∷ [])) (visited ++ a ∷ []) l p
        → Route g exclude b visited a (a ∷ p)
    Sound-Route p (n, mem, s, r) =
        let (new, may) = skipped_not (visited ++ a ∷ []) n s in step n apart (l, key, mem) may new r

    -- The routes from a node are those of its neighbors that are not skipped, behind the node.
    Collected-Answers : Answers g exclude b visited a (extended a (shortest paths))
    Collected-Answers = elim (shortest_cases paths) [
      | inl (e, empty) ↦
          rw e (λ q r. let (p, listed, _) = collected q r in Memᴰ.not-nil (rw empty at listed))
      | inr (p, e, best) ↦ rw e (
        Sound-Route p (Memᴰ-All _ paths c.sound best.listed),
        λ q r.
            let (p', listed, short) = collected q r in
            let least = Memᴰ-All (λ x. length p ≤ length x) paths best.least listed in omega arith,
      )
    ]

  stop-Answers :
      (a : N) (visited : List N) → (a == b) ≡ true → Answers g exclude b visited a (some (a ∷ []))
  stop-Answers a visited there = (stop there, λ q r. length_of_Route r)

  pub rec_path-Answers :
      IsClosed g exclude b
      → (fuel : ℕ) (a : N) (visited : List N) → contains a visited ≡ false
      → unvisited visited g < fuel
      → (l : List N) → get a g ≡ some l
      → (o : Option (List N)) × (rec_path fuel g exclude a b visited ≡ ok o)
        × Answers g exclude b visited a o
  unfolding rec_path
  rec_path-Answers closed zero a visited new enough l key = elim enough [ ]
  rec_path-Answers closed (suc fuel) a visited new enough l key = elim (Bool-cases (a == b)) [
    | inl there ↦ (some (a ∷ []), rw (there, rec_path) refl, stop-Answers a visited there)
    | inr apart ↦
        let new_visited = visited ++ a ∷ [] in
        let less = unvisited-snoc-lt a visited g key new in
        let (paths, collects, c) =
          collect-Collected g exclude b (λ n. rec_path fuel g exclude n b new_visited)
            (is_skipped exclude b new_visited) new_visited l
            (λ n mem s.
              let (next, key') = closed a n (l, key, mem) in
              rec_path-Answers closed fuel n new_visited (skipped_not new_visited n s).0
                (omega arith) next key') in
        (
          extended a (shortest paths),
          rw (apart, rec_path) (rw key (rw collects refl)),
          Collected-Answers a visited l apart key paths c,
        )
  ]

-- ===== src/ShortestPath/Optimal.antt =====
-- The path that trans_sec/controller/shortest_path.py returns is as short as any walk, repeated nodes
-- included.
use mathlib.Core.Path.{subst}
use transparent_security.Prelude.{
  ℕ, suc, zero, ◌≤◌, ◌≡◌, refl, sym, ◌∙◌, Bool, true, false, inl, inr, ◌⊎◌, Option, none, some,
  List, [], ◌∷◌, ◌++◌, arith, Bool-cases,
}
use transparent_security.Prelude.Equality.{Eq, ◌==◌, contains}
use transparent_security.Prelude.Lists.{length}
use transparent_security.Prelude.Dict.{get}
use transparent_security.Prelude.Result.{ok, err, key_error}
use transparent_security.ShortestPath.Routes.{Route, stop, step, IsClosed, IsWalk}
use transparent_security.ShortestPath.Unvisited.{unvisited-nil, contains-snoc}
use transparent_security.ShortestPath.Collecting.{Answers}
use transparent_security.ShortestPath.Search.{rec_path-Answers}
use transparent_security.ShortestPath.{Neighbors, rec_path, shortest_path}

module _ {ℓ} {N : Type ℓ} ⦃e : Eq N⦄ (g : Neighbors N) (exclude : N → Bool) (b : N) where
  -- No node of the walk is visited already.
  abbrev Avoids : List N → List N → Type 0
  Avoids visited [] = Unit
  Avoids visited (n ∷ walk) = (contains n visited ≡ false) × Avoids visited walk

  -- A walk that does not come back to its first node, and is no longer.
  record Shortened (visited : List N) (a : N) (walk : List N) : Type ℓ where
    rest : List N
    is_walk : IsWalk g exclude b a rest
    avoids : Avoids (visited ++ a ∷ []) rest
    shorter : length rest ≤ length walk

  -- What follows the last visit to `a` in a walk from `s`, or the walk, which avoids `a`.
  cut :
      (visited : List N) (a s : N) (walk : List N)
      → IsWalk g exclude b s walk
      → Avoids visited walk
      → Shortened visited a walk ⊎ Avoids (visited ++ a ∷ []) walk
  cut visited a s [] w h = inr tt
  cut visited a s (n ∷ walk) (near, may, w) (fresh, h) = elim (cut visited a n walk w h) [
    | inl found ↦ inl (record {
      rest = found.rest;
      is_walk = found.is_walk;
      avoids = found.avoids;
      shorter = omega (arith, found.shorter);
    })
    | inr clear ↦ elim (Bool-cases (a == n)) [
      | inl here ↦ inl (record {
        rest = walk;
        is_walk = subst (λ x. IsWalk g exclude b x walk) (sym ((e.beq_iff a n).0 here)) w;
        avoids = clear;
        shorter = omega arith;
      })
      | inr other ↦ inr (contains-snoc n a visited ∙ rw (fresh, other) refl, clear)
    ]
  ]

  shortened :
      (visited : List N) (a : N) (walk : List N)
      → IsWalk g exclude b a walk
      → Avoids visited walk
      → Shortened visited a walk
  shortened visited a walk w h = elim (cut visited a a walk w h) [
    | inl found ↦ found
    | inr clear ↦ record { rest = walk; is_walk = w; avoids = clear; shorter = omega arith }
  ]

  -- A walk leaves out its detours and is a route.
  abbrev RouteWithin : List N → N → ℕ → Type ℓ
  RouteWithin visited a bound =
      (q : List N) × Route g exclude b visited a q × (length q ≤ suc bound)

  stopped : (bound : ℕ) (visited : List N) (a : N) → (a == b) ≡ true → RouteWithin visited a bound
  stopped bound visited a there = (a ∷ [], stop there, omega arith)

  -- One step of a walk that does not come back, with the rest made a route.
  onward :
      (bound : ℕ) (visited : List N) (a : N) (walk : List N)
      → (a == b) ≡ false
      → length walk ≤ suc bound
      → IsWalk g exclude b a walk
      → Avoids (visited ++ a ∷ []) walk
      → ((n : N) (rest : List N)
          → length rest ≤ bound
          → IsWalk g exclude b n rest
          → Avoids (visited ++ a ∷ []) rest
          → RouteWithin (visited ++ a ∷ []) n bound)
      → RouteWithin visited a (suc bound)
  onward bound visited a [] apart h w clear go = absurd (cc ((e.beq_iff a b).1 w, apart))
  onward bound visited a (n ∷ rest) apart h (near, may, w) (fresh, clear) go =
      let (q, route, short) = go n rest (omega arith) w clear in
      (a ∷ q, step n apart near may fresh route, omega arith)

  Route_of_walk :
      (bound : ℕ) (visited : List N) (a : N) (walk : List N)
      → length walk ≤ bound
      → IsWalk g exclude b a walk
      → Avoids visited walk
      → RouteWithin visited a bound
  Route_of_walk bound visited a [] h w clear = stopped bound visited a ((e.beq_iff a b).1 w)
  Route_of_walk zero visited a (n ∷ walk) h w clear = absurd (omega arith)
  Route_of_walk (suc bound) visited a (n ∷ walk) h w clear = elim (Bool-cases (a == b)) [
    | inl there ↦ stopped (suc bound) visited a there
    | inr apart ↦
        let s = shortened visited a (n ∷ walk) w clear in
        onward bound visited a s.rest apart (omega (arith, s.shorter)) s.is_walk s.avoids
          (λ m rest. Route_of_walk bound (visited ++ a ∷ []) m rest)
  ]

  Avoids-nil : (walk : List N) → Avoids [] walk
  Avoids-nil [] = tt
  Avoids-nil (n ∷ walk) = (refl, Avoids-nil walk)

  -- What a caller may rely on: a path that visits no node twice and passes no excluded node, and is
  -- as short as any walk; or that there is no walk.
  abbrev pub IsAnswer : N → Option (List N) → Type ℓ
  IsAnswer a none = (walk : List N) → ¬ IsWalk g exclude b a walk
  IsAnswer a (some p) =
      Route g exclude b [] a p
      × ((walk : List N) → IsWalk g exclude b a walk → length p ≤ suc (length walk))

  Answers-IsAnswer : (a : N) (o : Option (List N)) → Answers g exclude b [] a o → IsAnswer a o
  Answers-IsAnswer a none h = λ walk w.
      let (q, route, short) =
        Route_of_walk (length walk) [] a walk (omega arith) w (Avoids-nil walk) in
      h q route
  Answers-IsAnswer a (some p) h = (
    h.0,
    λ walk w.
        let (q, route, short) =
          Route_of_walk (length walk) [] a walk (omega arith) w (Avoids-nil walk) in
        omega (arith, h.1 q route),
  )

  -- From a node of a graph in which every neighbor is a node, `get` always returns: a path that
  -- visits no node twice, passes no excluded node and is as short as any walk to the goal, or None
  -- exactly where no walk leads to it.
  pub shortest_path-IsAnswer :
      (a : N) (l : List N)
      → IsClosed g exclude b
      → get a g ≡ some l
      → (o : Option (List N)) × (shortest_path g a b exclude ≡ ok o) × IsAnswer a o
  unfolding shortest_path
  shortest_path-IsAnswer a l closed key =
      let enough = unvisited-nil g in
      let (o, r, spec) =
        rec_path-Answers g exclude b closed (suc (length g)) a [] refl (omega (arith, enough)) l
          key in
      (o, r, Answers-IsAnswer a o spec)

  -- The KeyError: a node that is not in the graph, unless it is the goal.
  pub shortest_path_unknown :
      (a : N) → get a g ≡ none → (a == b) ≡ false → shortest_path g a b exclude ≡ err key_error
  unfolding shortest_path rec_path
  shortest_path_unknown a missing apart = rw (apart, rec_path) (rw missing refl)

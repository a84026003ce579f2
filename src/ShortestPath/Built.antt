-- ===== src/ShortestPath/Built.antt =====
-- Shortest paths over the graphs that the constructor of trans_sec/controller/shortest_path.py builds.
use mathlib.Core.List.{Memᴰ}
use mathlib.Core.List.Memᴰ
use transparent_security.Prelude.{
  ◌≡◌, refl, Bool, true, inl, inr, Option, some, List, [], ◌∷◌, arith, Option-cases,
}
use transparent_security.Prelude.Equality.{Eq, contains}
use transparent_security.Prelude.Dict.{get}
use transparent_security.Prelude.Result.{ok}
use transparent_security.ShortestPath.Routes.{IsClosed}
use transparent_security.ShortestPath.Optimal.{IsAnswer, shortest_path-IsAnswer}
use transparent_security.ShortestPath.Graph.{is_key, IsNetwork, add_edges-IsNetwork}
use transparent_security.ShortestPath.{Neighbors, add_edges, shortest_path}

module _ {ℓ} {N : Type ℓ} ⦃e : Eq N⦄ where
  contains_of_member : (n : N) (l : List N) → Memᴰ n l → contains n l ≡ true
  contains_of_member n [] m = absurd (Memᴰ.not-nil m)
  contains_of_member n (x ∷ l) m = elim (Memᴰ.cases_cons m) [
    | inl same ↦ ground (arith, e.beq_iff x n, same)
    | inr later ↦ ground (arith, contains_of_member n l later)
  ]

  key_of_is_key : (g : Neighbors N) (n : N) → is_key g n ≡ true → (l : List N) × (get n g ≡ some l)
  key_of_is_key g n k = elim (Option-cases (get n g)) [
    | inl missing ↦ absurd (cc (rw (missing, is_key) at k))
    | inr found ↦ found
  ]

  closed_of_network :
      (g : Neighbors N) (exclude : N → Bool) (b : N) → IsNetwork g → IsClosed g exclude b
  closed_of_network g exclude b h =
      λ a n (l, here, m). key_of_is_key g n (h.keyed a n (rw here (contains_of_member n l m)))

  empty-IsNetwork : IsNetwork {N = N} []
  unfolding get
  empty-IsNetwork = record { both_ways = λ a n. refl; keyed = λ a n j. absurd (cc) }

  -- From a node of the graph that the constructor builds of a list of edges, `get` always returns: a
  -- path that visits no node twice, passes no excluded node and is as short as any walk to the goal,
  -- or None, and then no walk leads to it.
  pub shortest_path_of_edges :
      (path_edges : List (N × N)) (a b : N) (exclude : N → Bool)
      → is_key (add_edges path_edges []) a ≡ true
      → (o : Option (List N)) × (shortest_path (add_edges path_edges []) a b exclude ≡ ok o)
        × IsAnswer (add_edges path_edges []) exclude b a o
  shortest_path_of_edges edges a b exclude k =
      let g = add_edges edges [] in
      let (l, found) = key_of_is_key g a k in
      shortest_path-IsAnswer g exclude b a l
        (closed_of_network g exclude b (add_edges-IsNetwork edges [] empty-IsNetwork)) found

-- ===== src/ShortestPath.antt =====
-- trans_sec/controller/shortest_path.py: shortest paths over the links of a topology.
mod Sorting
pub mod Graph
pub mod Routes
pub mod Collecting
pub mod Unvisited
pub mod Search
pub mod Depth
pub mod Optimal
pub mod Built
unfoldable pub use Sorting.{shortest}
use transparent_security.Prelude.{
  ℕ, zero, suc, Bool, true, false, not, ◌&&◌, ◌||◌, Option, none, some, List, [], ◌∷◌, ◌++◌,
  if◌then◌else◌,
}
use transparent_security.Prelude.Equality.{Eq, ◌==◌, contains}
use transparent_security.Prelude.Lists.{length}
use transparent_security.Prelude.Dict.{Dict, get, put}
use transparent_security.Prelude.Result.{Result, ok, err, key_error, error, ◌>>=◌}

abbrev pub Neighbors {ℓ} : Type ℓ → Type ℓ
Neighbors N = Dict N (List N)

abbrev pub kept {ℓ} : {A : Type ℓ} → Option A → List A → List A
kept none paths = paths
kept (some path) paths = path ∷ paths

module _ {ℓ} {N : Type ℓ} ⦃e : Eq N⦄ where
  -- `if a not in self.neighbors: self.neighbors[a] = []`
  unfoldable pub ensure : N → Neighbors N → Neighbors N
  ensure a g = elim (get a g) [ none ↦ put a [] g | some l ↦ g ]

  -- `if b not in self.neighbors[a]: self.neighbors[a].append(b)`, where `a` is a key
  unfoldable pub link : N → N → Neighbors N → Neighbors N
  link a b g = elim (get a g) [
    | none ↦ g
    | some l ↦ if contains b l then g else put a (l ++ b ∷ []) g
  ]

  unfoldable pub add_edge : N → N → Neighbors N → Neighbors N
  add_edge a b g = link b a (ensure b (link a b (ensure a g)))

  -- The constructor, from the graph so far.
  unfoldable pub add_edges : List (N × N) → Neighbors N → Neighbors N
  add_edges [] g = g
  add_edges ((a, b) ∷ path_edges) g = add_edges path_edges (add_edge a b g)

  abbrev pub is_skipped : (N → Bool) → N → List N → N → Bool
  is_skipped exclude b new_visited neighbor =
      contains neighbor new_visited || (exclude neighbor && not (neighbor == b))

  -- The loop over the neighbors, with the recursive call given.
  unfoldable pub collect :
      (N → Result (Option (List N))) → (N → Bool) → List N → Result (List (List N))
  collect call skipped [] = ok []
  collect call skipped (neighbor ∷ neighbors) =
      let rest = collect call skipped neighbors in
      if skipped neighbor
      then rest
      else (do path ← call neighbor; paths ← rest; ok (kept path paths))

  abbrev pub extended : N → Option (List N) → Option (List N)
  extended a none = none
  extended a (some path) = some (a ∷ path)

  -- Python's recursion ends by itself; here `fuel` bounds its depth.
  unfoldable pub rec_path : ℕ → Neighbors N → (N → Bool) → N → N → List N → Result (Option (List N))
  unfolding collect
  rec_path zero g exclude a b visited = err (error "out of fuel")
  rec_path (suc fuel) g exclude a b visited = elim (a == b) [
    | true ↦ ok (some (a ∷ []))
    | false ↦
        let new_visited = visited ++ a ∷ [] in
        elim (get a g) [
          | none ↦ err key_error
          | some neighbors ↦ do
            paths ←
                collect (λ n. rec_path fuel g exclude n b new_visited)
                  (is_skipped exclude b new_visited) neighbors
            ok (extended a (shortest paths))
        ]
  ]

  -- `get`: a path visits each key at most once.
  unfoldable pub shortest_path : Neighbors N → N → N → (N → Bool) → Result (Option (List N))
  unfolding rec_path
  shortest_path g a b exclude = rec_path (suc (length g)) g exclude a b []

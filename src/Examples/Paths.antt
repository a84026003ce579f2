-- ===== src/Examples/Paths.antt =====
-- Runs of trans_sec/controller/shortest_path.py.
use transparent_security.Prelude.{arith, ℕ, ◌≡◌, refl, Bool, false, Option, some, List, [], ◌∷◌}
use transparent_security.Prelude.Equality.{nat_eq}
use transparent_security.Prelude.Result.{ok}
use transparent_security.Prelude.Dict.{get, put}
use transparent_security.ShortestPath.{
  add_edge, add_edges, link, ensure, shortest, shortest_path, rec_path, Neighbors,
}
use transparent_security.ShortestPath.Depth.{Ends, shortest_path_depth}
use transparent_security.ShortestPath.Optimal.{IsAnswer}
use transparent_security.ShortestPath.Built.{shortest_path_of_edges}

-- A ring of four nodes with a chord.
abbrev ring : List (ℕ × ℕ)
ring = (1, 2) ∷ (2, 3) ∷ (3, 4) ∷ (4, 1) ∷ (2, 4) ∷ []

abbrev no_node : ℕ → Bool
no_node n = false

ring_path : shortest_path (add_edges ring []) 1 3 no_node ≡ ok (some (1 ∷ 2 ∷ 3 ∷ []))
unfolding get put add_edges add_edge link ensure shortest_path shortest
ring_path = refl

shortest_path_of_edges_example :
    (o : Option (List ℕ)) × (shortest_path (add_edges ring []) 1 3 no_node ≡ ok o)
    × IsAnswer (add_edges ring []) no_node 3 1 o
unfolding get put add_edges add_edge link ensure
shortest_path_of_edges_example = shortest_path_of_edges ring 1 3 no_node refl

abbrev pair : Neighbors ℕ
pair = (1, 2 ∷ []) ∷ (2, 1 ∷ []) ∷ []

shortest_path_depth_example :
    Ends (rec_path 9 pair no_node 1 2 [])
    × (rec_path 9 pair no_node 1 2 [] ≡ shortest_path pair 1 2 no_node)
shortest_path_depth_example = shortest_path_depth pair 1 2 no_node 9 (omega arith)

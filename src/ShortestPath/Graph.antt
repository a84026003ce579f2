-- ===== src/ShortestPath/Graph.antt =====
-- The graph that `add_edge` of trans_sec/controller/shortest_path.py builds.
use transparent_security.Prelude.{
  ◌≡◌, refl, ap, ◌∙◌, Bool, true, false, ◌||◌, ◌&&◌, inl, inr, Option, none, some, List, [], ◌∷◌,
  ◌++◌, arith, Option-cases,
}
use transparent_security.Prelude.Equality.{Eq, ◌==◌, contains, beq_refl}
use transparent_security.Prelude.Dict.{get, get-put}
use transparent_security.ShortestPath.{Neighbors, ensure, link, add_edge, add_edges}

or_true : (x : Bool) → (x || true) ≡ true
or_true true = refl
or_true false = refl

or_regroup : (a b c d : Bool) → (((a || b) || c) || d) ≡ (a || ((b || c) || d))
or_regroup a b c d = ground arith

module _ {ℓ} {N : Type ℓ} ⦃e : Eq N⦄ where
  -- Whether a list, or the list of a node, holds a node.
  abbrev pub holds : N → Option (List N) → Bool
  holds n none = false
  holds n (some l) = contains n l

  abbrev pub adjacent : Neighbors N → N → N → Bool
  adjacent g a n = holds n (get a g)

  abbrev pub is_key : Neighbors N → N → Bool
  is_key g a = elim (get a g) [ none ↦ false | some l ↦ true ]

  contains-append : (n m : N) (l : List N) → contains n (l ++ m ∷ []) ≡ (contains n l || m == n)
  contains-append n m [] = ground arith
  contains-append n m (x ∷ l) = ground (arith, contains-append n m l)

  adjacent-ensure : (c a n : N) (g : Neighbors N) → adjacent (ensure c g) a n ≡ adjacent g a n
  unfolding ensure
  adjacent-ensure c a n g = ground (arith, get-put c a [] g, e.beq_iff c a)

  is_key-ensure : (c a : N) (g : Neighbors N) → is_key (ensure c g) a ≡ (is_key g a || c == a)
  unfolding ensure
  is_key-ensure c a g = ground (arith, get-put c a [] g, e.beq_iff c a)

  is_key-link : (c d a : N) (g : Neighbors N) → is_key (link c d g) a ≡ is_key g a
  unfolding link
  is_key-link c d a g = elim (Option-cases (get c g)) [
    | inl h ↦ ground (arith, h)
    | inr (l, h) ↦ ground (arith, h, get-put c a (l ++ d ∷ []) g, e.beq_iff c a)
  ]

  adjacent-link :
      (c d a n : N) (g : Neighbors N)
      → is_key g c ≡ true
      → adjacent (link c d g) a n ≡ (adjacent g a n || (c == a && d == n))
  unfolding link
  adjacent-link c d a n g key = elim (Option-cases (get c g)) [
    | inl h ↦ ground (arith, h, key)
    | inr (l, h) ↦
        ground (
          arith,
          h,
          get-put c a (l ++ d ∷ []) g,
          e.beq_iff c a,
          e.beq_iff d n,
          contains-append n d l,
        )
  ]

  module _ (c d : N) (g : Neighbors N) where
    abbrev half : Neighbors N
    half = link c d (ensure c g)

    adjacent-half : (a n : N) → adjacent half a n ≡ (adjacent g a n || (c == a && d == n))
    adjacent-half a n =
        adjacent-link c d a n (ensure c g) (is_key-ensure c c g ∙ rw (beq_refl c) (or_true _))
        ∙ ap (λ x. x || (c == a && d == n)) (adjacent-ensure c a n g)

    -- An edge makes exactly its two ends adjacent, in both directions.
    adjacent-add_edge :
        (a n : N)
        → adjacent (add_edge c d g) a n
          ≡ ((adjacent g a n || (c == a && d == n)) || (d == a && c == n))
    unfolding add_edge
    adjacent-add_edge a n =
        adjacent-link d c a n (ensure d half) (is_key-ensure d d half ∙ rw (beq_refl d) (or_true _))
        ∙ ap (λ x. x || (d == a && c == n)) (adjacent-ensure d a n half ∙ adjacent-half a n)

    is_key-add_edge : (a : N) → is_key (add_edge c d g) a ≡ ((is_key g a || c == a) || d == a)
    unfolding add_edge
    is_key-add_edge a =
        is_key-link d c a (ensure d half)
        ∙ is_key-ensure d a half
        ∙ ap (λ x. x || d == a) (is_key-link c d a (ensure c g) ∙ is_key-ensure c a g)

  -- Some edge joins the two nodes.
  abbrev pub joins : List (N × N) → N → N → Bool
  joins [] a n = false
  joins ((c, d) ∷ edges) a n = ((c == a && d == n) || (d == a && c == n)) || joins edges a n

  -- A node stands in the list of another exactly if some edge joins them, in either direction, or it
  -- did so before.
  pub adjacent-add_edges :
      (path_edges : List (N × N)) (g : Neighbors N) (a n : N)
      → adjacent (add_edges path_edges g) a n ≡ (adjacent g a n || joins path_edges a n)
  unfolding add_edges
  adjacent-add_edges [] g a n = ground arith
  adjacent-add_edges ((c, d) ∷ edges) g a n =
      adjacent-add_edges edges (add_edge c d g) a n
      ∙ ap (λ x. x || joins edges a n) (adjacent-add_edge c d g a n)
      ∙ or_regroup (adjacent g a n) (c == a && d == n) (d == a && c == n) (joins edges a n)

  -- Adjacency goes both ways, and every neighbor is a node.
  pub record IsNetwork (g : Neighbors N) : Type ℓ where
    pub both_ways : (a n : N) → adjacent g a n ≡ adjacent g n a
    pub keyed : (a n : N) → adjacent g a n ≡ true → is_key g n ≡ true

  add_edge-IsNetwork : (c d : N) (g : Neighbors N) → IsNetwork g → IsNetwork (add_edge c d g)
  add_edge-IsNetwork c d g h = record {
    both_ways = λ a n.
        ground (arith, adjacent-add_edge c d g a n, adjacent-add_edge c d g n a, h.both_ways a n);
    keyed =
        λ a n j. ground (arith, adjacent-add_edge c d g a n, is_key-add_edge c d g n, h.keyed a n);
  }

  -- The constructor's graph is one in which links go both ways and every neighbor is a node.
  pub add_edges-IsNetwork :
      (path_edges : List (N × N)) (g : Neighbors N)
      → IsNetwork g
      → IsNetwork (add_edges path_edges g)
  unfolding add_edges
  add_edges-IsNetwork [] g h = h
  add_edges-IsNetwork ((c, d) ∷ edges) g h =
      add_edges-IsNetwork edges (add_edge c d g) (add_edge-IsNetwork c d g h)

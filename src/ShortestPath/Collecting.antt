-- ===== src/ShortestPath/Collecting.antt =====
-- The loop of `__rec_path` over the neighbors of a node (trans_sec/controller/shortest_path.py).
use mathlib.Core.Path.{subst}
use mathlib.Core.List.Memᴰ
use mathlib.Core.List.{Memᴰ}
use transparent_security.Prelude.{
  ◌≤◌, ◌≡◌, refl, Bool, false, inl, inr, Option, none, some, List, [], ◌∷◌, Bool-cases,
}
use transparent_security.Prelude.Equality.{Eq}
use transparent_security.Prelude.Lists.{length, All}
use transparent_security.Prelude.Result.{Result, ok}
use transparent_security.ShortestPath.Routes.{Route}
use transparent_security.ShortestPath.{Neighbors, kept, collect}

module _ {ℓ} {N : Type ℓ} ⦃e : Eq N⦄ (g : Neighbors N) (exclude : N → Bool) (b : N) where
  -- A shortest route, or the absence of routes.
  abbrev pub Answers : List N → N → Option (List N) → Type ℓ
  Answers visited a none = (q : List N) → ¬ Route g exclude b visited a q
  Answers visited a (some p) =
      Route g exclude b visited a p
      × ((q : List N) → Route g exclude b visited a q → length p ≤ length q)

  abbrev pub Answered : (N → Result (Option (List N))) → List N → N → Type ℓ
  Answered call visited n = (o : Option (List N)) × (call n ≡ ok o) × Answers visited n o

  abbrev pub Sound : (N → Bool) → List N → List N → List N → Type ℓ
  Sound skipped visited neighbors p =
      (n : N) × Memᴰ n neighbors × (skipped n ≡ false) × Route g exclude b visited n p

  -- What the loop collects: routes of neighbors, one as short as any for each neighbor.
  pub record Collected (skipped : N → Bool) (visited neighbors : List N) (paths : List (List N))
      : Type ℓ where
    pub sound : All (Sound skipped visited neighbors) paths
    pub complete :
        (n : N)
        → Memᴰ n neighbors
        → skipped n ≡ false
        → (q : List N) → Route g exclude b visited n q
        → (p : List N) × Memᴰ p paths × (length p ≤ length q)

  widen :
      (skipped : N → Bool) (visited : List N) (m : N) (ns : List N) (paths : List (List N))
      → All (Sound skipped visited ns) paths
      → All (Sound skipped visited (m ∷ ns)) paths
  widen skipped visited m ns [] h = tt
  widen skipped visited m ns (p ∷ paths) ((n, mem, s, r), h) =
      ((n, Memᴰ.tail mem, s, r), widen skipped visited m ns paths h)

  skip-Collected :
      (skipped : N → Bool) (visited : List N) (n : N) (ns : List N) (paths : List (List N))
      → ((q : List N) → skipped n ≡ false → ¬ Route g exclude b visited n q)
      → Collected skipped visited ns paths
      → Collected skipped visited (n ∷ ns) paths
  skip-Collected skipped visited n ns paths closed c = record {
    sound = widen skipped visited n ns paths c.sound;
    complete = λ m mem s q r. elim (Memᴰ.cases_cons mem) [
      | inl same ↦ absurd (
          closed q (subst (λ x. skipped x ≡ false) same s)
            (subst (λ x. Route g exclude b visited x q) same r))
      | inr later ↦ c.complete m later s q r
    ];
  }

  keep-Collected :
      (skipped : N → Bool) (visited : List N) (n : N) (ns : List N) (p : List N)
      (paths : List (List N))
      → skipped n ≡ false
      → Answers visited n (some p)
      → Collected skipped visited ns paths
      → Collected skipped visited (n ∷ ns) (p ∷ paths)
  keep-Collected skipped visited n ns p paths s (route, least) c = record {
    sound = ((n, Memᴰ.head refl, s, route), widen skipped visited n ns paths c.sound);
    complete = λ m mem sm q r. elim (Memᴰ.cases_cons mem) [
      | inl same ↦ (p, Memᴰ.head refl, least q (subst (λ x. Route g exclude b visited x q) same r))
      | inr later ↦
          let (p', listed, short) = c.complete m later sm q r in (p', Memᴰ.tail listed, short)
    ];
  }

  answered :
      (call : N → Result (Option (List N))) (skipped : N → Bool) (visited : List N) (n : N)
      (ns : List N) (o : Option (List N)) (paths : List (List N))
      → skipped n ≡ false
      → Answers visited n o
      → Collected skipped visited ns paths
      → (all : List (List N)) × (ok (kept o paths) ≡ ok all)
        × Collected skipped visited (n ∷ ns) all
  answered call skipped visited n ns none paths s spec c =
      (paths, refl, skip-Collected skipped visited n ns paths (λ q _. spec q) c)
  answered call skipped visited n ns (some p) paths s spec c =
      (p ∷ paths, refl, keep-Collected skipped visited n ns p paths s spec c)

  pub collect-Collected :
      (call : N → Result (Option (List N))) (skipped : N → Bool) (visited neighbors : List N)
      → ((n : N) → Memᴰ n neighbors → skipped n ≡ false → Answered call visited n)
      → (paths : List (List N)) × (collect call skipped neighbors ≡ ok paths)
        × Collected skipped visited neighbors paths
  unfolding collect
  collect-Collected call skipped visited [] h =
      ([], refl, record { sound = tt; complete = λ n m. elim m [ ] })
  collect-Collected call skipped visited (n ∷ ns) h =
      let (paths, r, c) =
        collect-Collected call skipped visited ns (λ m mem. h m (Memᴰ.tail mem)) in
      elim (Bool-cases (skipped n)) [
        | inl s ↦
            (paths, rw s r, skip-Collected skipped visited n ns paths (λ q f. absurd (cc (s, f))) c)
        | inr s ↦
            let (o, answer, spec) = h n (Memᴰ.head refl) s in
            let (kept_paths, e, kept_spec) = answered call skipped visited n ns o paths s spec c in
            (kept_paths, rw s (rw answer (rw r e)), kept_spec)
      ]

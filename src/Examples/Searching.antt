-- ===== src/Examples/Searching.antt =====
-- A run of the engine that searches a tree, over a tree of which all nodes are called "root".
use mathlib.Core.Path.{subst}
use transparent_security.Prelude.{
  ℕ, Option, none, some, List, [], ◌∷◌, ◌≡◌, false, if◌then◌else◌, inl, inr, Bool-cases,
}
use transparent_security.Prelude.Lists.{All}
use transparent_security.Prelude.Equality.{◌==◌, string_eq}
use transparent_security.Prelude.Result.{Result, ok}
use transparent_security.Consts.{udp_proto, ipv4_type}
use transparent_security.Traffic.Sending.{Part, ether_part, ip_part}
use transparent_security.Analytics.Oinc.{Name, text, number, AnyTree, Oinc, Now, sniff_int}
use transparent_security.Analytics.Oinc.Idle.{IsSearch, sniff_int-idle}
use transparent_security.Examples.Sniffing.{listed, two_hops}

abbrev at_root : ℕ → Option Name → List ℕ
at_root n none = []
at_root n (some (text t)) = if t == "root" then n ∷ [] else []
at_root n (some (number k)) = []

abbrev roots : AnyTree
roots = record {
  Tree = Unit {0};
  Node = ℕ;
  root = λ t. 0;
  findall_by_attr = λ t n v. ok (at_root n v);
  children = λ t n. [];
  name = λ t n. some (text "root");
  count_of = λ t n. ok (record { value = 0; time = 0; attack = false });
  set_count = λ n c t. t;
}

All-at_root : (n : ℕ) (v : Option Name) → All (λ m. some (text "root") ≡ v) (at_root n v)
All-at_root n none = tt
All-at_root n (some (number k)) = tt
All-at_root n (some (text t)) = elim (Bool-cases (t == "root")) [
  | inl same ↦ rw same (cc ((string_eq.beq_iff t "root").0 same), tt)
  | inr other ↦ rw other tt
]

roots-finds :
    (n : ℕ) (v : Option Name) (ns : List ℕ)
    → ◌≡◌ {A = Result (List ℕ)} (ok (at_root n v)) (ok ns)
    → All (λ m. some (text "root") ≡ v) ns
roots-finds n v ns e =
    let same : at_root n v ≡ ns = cc in
    subst (All (λ m. some (text "root") ≡ v)) same (All-at_root n v)

roots-IsSearch : IsSearch roots
roots-IsSearch = record {
  finds = λ t n v ns e. roots-finds n v ns e;
  named = λ t n e. absurd (cc (e));
}

abbrev packet : List Part
packet =
    ether_part "00:00:00:00:01:01" "00:00:00:00:02:02" ipv4_type
    ∷ ip_part "10.0.0.2" (some "10.0.0.1") none udp_proto
    ∷ two_hops

abbrev start : Oinc roots
start = record { tree = tt; requests = [] }

abbrev noon : Now
noon = record { today = 43_200_000_000; reply = ok tt }

sniff_int-idle_example : sniff_int roots listed ((packet, noon) ∷ (packet, noon) ∷ []) start ≡ start
sniff_int-idle_example =
    sniff_int-idle roots roots-IsSearch listed ((packet, noon) ∷ (packet, noon) ∷ []) start

-- ===== src/Analytics/Oinc/Idle.antt =====
-- What `Oinc` of trans_sec/analytics/oinc.py does with the packets of a network.
use transparent_security.Prelude.{◌≡◌, ◌≢◌, Option, none, some, List, [], ◌∷◌, refl, ◌⊎◌, inl, inr}
use transparent_security.Prelude.Lists.{All}
use transparent_security.Prelude.Equality.{string_eq}
use transparent_security.Prelude.Result.{Exception, ok, err, Result-cases}
use transparent_security.External.{Scapy}
use transparent_security.Analytics.Extract.{IntData, extract_int_data}
use transparent_security.Analytics.Oinc.{
  Name, AnyTree, Oinc, Found, Now, info_get, find, search_tree, search_info, parse_tree,
  process_packet, sniff_int,
}

-- anytree: what is found has the name that was searched for, and every node has a name.
pub record IsSearch (anytree : AnyTree) : Type 0 where
  pub finds :
      (t : anytree.Tree) (n : anytree.Node) (v : Option Name) (ns : List anytree.Node)
      → anytree.findall_by_attr t n v ≡ ok ns
      → All (λ m. anytree.name t m ≡ v) ns
  pub named : (t : anytree.Tree) (n : anytree.Node) → anytree.name t n ≢ none

module _ (anytree : AnyTree) (search : IsSearch anytree) where
  open anytree use {Tree, Node, findall_by_attr, name}

  -- Nothing is found under None.
  none_found : (t : Tree) (n m : Node) (ms : List Node) → findall_by_attr t n none ≢ ok (m ∷ ms)
  none_found t n m ms e = search.named t m (search.finds t n none (m ∷ ms) e).0

  find_lem :
      (t : Tree) (info : IntData) (n : Node)
      → ((x : Exception) × (find anytree t info "srcMac" n ≡ err x))
        ⊎ (find anytree t info "srcMac" n ≡ ok none)
  unfolding find info_get
  find_lem t info n = elim (Result-cases (findall_by_attr t n none)) [
    | inl (x, failed) ↦ inl (x, rw (find, failed) refl)
    | inr ([], empty) ↦ inr (rw (find, empty) refl)
    | inr (m ∷ ms, found) ↦ absurd (none_found t n m ms found)
  ]

  -- The search of a packet stops at its first level.
  search_tree-idle :
      (t : Tree) (info : IntData) (found : Found anytree)
      → search_tree anytree t info ≡ ok found
      → found.mac ≡ none
  unfolding search_tree
  search_tree-idle t info found e = elim (find_lem t info (anytree.root t)) [
    | inl (x, failed) ↦ cc (rw (search_tree, failed) at e)
    | inr empty ↦ cc (rw (search_tree, empty) at e)
  ]

  search_info-idle :
      (t : Tree) (info : Option IntData) (found : Found anytree)
      → search_info anytree t info ≡ ok found
      → found.mac ≡ none
  search_info-idle t none found e = cc
  search_info-idle t (some info) found e = search_tree-idle t info found e

  module _ (scapy : Scapy) where
    open scapy use {Packet, ether}

    parse_tree-idle :
        (packet : Packet) (t : Tree) (found : Found anytree)
        → parse_tree anytree scapy packet t ≡ ok found
        → found.mac ≡ none
    unfolding parse_tree
    parse_tree-idle packet t found e = elim (Result-cases (ether packet)) [
      | inl (x, failed) ↦ cc (rw (parse_tree, failed) at e)
      | inr (frame, framed) ↦ elim (Result-cases (extract_int_data scapy frame)) [
        | inl (x, failed) ↦ cc (rw (parse_tree, framed, failed) at e)
        | inr (info, read) ↦ search_info-idle t info found (rw (parse_tree, framed, read) at e)
      ]
    ]

    process_packet-idle :
        (packet : Packet) (now : Now) (o : Oinc anytree)
        → (process_packet anytree scapy packet now o).1 ≡ o
    unfolding process_packet
    process_packet-idle packet now o =
        elim (Result-cases (parse_tree anytree scapy packet o.tree)) [
          | inl (x, failed) ↦ rw failed refl
          | inr (found, parsed) ↦ rw parsed (rw (parse_tree-idle packet o.tree found parsed) refl)
        ]

    -- Whatever packets come, and whatever tree it has, this engine sends no request and leaves its
    -- tree as it is.
    pub sniff_int-idle :
        (packets : List (Packet × Now)) (o : Oinc anytree) → sniff_int anytree scapy packets o ≡ o
    unfolding sniff_int
    sniff_int-idle [] o = refl
    sniff_int-idle ((packet, now) ∷ packets) o =
        rw (process_packet-idle packet now o) (sniff_int-idle packets o)

-- ===== src/Traffic/Hops.antt =====
-- The packets with INT metadata of trans_sec/device_software/send_packets.py: the headers in their
-- order, and how the metadata are read from them.
use transparent_security.Prelude.{
  ℕ, suc, ◌+◌, ◌-◌, ◌*◌, ◌≡◌, ◌≢◌, ◌≤◌, String, Bool, none, some, List, [], ◌∷◌, ◌++◌,
  if◌then◌else◌, refl, ap, ◌∙◌, lt→ltb, arith,
}
use mathlib.Core.List.{append_assoc}
use transparent_security.Prelude.Lists.{length, All}
use transparent_security.Prelude.Equality.{◌==◌, nat_eq, string_eq, beq_ne}
use transparent_security.Prelude.Dict.{get}
use transparent_security.Prelude.Result.{ok}
use transparent_security.Packet.{int_header, int_meta, source_int_meta}
use transparent_security.External.{Header, Scapy, IpAddress}
use transparent_security.Analytics.Extract.{source_meta}
use transparent_security.Traffic.Sending.{
  Part, header_part, raw_part, Args, Meta, Machine, add_meta, add_metas, get_dst_mac, gen_int_pkt,
  int_head, known_or, mac_from_ip, get_dst_mac_from_ip, gen_pkt, own_mac, transport, create_packet,
}
use transparent_security.Traffic.Wire.{Wire, IsFaithful}

-- The hops of the file: the ids of the switches behind the source, at most two of them, and then
-- the source with its MAC address.
abbrev pub hop : ℕ → Meta
hop id = record { switch_id = some id; orig_mac = none }

abbrev pub source : ℕ → String → Meta
source id mac = record { switch_id = some id; orig_mac = some mac }

abbrev pub hops : List ℕ → ℕ → String → List Meta
hops [] id mac = source id mac ∷ []
hops (next ∷ ids) id mac = hop next ∷ hops ids id mac

-- The headers of the hops, and what is behind them.
abbrev pub hop_parts : ℕ → List ℕ → ℕ → String → List Part → List Part
hop_parts ctr [] id mac rest =
    header_part "Source_INT_Meta" source_int_meta (("switch_id", id) ∷ []) (("orig_mac", mac) ∷ [])
    ∷ rest
hop_parts ctr (next ∷ ids) id mac rest =
    header_part (if ctr == 0 then "INT_META_1" else "INT_META_2") int_meta
      (("switch_id", next) ∷ []) []
    ∷ hop_parts (ctr + 1) ids id mac rest

module _ (scapy : Scapy) (wire : Wire scapy) (faithful : IsFaithful scapy wire) where
  open scapy use {Bytes, size, ether, ip, ipv6, udp, tcp, dissect}
  open wire use {build, capture, IsWritable, shown_ip, shown_src, shown_mac, byte_size}
  open faithful use {
    reads_ether, reads_ip, reads_ipv6, reads_udp_int, reads_udp, reads_tcp, reads_header, sizes,
    no_size,
  }

  pub reads_source :
      (id : ℕ) (mac : String) (rest : List Part)
      → IsWritable (
          header_part "Source_INT_Meta" source_int_meta
            (("switch_id", id) ∷ [])
            (("orig_mac", mac) ∷ []))
      → (h : Header Bytes) × (dissect source_int_meta (build (hop_parts 0 [] id mac rest)) ≡ ok h)
        × (h.mac "orig_mac" ≡ shown_mac mac)
        × (h.payload ≡ build rest)
  unfolding get
  reads_source id mac rest w =
      let (h, reads, number, macs, behind) =
        reads_header "Source_INT_Meta" source_int_meta (("switch_id", id) ∷ [])
          (("orig_mac", mac) ∷ []) rest w in
      (h, reads, macs "orig_mac" mac refl, behind)

  -- The metadata are read in the order in which they were written.
  pub source_meta-hop_parts :
      (ids : List ℕ) (id : ℕ) (mac : String) (rest : List Part)
      → length ids ≤ 2
      → All IsWritable (hop_parts 0 ids id mac [])
      → (h : Header Bytes) × (source_meta scapy
            (7 + length ids)
            (build (hop_parts 0 ids id mac rest))
          ≡ ok (some h))
        × (h.mac "orig_mac" ≡ shown_mac mac)
        × (h.payload ≡ build rest)
  unfolding source_meta
  source_meta-hop_parts [] id mac rest max (w, _) =
      let (h, reads, found, behind) = reads_source id mac rest w in
      (h, rw reads refl, found, behind)
  source_meta-hop_parts (a ∷ []) id mac rest max (wa, (w, _)) =
      let (h, reads, found, behind) = reads_source id mac rest w in
      let (ha, reads_a, _, _, behind_a) =
        reads_header "INT_META_1" int_meta (("switch_id", a) ∷ []) [] (hop_parts 1 [] id mac rest)
          wa in
      (h, rw reads_a (rw behind_a (rw reads refl)), found, behind)
  source_meta-hop_parts (a ∷ b ∷ []) id mac rest max (wa, (wb, (w, _))) =
      let (h, reads, found, behind) = reads_source id mac rest w in
      let (ha, reads_a, _, _, behind_a) =
        reads_header "INT_META_1" int_meta (("switch_id", a) ∷ []) []
          (hop_parts 1 (b ∷ []) id mac rest) wa in
      let (hb, reads_b, _, _, behind_b) =
        reads_header "INT_META_2" int_meta (("switch_id", b) ∷ []) [] (hop_parts 2 [] id mac rest)
          wb in
      (h, rw reads_a (rw behind_a (rw reads_b (rw behind_b (rw reads refl)))), found, behind)
  source_meta-hop_parts (a ∷ b ∷ c ∷ ids) id mac rest max w = absurd (omega arith)

  -- The bytes of the hops, four for each switch behind the source and twelve for the source.
  pub size-hop_parts :
      (ctr : ℕ) (ids : List ℕ) (id : ℕ) (mac : String) (rest : List Part)
      → size (build (hop_parts ctr ids id mac rest)) ≡ 4 * length ids + 12 + size (build rest)
  unfolding int_meta source_int_meta
  size-hop_parts ctr [] id mac rest = sizes _ rest
  size-hop_parts ctr (a ∷ ids) id mac rest = omega (
    arith,
    sizes
        (header_part (if ctr == 0 then "INT_META_1" else "INT_META_2") int_meta
          (("switch_id", a) ∷ []) [])
        (hop_parts (ctr + 1) ids id mac rest),
    size-hop_parts (ctr + 1) ids id mac rest,
  )

-- The file's hops are added as they are, where the MAC address is not empty.
add_metas-hops :
    (ctr : ℕ) (pkt : List Part) (ids : List ℕ) (id : ℕ) (mac : String)
    → mac ≢ ""
    → add_metas ctr pkt (hops ids id mac) ≡ ok (pkt ++ hop_parts ctr ids id mac [])
unfolding add_metas add_meta
add_metas-hops ctr pkt [] id mac given = rw (beq_ne mac "" given) refl
add_metas-hops ctr pkt (a ∷ ids) id mac given =
    add_metas-hops (ctr + 1) _ ids id mac given ∙ ap ok (append_assoc pkt _ _)

hop_parts-append :
    (ctr : ℕ) (ids : List ℕ) (id : ℕ) (mac : String) (rest : List Part)
    → hop_parts ctr ids id mac [] ++ rest ≡ hop_parts ctr ids id mac rest
hop_parts-append ctr [] id mac rest = refl
hop_parts-append ctr (a ∷ ids) id mac rest = rw (hop_parts-append (ctr + 1) ids id mac rest) refl

length-hops : (ids : List ℕ) (id : ℕ) (mac : String) → length (hops ids id mac) ≡ suc (length ids)
length-hops [] id mac = refl
length-hops (a ∷ ids) id mac = ap suc (length-hops ids id mac)

shim_length : (n : ℕ) → 4 + 3 + suc n - 1 ≡ 7 + n
shim_length n = omega arith

abbrev pub int_part : Part
int_part = header_part "IntHeader" int_header [] []

-- What is behind the shim.
abbrev pub behind_shim : {Seconds : Type 0} → Args Seconds → List ℕ → ℕ → String → List Part
behind_shim args ids id mac =
    int_part
    ∷ hop_parts 0 ids id mac
        (transport args.protocol args.port args.source_port ∷ raw_part args.msg ∷ [])

module _ (ipaddress : IpAddress) (machine : Machine) {Seconds : Type 0} where
  open ipaddress use {Address, ip_address, version}

  -- The packet for the hops of a file.
  abbrev pub int_packet : Args Seconds → Bool → String → String → List ℕ → ℕ → String → List Part
  int_packet args is_ipv6 src_mac dst_mac ids id mac =
      int_head ipaddress machine args is_ipv6 src_mac dst_mac (7 + length ids)
      ++ behind_shim args ids id mac

  abbrev pub dst_mac_of : Args Seconds → Address → String
  dst_mac_of args addr =
      known_or args.switch_ethernet (mac_from_ip ipaddress machine addr args.destination)

  abbrev pub head : Args Seconds → Bool → String → Address → List ℕ → List Part
  head args is_ipv6 src_mac addr ids =
      int_head ipaddress machine args is_ipv6 src_mac (dst_mac_of args addr) (7 + length ids)

  gen_int_pkt-hops :
      (args : Args Seconds) (file src_mac : String) (is_ipv6 : Bool) (addr : Address) (ids : List ℕ)
      (id : ℕ) (mac : String)
      → ip_address args.destination ≡ ok addr
      → machine.read_meta file ≡ ok (hops ids id mac)
      → mac ≢ ""
      → gen_int_pkt ipaddress machine args file is_ipv6 src_mac
        ≡ ok (
            int_head ipaddress machine args is_ipv6 src_mac (dst_mac_of args addr) (7 + length ids)
            ++ int_part ∷ hop_parts 0 ids id mac [])
  unfolding gen_int_pkt get_dst_mac get_dst_mac_from_ip
  gen_int_pkt-hops args file src_mac is_ipv6 addr ids id mac at reads found =
      rw (reads, at)
        (rw (length-hops ids id mac) (
          rw (lt→ltb 0 (suc (length ids)) (omega arith), add_metas-hops 0 _ ids id mac found)
            (rw (shim_length (length ids)) (
              ap ok (
                append_assoc (head args is_ipv6 src_mac addr ids) (int_part ∷ [])
                  (hop_parts 0 ids id mac []))))))

  pub create_packet-hops :
      (args : Args Seconds) (interface file src_mac : String) (addr : Address) (ids : List ℕ)
      (id : ℕ) (mac : String)
      → own_mac ipaddress machine args.src_mac interface ≡ ok src_mac
      → ip_address args.destination ≡ ok addr
      → args.int_hdr_file ≡ some file
      → file ≢ ""
      → machine.read_meta file ≡ ok (hops ids id mac)
      → mac ≢ ""
      → create_packet ipaddress machine args interface
        ≡ ok (int_packet args (version addr == 6) src_mac (dst_mac_of args addr) ids id mac)
  unfolding create_packet
  create_packet-hops args interface file src_mac addr ids id mac own at named given reads found =
      let is_ipv6 = version addr == 6 in
      let set : gen_pkt ipaddress machine args (some file) is_ipv6 src_mac
          ≡ gen_int_pkt ipaddress machine args file is_ipv6 src_mac =
        rw (beq_ne file "" given) refl in
      let made =
        ap (λ o. gen_pkt ipaddress machine args o is_ipv6 src_mac) named
        ∙ set
        ∙ gen_int_pkt-hops args file src_mac is_ipv6 addr ids id mac at reads found in
      let end : List Part =
        transport args.protocol args.port args.source_port ∷ raw_part args.msg ∷ [] in
      rw (own, at)
        (rw made (
          ap ok (
            append_assoc (head args is_ipv6 src_mac addr ids) (int_part ∷ hop_parts 0 ids id mac [])
              end
            ∙ ap (λ ps. head args is_ipv6 src_mac addr ids ++ int_part ∷ ps)
                (hop_parts-append 0 ids id mac end))))

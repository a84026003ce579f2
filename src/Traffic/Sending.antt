-- ===== src/Traffic/Sending.antt =====
-- trans_sec/device_software/send_packets.py: the packets that are made of the arguments of the
-- command line, whose numbers are not negative, and how often they are sent.
use transparent_security.Prelude.{
  ℕ, ◌+◌, ◌-◌, ◌*◌, String, Bool, ◌||◌, Option, none, some, List, [], ◌∷◌, ◌++◌, if◌then◌else◌, ltb,
}
use transparent_security.Prelude.Lists.{length}
use transparent_security.Prelude.Equality.{◌==◌, nat_eq, string_eq}
use transparent_security.Prelude.Dict.{Dict}
use transparent_security.Prelude.Result.{Result, ok, err, error, key_error, ◌>>=◌}
use transparent_security.Consts.{
  udp_proto, tcp_proto, ipv4_type, ipv6_type, ipv4_hdr_len, ipv6_hdr_len, udp_hdr_len, tcp_hdr_len,
  udp_int_hdr_len, payload_len,
}
use transparent_security.Packet.{Layer, int_shim, int_header, int_meta, source_int_meta, udp_int}
use transparent_security.External.{IpAddress}

-- A header as it is given to scapy. Of the fields of a header of the program's own those that are
-- given stand with their values, the numbers and the MAC addresses apart.
pub data Part : Type 0 where
  ether_part : String → String → ℕ → Part
  ip_part : String → Option String → Option ℕ → ℕ → Part
  ipv6_part : String → Option String → Option ℕ → ℕ → Part
  udp_part : ℕ → ℕ → Part
  tcp_part : ℕ → ℕ → Part
  header_part : String → Layer → Dict String ℕ → Dict String String → Part
  raw_part : String → Part

-- `choices=['TCP', 'UDP']`
pub data Protocol : Type 0 where
  over_tcp over_udp : Protocol

-- The arguments; the interval is handed on to scapy as it is.
pub record Args (Seconds : Type 0) : Type 0 where
  pub continuous : Bool
  pub count : ℕ
  pub interval : Seconds
  pub delay : ℕ
  pub destination : String
  pub src_mac : Option String
  pub source_addr : Option String
  pub source_port : ℕ
  pub port : ℕ
  pub msg : String
  pub interface : Option String
  pub switch_ethernet : String
  pub int_hdr_file : Option String
  pub iterations : ℕ
  pub iter_delay : ℕ
  pub protocol : Protocol

-- An entry of 'meta' in the file.
pub record Meta : Type 0 where
  pub switch_id : Option ℕ
  pub orig_mac : Option String

-- The machine: its interfaces with their MAC addresses, its ARP table, what `getmac` finds, and the
-- list under 'meta' in a YAML file.
pub record Machine : Type 0 where
  pub if_list : List String
  pub if_hwaddr : String → Result String
  pub arp_table : List (String × String)
  pub getmac : String → Option String
  pub read_meta : String → Result (List Meta)

unfoldable pub first_if : List String → Result String
first_if [] = err (error "No NIC to send packets to")
first_if (iface ∷ ifaces) = let later = first_if ifaces in if iface == "lo" then later else ok iface

-- The last entry of the address counts.
unfoldable pub arp_mac : String → List (String × String) → Option String → Option String
arp_mac ip_addr_str [] out_mac = out_mac
arp_mac ip_addr_str ((address, hw) ∷ entries) out_mac =
    arp_mac ip_addr_str entries (if address == ip_addr_str then some hw else out_mac)

abbrev pub udp_int_len : Protocol → ℕ → ℕ
udp_int_len over_udp shim_len = udp_int_hdr_len + shim_len * 4 + udp_hdr_len + payload_len
udp_int_len over_tcp shim_len = udp_int_hdr_len + shim_len * 4 + tcp_hdr_len + payload_len

abbrev pub proto_of : Protocol → ℕ
proto_of over_udp = udp_proto
proto_of over_tcp = tcp_proto

-- One entry of the file; `ctr` is the number of those before.
unfoldable pub add_meta : ℕ → Meta → Result Part
add_meta ctr m = elim m.switch_id [
  | none ↦ err key_error
  | some switch_id ↦ elim m.orig_mac [
    | none ↦ ok (
        header_part (if ctr == 0 then "INT_META_1" else "INT_META_2") int_meta
          (("switch_id", switch_id) ∷ []) [])
    | some orig_mac ↦
        if orig_mac == ""
        then ok (
            header_part (if ctr == 0 then "INT_META_1" else "INT_META_2") int_meta
              (("switch_id", switch_id) ∷ []) [])
        else ok (
            header_part "Source_INT_Meta" source_int_meta (("switch_id", switch_id) ∷ [])
              (("orig_mac", orig_mac) ∷ []))
  ]
]

unfoldable pub add_metas : ℕ → List Part → List Meta → Result (List Part)
unfolding add_meta
add_metas ctr pkt [] = ok pkt
add_metas ctr pkt (m ∷ ms) = do part ← add_meta ctr m; add_metas (ctr + 1) (pkt ++ part ∷ []) ms

abbrev pub known_or : String → Option String → String
known_or switch_ethernet none = switch_ethernet
known_or switch_ethernet (some mac) =
    if mac == "" || mac == "ff:ff:ff:ff:ff:ff" then switch_ethernet else mac

abbrev pub transport : Protocol → ℕ → ℕ → Part
transport over_tcp dport sport = tcp_part dport sport
transport over_udp dport sport = udp_part dport sport

module _ (ipaddress : IpAddress) (machine : Machine) where
  open ipaddress use {Address, ip_address, version, str}

  abbrev pub mac_from_ip : Address → String → Option String
  mac_from_ip ip_addr ip_addr_str =
      if version ip_addr == 4
      then arp_mac ip_addr_str machine.arp_table none
      else machine.getmac (str ip_addr)

  unfoldable pub get_dst_mac_from_ip : String → Result (Option String)
  unfolding arp_mac
  get_dst_mac_from_ip ip_addr_str = do
    ip_addr ← ip_address ip_addr_str
    ok (mac_from_ip ip_addr ip_addr_str)

  abbrev pub own_mac : Option String → String → Result String
  own_mac none interface = machine.if_hwaddr interface
  own_mac (some mac) interface = if mac == "" then machine.if_hwaddr interface else ok mac

  module _ {Seconds : Type 0} where
    unfoldable pub get_dst_mac : Args Seconds → Result String
    unfolding get_dst_mac_from_ip
    get_dst_mac args = do
      dst_mac ← get_dst_mac_from_ip args.destination
      ok (known_or args.switch_ethernet dst_mac)

    unfoldable pub gen_std_pkt : Args Seconds → Bool → String → Result (List Part)
    unfolding get_dst_mac
    gen_std_pkt args is_ipv6 src_mac = do
      dst_mac ← get_dst_mac args
      ok (
          if is_ipv6
          then ether_part src_mac dst_mac ipv6_type
            ∷ ipv6_part args.destination args.source_addr none (proto_of args.protocol)
            ∷ []
          else ether_part src_mac dst_mac ipv4_type
            ∷ ip_part args.destination args.source_addr none (proto_of args.protocol)
            ∷ [])

    -- The Ethernet and the IP header, and the UDP header and the shim of INT.
    unfoldable pub int_head : Args Seconds → Bool → String → String → ℕ → List Part
    int_head args is_ipv6 src_mac dst_mac shim_len =
        let len = udp_int_len args.protocol shim_len in
        (if is_ipv6
          then ether_part src_mac dst_mac ipv6_type
            ∷ ipv6_part args.destination args.source_addr (some (ipv6_hdr_len + len)) udp_proto
            ∷ []
          else ether_part src_mac dst_mac ipv4_type
            ∷ ip_part args.destination args.source_addr (some (ipv4_hdr_len + len)) udp_proto
            ∷ [])
        ++ header_part "UDP_INT" udp_int (("len", len) ∷ []) []
          ∷ header_part "IntShim" int_shim
              (("length", shim_len) ∷ ("next_proto", proto_of args.protocol) ∷ []) []
          ∷ []

    unfoldable pub gen_int_pkt : Args Seconds → String → Bool → String → Result (List Part)
    unfolding get_dst_mac add_metas
    gen_int_pkt args int_hdr_file is_ipv6 src_mac = do
      int_data ← machine.read_meta int_hdr_file
      dst_mac ← get_dst_mac args
      let int_hops = length int_data
      let pkt = int_head args is_ipv6 src_mac dst_mac (4 + 3 + int_hops - 1)
      if ltb 0 int_hops
          then add_metas 0 (pkt ++ header_part "IntHeader" int_header [] [] ∷ []) int_data
          else ok pkt

    abbrev pub gen_pkt : Args Seconds → Option String → Bool → String → Result (List Part)
    gen_pkt args none is_ipv6 src_mac = gen_std_pkt args is_ipv6 src_mac
    gen_pkt args (some int_hdr_file) is_ipv6 src_mac =
        if int_hdr_file == ""
        then gen_std_pkt args is_ipv6 src_mac
        else gen_int_pkt args int_hdr_file is_ipv6 src_mac

    unfoldable pub create_packet : Args Seconds → String → Result (List Part)
    unfolding gen_std_pkt gen_int_pkt
    create_packet args interface = do
      src_mac ← own_mac args.src_mac interface
      ip_addr ← ip_address args.destination
      pkt ← gen_pkt args args.int_hdr_file (version ip_addr == 6) src_mac
      ok (pkt ++ transport args.protocol args.port args.source_port ∷ raw_part args.msg ∷ [])

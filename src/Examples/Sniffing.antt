-- ===== src/Examples/Sniffing.antt =====
-- Runs of the scripts that send and receive packets, with bytes that are the list of the headers.
use transparent_security.Prelude.{
  ℕ, ◌+◌, ◌/◌, ◌≡◌, String, false, Option, none, some, List, [], ◌∷◌, ◌++◌, refl, arith,
}
use transparent_security.Prelude.Lists.{All}
use transparent_security.Prelude.Equality.{nat_eq, string_eq, ne_of_beq}
use transparent_security.Prelude.Dict.{get, put}
use transparent_security.Prelude.Result.{Result, ok, err, error}
use transparent_security.Consts.{udp_proto, ipv4_type}
use transparent_security.Packet.{Layer, bits, int_shim, drop_report, udp_int}
use transparent_security.External.{Frame, IpPacket, Segment, Header, Scapy, IpAddress}
use transparent_security.Analytics.Extract.{extract_int_data, extract_from_ip}
use transparent_security.Traffic.Receiving.{log_int_packet}
use transparent_security.Traffic.Reports.{Globals, log_packets}
use transparent_security.Traffic.Agreement.{
  view, seen_by_engine, seen_by_receiver, log_int_packet-extract,
}
use transparent_security.Traffic.Collecting.{answers, collect_all, IsReport, log_packets-AreReports}
use transparent_security.Traffic.Sending.{
  Part, ether_part, ip_part, ipv6_part, udp_part, tcp_part, header_part, raw_part, over_udp, Args,
  Machine, create_packet,
}
use transparent_security.Traffic.Wire.{Wire, part_size, IsFaithful}
use transparent_security.Traffic.Hops.{hops, hop_parts, int_part}
use transparent_security.Traffic.RoundTrip.{sent_data, create_packet-extract}

-- Every text counts for the 11 bytes of "hello world".
abbrev weight : Part → ℕ
weight (ether_part src dst type) = 14
weight (ip_part dst src len proto) = 20
weight (ipv6_part dst src plen nh) = 40
weight (udp_part dport sport) = 8
weight (tcp_part dport sport) = 20
weight (header_part name layer numbers macs) = bits layer / 8
weight (raw_part text) = 11

abbrev weights : List Part → ℕ
weights [] = 0
weights (p ∷ ps) = weight p + weights ps

abbrev or_zero : Option ℕ → ℕ
or_zero none = 0
or_zero (some n) = n

abbrev or_empty : Option String → String
or_empty none = ""
or_empty (some t) = t

abbrev unread : {A : Type 0} → Result A
unread = err (error "no such header")

abbrev read_ether : List Part → Result (Frame (List Part))
read_ether (ether_part src dst type ∷ rest) =
    ok (record { src = src; dst = dst; type = type; payload = rest; size = 14 + weights rest })
read_ether bytes = unread

abbrev read_ip : List Part → Result (IpPacket (List Part))
read_ip (ip_part dst src len proto ∷ rest) =
    ok (record {
      src = or_empty src;
      dst = dst;
      protocol = proto;
      size = or_zero len;
      payload = rest;
    })
read_ip bytes = unread

abbrev read_ipv6 : List Part → Result (IpPacket (List Part))
read_ipv6 (ipv6_part dst src plen nh ∷ rest) =
    ok
      (record { src = or_empty src; dst = dst; protocol = nh; size = or_zero plen; payload = rest })
read_ipv6 bytes = unread

abbrev segment : ℕ → ℕ → List Part → Segment (List Part)
segment dport sport rest = record { sport = sport; flags = 2; dport = dport; payload = rest }

abbrev read_udp : List Part → Result (Segment (List Part))
read_udp (udp_part dport sport ∷ rest) = ok (segment dport sport rest)
read_udp (header_part name layer numbers macs ∷ rest) = ok (segment 555 0 rest)
read_udp bytes = unread

abbrev read_tcp : List Part → Result (Segment (List Part))
read_tcp (tcp_part dport sport ∷ rest) = ok (segment dport sport rest)
read_tcp bytes = unread

abbrev read_header : Layer → List Part → Result (Header (List Part))
read_header layer (header_part name own numbers macs ∷ rest) = ok (record {
  number = λ f. or_zero (get f numbers);
  mac = λ f. or_empty (get f macs);
  payload = rest;
})
read_header layer bytes = unread

abbrev behind_ether : List Part → List Part
behind_ether [] = []
behind_ether (p ∷ ps) = ps

abbrev pub listed : Scapy
listed = record {
  Bytes = List Part;
  Packet = List Part;
  size = weights;
  ether = read_ether;
  ip_layer = λ p. read_ip (behind_ether p);
  ipv6_layer = λ p. read_ipv6 (behind_ether p);
  packet_size = weights;
  ip = read_ip;
  ipv6 = read_ipv6;
  udp = read_udp;
  tcp = read_tcp;
  dissect = read_header;
}

abbrev listed_wire : Wire listed
listed_wire = record {
  build = λ ps. ps;
  capture = λ ps. ps;
  IsWritable = λ p. Unit;
  shown_ip = λ t. t;
  shown_src = or_empty;
  shown_mac = λ t. t;
  byte_size = λ t. 11;
}

weight-part_size :
    (p : Part) (rest : List Part)
    → weight p + weights rest ≡ part_size listed listed_wire p + weights rest
weight-part_size (ether_part src dst type) rest = refl
weight-part_size (ip_part dst src len proto) rest = refl
weight-part_size (ipv6_part dst src plen nh) rest = refl
weight-part_size (udp_part dport sport) rest = refl
weight-part_size (tcp_part dport sport) rest = refl
weight-part_size (header_part name layer numbers macs) rest = refl
weight-part_size (raw_part text) rest = refl

listed-IsFaithful : IsFaithful listed listed_wire
listed-IsFaithful = record {
  reads_ether = λ src dst type rest w. (_, refl, refl, refl);
  reads_ip = λ dst src len proto rest w le. (_, refl, (refl, refl, refl, refl));
  reads_ipv6 = λ dst src plen nh rest w le. (_, refl, (refl, refl, refl, refl));
  reads_udp_int = λ name len rest w le. (_, refl, refl);
  reads_udp = λ dport sport rest w. (_, refl, refl);
  reads_tcp = λ dport sport rest w. (_, refl, refl);
  reads_header =
      λ name layer numbers macs rest w. (_, refl, (λ f n e. rw e refl), (λ f m e. rw e refl), refl);
  sizes = λ p rest. weight-part_size p rest;
  no_size = refl;
}

All-writable : (ps : List Part) → All listed_wire.IsWritable ps
All-writable [] = tt
All-writable (p ∷ ps) = (tt, All-writable ps)

abbrev dotted : IpAddress
dotted = record {
  Address = String;
  ip_address = λ s. ok s;
  version = λ s. 4;
  str = λ s. s;
  exploded = λ s. s;
}

abbrev machine : Machine
machine = record {
  if_list = "lo" ∷ "eth0" ∷ [];
  if_hwaddr = λ i. ok "00:00:00:00:01:01";
  arp_table = ("10.0.0.2", "00:00:00:00:02:02") ∷ [];
  getmac = λ ip. none;
  read_meta = λ file. ok (hops (2 ∷ 3 ∷ []) 1 "00:00:00:00:01:01");
}

abbrev flags : Args ℕ
flags = record {
  continuous = false;
  count = 10;
  interval = 1;
  delay = 0;
  destination = "10.0.0.2";
  src_mac = none;
  source_addr = some "10.0.0.1";
  source_port = 1234;
  port = 5792;
  msg = "hello world";
  interface = none;
  switch_ethernet = "ff:ff:ff:ff:ff:ff";
  int_hdr_file = some "int.yaml";
  iterations = 2;
  iter_delay = 1;
  protocol = over_udp;
}

create_packet-extract_example :
    (pkt : List Part) × (frame : Frame (List Part)) × (create_packet dotted machine flags "eth0"
      ≡ ok pkt)
    × (listed.ether pkt ≡ ok frame)
    × (extract_int_data listed frame
        ≡ ok (
            some (
              sent_data listed listed_wire listed-IsFaithful dotted machine flags
                "00:00:00:00:01:01" frame.size)))
create_packet-extract_example =
    create_packet-extract listed listed_wire listed-IsFaithful dotted machine flags "eth0"
      "int.yaml" "00:00:00:00:01:01" "10.0.0.2" (2 ∷ 3 ∷ []) 1 "00:00:00:00:01:01" refl refl refl
      (ne_of_beq "int.yaml" "" refl) refl (ne_of_beq "00:00:00:00:01:01" "" refl) (omega arith)
      (omega arith) (All-writable _)

abbrev int_frame : Frame (List Part)
int_frame = record {
  src = "00:00:00:00:01:01";
  dst = "00:00:00:00:02:02";
  type = ipv4_type;
  payload = [];
  size = 96;
}

-- A packet of two hops, behind its IP header.
abbrev pub two_hops : List Part
two_hops =
    header_part "UDP_INT" udp_int [] []
    ∷ header_part "IntShim" int_shim (("length", 8) ∷ ("next_proto", udp_proto) ∷ []) []
    ∷ int_part
    ∷ hop_parts 0 (2 ∷ []) 1 "00:00:00:00:01:01" (udp_part 5792 1234 ∷ [])

abbrev int_ip : IpPacket (List Part)
int_ip = record {
  src = "10.0.0.1";
  dst = "10.0.0.2";
  protocol = udp_proto;
  size = 82;
  payload = two_hops;
}

log_int_packet-extract_example :
    view seen_by_receiver (log_int_packet listed int_frame int_ip 2 96)
    ≡ view seen_by_engine (extract_from_ip listed int_frame (some int_ip))
unfolding get
log_int_packet-extract_example =
    log_int_packet-extract listed int_frame int_ip _ _ 2 refl refl refl refl (omega arith)
      (omega arith)

abbrev report_packet : ℕ → ℕ → List Part
report_packet key count =
    ether_part "00:00:00:00:01:01" "00:00:00:00:02:02" ipv4_type
    ∷ ip_part "10.0.0.2" (some "10.0.0.1") none udp_proto
    ∷ udp_part 556 0
    ∷ header_part "DropReport" drop_report (("drop_tbl_keys", key) ∷ ("drop_count", count) ∷ []) []
    ∷ []

report_packet-IsReport : (key count : ℕ) → IsReport listed (report_packet key count) (key, count)
unfolding get
report_packet-IsReport key count = record {
  frame = _;
  ip_pkt = _;
  segment = _;
  header = _;
  framed = refl;
  typed = refl;
  carried = refl;
  over_udp = refl;
  in_udp = refl;
  to_port = refl;
  reads = refl;
  key = refl;
  count = refl;
}

abbrev fresh : Globals
fresh = record { drop_rpt_count = 0; drop_rpt_dict = [] }

log_packets-AreReports_example :
    log_packets listed 0 (some 2) (report_packet 7 10 ∷ report_packet 7 25 ∷ [] ++ [] ∷ []) fresh
    ≡ (
      ok (answers (7, 10) ((7, 25) ∷ []) []),
      record { drop_rpt_count = 2; drop_rpt_dict = collect_all ((7, 10) ∷ (7, 25) ∷ []) [] },
    )
log_packets-AreReports_example =
    log_packets-AreReports listed 0 2 (report_packet 7 10) (report_packet 7 25 ∷ []) (7, 10)
      ((7, 25) ∷ []) ([] ∷ []) fresh
      (report_packet-IsReport 7 10, (report_packet-IsReport 7 25, tt)) refl

-- The dict has the last count of an attack.
collect_all-put : collect_all ((7, 10) ∷ (7, 25) ∷ []) [] ≡ (7, 25) ∷ []
unfolding put
collect_all-put = refl

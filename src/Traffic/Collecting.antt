-- ===== src/Traffic/Collecting.antt =====
-- The drop reports that trans_sec/device_software/receive_packets.py collects before it ends.
use transparent_security.Prelude.{
  ℕ, ◌+◌, ◌≡◌, ◌≢◌, true, false, some, refl, arith, List, [], ◌∷◌, ◌++◌, leb, if◌then◌else◌,
}
use transparent_security.Prelude.Lists.{length}
use transparent_security.Prelude.Equality.{nat_eq, beq_ne}
use transparent_security.Prelude.Dict.{Dict, put}
use transparent_security.Prelude.Result.{ok}
use transparent_security.Consts.{udp_proto, ipv4_type}
use transparent_security.Packet.{drop_report}
use transparent_security.External.{Frame, IpPacket, Segment, Header, Scapy}
use transparent_security.Traffic.Reports.{
  Logged, printed, drop_reports, Globals, log_drop_rpt, log_ip_packet, log_packet, log_packets,
}

-- What a drop report says: the hash of an attack and its count.
abbrev pub Report : Type 0
Report = ℕ × ℕ

abbrev pub with_report : Report → Dict ℕ ℕ → Dict ℕ ℕ
with_report (key, count) d = put key count d

abbrev pub collect_all : List Report → Dict ℕ ℕ → Dict ℕ ℕ
collect_all [] d = d
collect_all (r ∷ rs) d = collect_all rs (with_report r d)

-- The dict is logged after each report, and printed after the last one.
abbrev pub answers : Report → List Report → Dict ℕ ℕ → List Logged
answers r [] d = printed (with_report r d) ∷ []
answers r (next ∷ rs) d = drop_reports (with_report r d) ∷ answers next rs (with_report r d)

module _ (scapy : Scapy) where
  open scapy use {Bytes, Packet, ether, ip_layer, udp, dissect}

  -- A drop report in an IPv4 packet, with what scapy reads in it.
  pub record IsReport (packet : Packet) (report : Report) : Type 0 where
    pub frame : Frame Bytes
    pub ip_pkt : IpPacket Bytes
    pub segment : Segment Bytes
    pub header : Header Bytes
    pub framed : ether packet ≡ ok frame
    pub typed : frame.type ≡ ipv4_type
    pub carried : ip_layer packet ≡ ok ip_pkt
    pub over_udp : ip_pkt.protocol ≡ udp_proto
    pub in_udp : udp ip_pkt.payload ≡ ok segment
    pub to_port : segment.dport ≡ 556
    pub reads : dissect drop_report segment.payload ≡ ok header
    pub key : header.number "drop_tbl_keys" ≡ report.0
    pub count : header.number "drop_count" ≡ report.1

  abbrev pub AreReports : List Packet → List Report → Type 0
  AreReports [] [] = Unit
  AreReports (p ∷ ps) (r ∷ rs) = IsReport p r × AreReports ps rs
  AreReports _ _ = ⊥

  abbrev after : Report → Globals → Globals
  after r g = record {
    drop_rpt_count = g.drop_rpt_count + 1;
    drop_rpt_dict = with_report r g.drop_rpt_dict;
  }

  log_packet-IsReport :
      (packet : Packet) (report : Report) (int_hops n : ℕ) (g : Globals)
      → IsReport packet report
      → n ≢ 0
      → log_packet scapy packet int_hops (some n) g ≡ (
        ok (
            if leb n (g.drop_rpt_count + 1)
            then printed (with_report report g.drop_rpt_dict)
            else drop_reports (with_report report g.drop_rpt_dict)),
        after report g,
      )
  unfolding log_packet log_ip_packet log_drop_rpt
  log_packet-IsReport packet report int_hops n g is positive =
      rw (is.framed, is.typed)
        (rw (is.carried, is.over_udp, beq_ne n 0 positive)
          (rw (is.in_udp, is.to_port) (rw (is.reads, is.key, is.count) (ground arith))))

  -- Where as many drop reports arrive as are still missing, the dict is logged after each of them
  -- and printed after the last one; then the program ends, and reads no further packet.
  pub log_packets-AreReports :
      (int_hops n : ℕ) (packet : Packet) (packets : List Packet) (r : Report) (rs : List Report)
      (more : List Packet) (g : Globals)
      → AreReports (packet ∷ packets) (r ∷ rs)
      → g.drop_rpt_count + length (r ∷ rs) ≡ n
      → log_packets scapy int_hops (some n) (packet ∷ packets ++ more) g ≡ (
        ok (answers r rs g.drop_rpt_dict),
        record { drop_rpt_count = n; drop_rpt_dict = collect_all (r ∷ rs) g.drop_rpt_dict },
      )
  unfolding log_packets
  log_packets-AreReports int_hops n packet [] r [] more g (is, end) missing =
      let last : leb n (g.drop_rpt_count + 1) ≡ true = ground arith in
      let sum : g.drop_rpt_count + 1 ≡ n = omega arith in
      rw (log_packet-IsReport packet r int_hops n g is (omega arith)) (rw last rw sum refl)
  log_packets-AreReports int_hops n packet (p ∷ packets) r (next ∷ rs) more g (is, others) missing =
      let early : leb n (g.drop_rpt_count + 1) ≡ false = ground arith in
      let ih =
        log_packets-AreReports int_hops n p packets next rs more (after r g) others (omega arith) in
      rw (log_packet-IsReport packet r int_hops n g is (omega arith)) (rw early rw ih refl)
  log_packets-AreReports int_hops n packet [] r (next ∷ rs) more g (is, others) missing =
      absurd others
  log_packets-AreReports int_hops n packet (p ∷ packets) r [] more g (is, others) missing =
      absurd others

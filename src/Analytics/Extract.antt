-- ===== src/Analytics/Extract.antt =====
-- Reading packets: `parse_ip_pkt`, `extract_int_data`, `extract_trpt_data` and `extract_drop_rpt` of
-- trans_sec/analytics/oinc.py. What the code only logs is left out.
pub mod Sizes
use transparent_security.Prelude.{ℕ, String, Option, none, some, if◌then◌else◌}
use transparent_security.Prelude.Equality.{◌==◌, nat_eq}
use transparent_security.Prelude.Result.{Result, ok, err, ◌>>=◌}
use transparent_security.Consts.{udp_proto, ipv4_type, ipv6_type}
use transparent_security.Packet.{
  int_shim, int_header, int_meta, source_int_meta, eth_int, telemetry_report, drop_report,
}
use transparent_security.External.{Frame, IpPacket, Segment, Header, Scapy}

-- The dict that `extract_int_data` returns.
pub record IntData : Type 0 where
  pub dev_mac : String
  pub dev_addr : String
  pub dst_addr : String
  pub dst_port : ℕ
  pub protocol : ℕ
  pub packet_len : ℕ

module _ (scapy : Scapy) where
  open scapy use {Bytes, Packet, size, ether, ip, ipv6, udp, tcp, dissect}

  -- The IP packet in a frame, or `none` where the type of the frame is neither of the two.
  unfoldable pub ip_of_frame : Frame Bytes → Result (Option (IpPacket Bytes))
  ip_of_frame frame =
      if frame.type == ipv4_type
      then (do ip_pkt ← ip frame.payload; ok (some ip_pkt))
      else if frame.type == ipv6_type
      then (do ip_pkt ← ipv6 frame.payload; ok (some ip_pkt))
      else ok none

  -- `try:` … `except`: whatever is raised, the variables keep the values that they began with. The
  -- attributes of a packet that was read are there.
  unfoldable pub parse_ip_pkt : Packet → Option (IpPacket Bytes)
  unfolding ip_of_frame
  parse_ip_pkt packet = elim (ether packet >>= ip_of_frame) [ ok parsed ↦ parsed | err e ↦ none ]

  -- The source metadata, behind none, one or two INT metadata by the length of the shim.
  unfoldable pub source_meta : ℕ → Bytes → Result (Option (Header Bytes))
  source_meta length payload =
      if length == 7
      then (do source ← dissect source_int_meta payload; ok (some source))
      else if length == 8
      then (do
        int_meta_1 ← dissect int_meta payload
        source ← dissect source_int_meta int_meta_1.payload
        ok (some source))
      else if length == 9
      then (do
        int_meta_1 ← dissect int_meta payload
        int_meta_2 ← dissect int_meta int_meta_1.payload
        source ← dissect source_int_meta int_meta_2.payload
        ok (some source))
      else ok none

  abbrev int_data : Frame Bytes → IpPacket Bytes → Header Bytes → ℕ → Segment Bytes → IntData
  int_data frame ip_pkt source next_proto segment = record {
    dev_mac = source.mac "orig_mac";
    dev_addr = ip_pkt.src;
    dst_addr = ip_pkt.dst;
    dst_port = segment.dport;
    protocol = next_proto;
    packet_len = frame.size;
  }

  unfoldable pub extract_from_source :
      Frame Bytes → IpPacket Bytes → Header Bytes → Option (Header Bytes) → Result (Option IntData)
  extract_from_source frame ip_pkt shim none = ok none
  extract_from_source frame ip_pkt shim (some source) = do
    segment ←
        if shim.number "next_proto" == udp_proto then udp source.payload else tcp source.payload
    ok (some (int_data frame ip_pkt source (shim.number "next_proto") segment))

  unfoldable pub extract_from_ip : Frame Bytes → Option (IpPacket Bytes) → Result (Option IntData)
  unfolding source_meta extract_from_source
  extract_from_ip frame none = ok none
  extract_from_ip frame (some ip_pkt) = do
    udp_int_pkt ← udp ip_pkt.payload
    shim ← dissect int_shim udp_int_pkt.payload
    header ← dissect int_header shim.payload
    source ← source_meta (shim.number "length") header.payload
    extract_from_source frame ip_pkt shim source

  unfoldable pub extract_int_data : Frame Bytes → Result (Option IntData)
  unfolding ip_of_frame extract_from_ip
  extract_int_data ether_pkt = do ip_pkt ← ip_of_frame ether_pkt; extract_from_ip ether_pkt ip_pkt

  unfoldable pub extract_trpt_data : Segment Bytes → Result (Option IntData)
  unfolding extract_int_data
  extract_trpt_data udp_packet = do
    trpt_pkt ← dissect telemetry_report udp_packet.payload
    trpt_eth ← dissect eth_int trpt_pkt.payload
    extract_int_data (record {
      src = trpt_eth.mac "src";
      dst = trpt_eth.mac "dst";
      type = trpt_eth.number "type";
      payload = trpt_eth.payload;
      size = size trpt_pkt.payload;
    })

  -- The hash and the drop count of a report; a packet that was read counts as true.
  unfoldable pub extract_drop_rpt : Segment Bytes → Result (ℕ × ℕ)
  extract_drop_rpt udp_packet = do
    drop_rpt ← dissect drop_report udp_packet.payload
    ok (drop_rpt.number "drop_tbl_keys", drop_rpt.number "drop_count")

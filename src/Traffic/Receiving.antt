-- ===== src/Traffic/Receiving.antt =====
-- trans_sec/device_software/receive_packets.py: what is logged of a packet that was sniffed. The
-- numbers of the command line are not negative.
use transparent_security.Prelude.{ℕ, String, Bool, not, ◌&&◌, Option, none, some, if◌then◌else◌}
use transparent_security.Prelude.Equality.{◌==◌, nat_eq}
use transparent_security.Prelude.Result.{Result, ok, err, error, ◌>>=◌}
use transparent_security.Consts.{
  udp_proto, tcp_proto, ipv4_type, ipv6_type, udp_int_dst_port, udp_trpt_dst_port,
}
use transparent_security.Packet.{
  int_shim, int_header, int_meta, source_int_meta, eth_int, telemetry_report,
}
use transparent_security.External.{Frame, IpPacket, Segment, Header, Scapy}

-- The dict of `__log_std_packet`.
pub record StdLog : Type 0 where
  pub eth_src_mac : String
  pub eth_dst_mac : String
  pub src_ip : String
  pub dst_ip : String
  pub src_port : ℕ
  pub dst_port : ℕ
  pub packet_len : ℕ

-- The dict of `__log_int_packet`.
pub record IntLog : Type 0 where
  pub eth_src_mac : String
  pub eth_dst_mac : String
  pub src_ip : String
  pub dst_ip : String
  pub mac1 : String
  pub switch_id_1 : ℕ
  pub switch_id_2 : Option ℕ
  pub switch_id_3 : Option ℕ
  pub src_port : ℕ
  pub dst_port : ℕ
  pub packet_len : ℕ

-- The metadata of the source, and the ids of the switches in the order of the log.
pub record Hops (Bytes : Type 0) : Type 0 where
  pub source : Header Bytes
  pub second : Option ℕ
  pub third : Option ℕ

module _ (scapy : Scapy) where
  open scapy use {Bytes, ip, ipv6, udp, tcp, dissect}

  abbrev std_log : Frame Bytes → IpPacket Bytes → Segment Bytes → ℕ → StdLog
  std_log ether_pkt ip_pkt tcp_udp_pkt pkt_len = record {
    eth_src_mac = ether_pkt.src;
    eth_dst_mac = ether_pkt.dst;
    src_ip = ip_pkt.src;
    dst_ip = ip_pkt.dst;
    src_port = tcp_udp_pkt.sport;
    dst_port = tcp_udp_pkt.dport;
    packet_len = pkt_len;
  }

  -- Of the TCP packets in IPv4, which `is_ip` stands for, those with the SYN flag alone are logged.
  unfoldable pub log_std_segment :
      Bool → Frame Bytes → IpPacket Bytes → ℕ → ℕ → Result (Option StdLog)
  log_std_segment is_ip ether_pkt ip_pkt ip_proto pkt_len =
      if ip_proto == udp_proto
      then (do
        tcp_udp_pkt ← udp ip_pkt.payload
        ok (some (std_log ether_pkt ip_pkt tcp_udp_pkt pkt_len)))
      else if ip_proto == tcp_proto
      then (do
        tcp_udp_pkt ← tcp ip_pkt.payload
        if not (tcp_udp_pkt.flags == 0x2) && is_ip
            then ok none
            else ok (some (std_log ether_pkt ip_pkt tcp_udp_pkt pkt_len)))
      else ok none

  -- The IP packet and the UDP segment that carry the INT headers: those given, or those within the
  -- telemetry report there.
  unfoldable pub get_ip_udp_int_pkt :
      IpPacket Bytes → Result (Option (IpPacket Bytes × Segment Bytes))
  get_ip_udp_int_pkt ip_pkt = do
    udp_pkt ← udp ip_pkt.payload
    if udp_pkt.dport == udp_int_dst_port
        then ok (some (ip_pkt, udp_pkt))
        else if udp_pkt.dport == udp_trpt_dst_port
        then (do
          trpt_pkt ← dissect telemetry_report udp_pkt.payload
          trpt_eth ← dissect eth_int trpt_pkt.payload
          trpt_ip_pkt ←
              if trpt_eth.number "type" == ipv4_type
              then ip trpt_eth.payload
              else if trpt_eth.number "type" == ipv6_type
              then ipv6 trpt_eth.payload
              else err (error "Invalid eth type")
          trpt_udp_pkt ← udp trpt_ip_pkt.payload
          ok (some (trpt_ip_pkt, trpt_udp_pkt)))
        else ok none

  unfoldable pub read_hops : ℕ → Bytes → Result (Hops Bytes)
  read_hops int_hops payload =
      if int_hops == 1
      then (do
        source_int_meta ← dissect source_int_meta payload
        ok (record { source = source_int_meta; second = none; third = none }))
      else if int_hops == 2
      then (do
        int_meta_2 ← dissect int_meta payload
        source_int_meta ← dissect source_int_meta int_meta_2.payload
        ok (record {
          source = source_int_meta;
          second = some (int_meta_2.number "switch_id");
          third = none;
        }))
      else if int_hops == 3
      then (do
        int_meta_1 ← dissect int_meta payload
        int_meta_2 ← dissect int_meta int_meta_1.payload
        source_int_meta ← dissect source_int_meta int_meta_2.payload
        ok (record {
          source = source_int_meta;
          second = some (int_meta_2.number "switch_id");
          third = some (int_meta_1.number "switch_id");
        }))
      else err (error "No support for hops > 3")

  abbrev int_log : Frame Bytes → IpPacket Bytes → Hops Bytes → Segment Bytes → ℕ → IntLog
  int_log ether_pkt ip_pkt hops tcp_udp_packet pkt_len = record {
    eth_src_mac = ether_pkt.src;
    eth_dst_mac = ether_pkt.dst;
    src_ip = ip_pkt.src;
    dst_ip = ip_pkt.dst;
    mac1 = hops.source.mac "orig_mac";
    switch_id_1 = hops.source.number "switch_id";
    switch_id_2 = hops.second;
    switch_id_3 = hops.third;
    src_port = tcp_udp_packet.sport;
    dst_port = tcp_udp_packet.dport;
    packet_len = pkt_len;
  }

  unfoldable pub log_int_headers :
      Frame Bytes → ℕ → ℕ → Option (IpPacket Bytes × Segment Bytes) → Result (Option IntLog)
  unfolding read_hops
  log_int_headers ether_pkt int_hops pkt_len none = ok none
  log_int_headers ether_pkt int_hops pkt_len (some (ip_pkt, udp_int_pkt)) = do
    int_shim_pkt ← dissect int_shim udp_int_pkt.payload
    int_hdr_pkt ← dissect int_header int_shim_pkt.payload
    hops ← read_hops int_hops int_hdr_pkt.payload
    tcp_udp_packet ←
        if int_shim_pkt.number "next_proto" == udp_proto
        then udp hops.source.payload
        else tcp hops.source.payload
    ok (some (int_log ether_pkt ip_pkt hops tcp_udp_packet pkt_len))

  unfoldable pub log_int_packet : Frame Bytes → IpPacket Bytes → ℕ → ℕ → Result (Option IntLog)
  unfolding get_ip_udp_int_pkt log_int_headers
  log_int_packet ether_pkt ip_pkt int_hops pkt_len = do
    carried ← get_ip_udp_int_pkt ip_pkt
    log_int_headers ether_pkt int_hops pkt_len carried

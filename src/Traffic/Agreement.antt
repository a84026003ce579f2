-- ===== src/Traffic/Agreement.antt =====
-- The receiving script of trans_sec/device_software/receive_packets.py and the analytics engine of
-- trans_sec/analytics/oinc.py, which read the INT headers each on its own.
use transparent_security.Prelude.{
  ℕ, zero, suc, ◌+◌, ◌≡◌, ◌≤◌, ◌<◌, String, Option, none, some, arith,
}
use transparent_security.Prelude.Result.{Result, ok, err}
use transparent_security.Consts.{udp_int_dst_port}
use transparent_security.Packet.{int_shim}
use transparent_security.External.{Frame, IpPacket, Segment, Header, Scapy}
use transparent_security.Analytics.Extract.{
  IntData, extract_from_ip, extract_from_source, source_meta,
}
use transparent_security.Traffic.Receiving.{
  IntLog, log_int_packet, log_int_headers, get_ip_udp_int_pkt, read_hops,
}

-- What both take from a packet.
pub record Seen : Type 0 where
  pub mac : String
  pub src : String
  pub dst : String
  pub dst_port : ℕ
  pub size : ℕ

abbrev pub seen_by_engine : IntData → Seen
seen_by_engine d = record {
  mac = d.dev_mac;
  src = d.dev_addr;
  dst = d.dst_addr;
  dst_port = d.dst_port;
  size = d.packet_len;
}

abbrev pub seen_by_receiver : IntLog → Seen
seen_by_receiver l = record {
  mac = l.mac1;
  src = l.src_ip;
  dst = l.dst_ip;
  dst_port = l.dst_port;
  size = l.packet_len;
}

abbrev pub view {ℓ} : {A : Type ℓ} → (A → Seen) → Result (Option A) → Result (Option Seen)
view f (err e) = err e
view f (ok none) = ok none
view f (ok (some a)) = ok (some (f a))

module _ (scapy : Scapy) where
  open scapy use {Bytes, udp, tcp, dissect}

  -- On a packet for the INT port whose shim has the length of 1, 2 or 3 hops, the receiver with that
  -- number of hops and the engine read the same data, or raise the same exception.
  pub log_int_packet-extract :
      (frame : Frame Bytes) (ip_pkt : IpPacket Bytes) (udp_int : Segment Bytes)
      (shim : Header Bytes) (int_hops : ℕ)
      → udp ip_pkt.payload ≡ ok udp_int
      → udp_int.dport ≡ udp_int_dst_port
      → dissect int_shim udp_int.payload ≡ ok shim
      → shim.number "length" ≡ int_hops + 6
      → 0 < int_hops
      → int_hops ≤ 3
      → view seen_by_receiver (log_int_packet scapy frame ip_pkt int_hops frame.size)
        ≡ view seen_by_engine (extract_from_ip scapy frame (some ip_pkt))
  unfolding log_int_packet log_int_headers get_ip_udp_int_pkt read_hops extract_from_ip
      extract_from_source source_meta
  log_int_packet-extract frame ip_pkt udp_int shim (suc zero) u p s len pos max =
      ground (arith, u, p, s, len)
  log_int_packet-extract frame ip_pkt udp_int shim (suc (suc zero)) u p s len pos max =
      ground (arith, u, p, s, len)
  log_int_packet-extract frame ip_pkt udp_int shim (suc (suc (suc zero))) u p s len pos max =
      ground (arith, u, p, s, len)
  log_int_packet-extract frame ip_pkt udp_int shim _ u p s len pos max = absurd (omega arith)

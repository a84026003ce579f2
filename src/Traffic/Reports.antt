-- ===== src/Traffic/Reports.antt =====
-- The packets that trans_sec/device_software/receive_packets.py sniffs, one by one, and the drop
-- reports that it collects in its global variables.
use transparent_security.Prelude.{
  ℕ, ◌+◌, Bool, true, false, Option, none, some, List, [], ◌∷◌, if◌then◌else◌, leb, ltb,
}
use transparent_security.Prelude.Equality.{◌==◌, nat_eq}
use transparent_security.Prelude.Dict.{Dict, put}
use transparent_security.Prelude.Result.{Result, ok, err}
use transparent_security.Prelude.Exec.{Exec, pure, lift, ◌>>=◌, ◌>>◌, modify, gets}
use transparent_security.Consts.{udp_proto, ipv4_type, ipv6_type}
use transparent_security.Packet.{drop_report}
use transparent_security.External.{Frame, IpPacket, Scapy}
use transparent_security.Traffic.Receiving.{StdLog, IntLog, log_std_segment, log_int_packet}

-- What a packet leads to: nothing, one of the dicts, the dict of the drop reports, or that dict
-- printed and the end of the program.
pub data Logged : Type 0 where
  nothing : Logged
  standard : StdLog → Logged
  int_packet : IntLog → Logged
  drop_reports : Dict ℕ ℕ → Logged
  printed : Dict ℕ ℕ → Logged

-- The global variables; the list that `drop_rpt_dict` begins as is replaced before it is used.
pub record Globals : Type 0 where
  pub drop_rpt_count : ℕ
  pub drop_rpt_dict : Dict ℕ ℕ

module _ (scapy : Scapy) where
  open scapy use {Bytes, Packet, ether, ip_layer, ipv6_layer, packet_size, udp, dissect}

  abbrev one_more : Globals → Globals
  one_more g = record g { drop_rpt_count = g.drop_rpt_count + 1 }

  abbrev put_report : ℕ → ℕ → Globals → Globals
  put_report key count g = record g { drop_rpt_dict = put key count g.drop_rpt_dict }

  abbrev progress : ℕ → Globals → Logged
  progress count_to_exit g =
      if leb count_to_exit g.drop_rpt_count
      then printed g.drop_rpt_dict
      else drop_reports g.drop_rpt_dict

  unfoldable pub log_drop_rpt : IpPacket Bytes → ℕ → Exec Globals Logged
  unfolding put
  log_drop_rpt ip_pkt count_to_exit = do
    udp_pkt ← lift (udp ip_pkt.payload)
    if udp_pkt.dport == 556
        then (do
          drop_rpt_pkt ← lift (dissect drop_report udp_pkt.payload)
          modify
              (put_report (drop_rpt_pkt.number "drop_tbl_keys") (drop_rpt_pkt.number "drop_count"))
          gets (progress count_to_exit))
        else pure nothing

  abbrev as_standard : Option StdLog → Logged
  as_standard none = nothing
  as_standard (some log) = standard log

  abbrev as_int : Option IntLog → Logged
  as_int none = nothing
  as_int (some log) = int_packet log

  -- Without a count of reports: INT packets where hops are expected, and else the others.
  unfoldable pub log_traffic : Bool → Frame Bytes → IpPacket Bytes → ℕ → ℕ → Result Logged
  unfolding log_int_packet log_std_segment
  log_traffic is_ip ether_pkt ip_pkt int_hops pkt_len =
      if ltb 0 int_hops
      then (if ip_pkt.protocol == udp_proto
          then (elim (log_int_packet scapy ether_pkt ip_pkt int_hops pkt_len) [
            | err e ↦ err e
            | ok log ↦ ok (as_int log)
          ])
          else ok nothing)
      else (elim (log_std_segment scapy is_ip ether_pkt ip_pkt ip_pkt.protocol pkt_len) [
        | err e ↦ err e
        | ok log ↦ ok (as_standard log)
      ])

  -- `drop_rpt` counts as false where there is none and where it is 0.
  unfoldable pub log_ip_packet :
      Bool → Frame Bytes → IpPacket Bytes → ℕ → Option ℕ → ℕ → Exec Globals Logged
  unfolding log_drop_rpt log_traffic
  log_ip_packet is_ip ether_pkt ip_pkt int_hops none pkt_len =
      lift (log_traffic is_ip ether_pkt ip_pkt int_hops pkt_len)
  log_ip_packet is_ip ether_pkt ip_pkt int_hops (some drop_rpt) pkt_len =
      if drop_rpt == 0
      then lift (log_traffic is_ip ether_pkt ip_pkt int_hops pkt_len)
      else if ip_pkt.protocol == udp_proto
      then (modify one_more >> log_drop_rpt ip_pkt drop_rpt)
      else pure nothing

  -- `packet[IP]` or `packet[IPv6]` may raise, which is the end of it. A frame of another type has no
  -- IP packet, and its protocol, 0, is neither UDP nor TCP.
  abbrev log_read :
      Bool → Result (IpPacket Bytes) → Frame Bytes → ℕ → Option ℕ → ℕ → Exec Globals Logged
  log_read is_ip (err e) ether_pkt int_hops drop_rpt pkt_len = pure nothing
  log_read is_ip (ok ip_pkt) ether_pkt int_hops drop_rpt pkt_len =
      log_ip_packet is_ip ether_pkt ip_pkt int_hops drop_rpt pkt_len

  unfoldable pub log_packet : Packet → ℕ → Option ℕ → Exec Globals Logged
  unfolding log_ip_packet
  log_packet packet int_hops drop_rpt = do
    ether_pkt ← lift (ether packet)
    if ether_pkt.type == ipv4_type
        then log_read true (ip_layer packet) ether_pkt int_hops drop_rpt (packet_size packet)
        else if ether_pkt.type == ipv6_type
        then log_read false (ipv6_layer packet) ether_pkt int_hops drop_rpt (packet_size packet)
        else pure nothing

  -- The packets that are sniffed in turn, until an exception or the end of the program.
  unfoldable pub log_packets : ℕ → Option ℕ → List Packet → Exec Globals (List Logged)
  unfolding log_packet
  log_packets int_hops drop_rpt [] = pure []
  log_packets int_hops drop_rpt (packet ∷ packets) =
      log_packet packet int_hops drop_rpt >>= λ logged. elim logged [
        | printed d ↦ pure (printed d ∷ [])
        | other ↦ (log_packets int_hops drop_rpt packets >>= λ later. pure (other ∷ later))
      ]

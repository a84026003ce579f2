-- ===== src/Traffic/RoundTrip.antt =====
-- The INT packets of trans_sec/device_software/send_packets.py, as the analytics engine of
-- trans_sec/analytics/oinc.py reads them.
use transparent_security.Prelude.{
  ℕ, ◌+◌, ◌*◌, ◌≡◌, ◌≢◌, ◌≤◌, String, Bool, true, false, some, List, [], ◌∷◌, if◌then◌else◌, refl,
  ◌∙◌, arith,
}
use transparent_security.Prelude.Lists.{length, All}
use transparent_security.Prelude.Equality.{◌==◌, nat_eq}
use transparent_security.Prelude.Dict.{get}
use transparent_security.Prelude.Result.{ok}
use transparent_security.Consts.{udp_proto, ipv4_type, ipv6_type}
use transparent_security.Packet.{int_shim, int_header, udp_int}
use transparent_security.External.{Frame, IpPacket, Segment, Scapy, IpAddress}
use transparent_security.Analytics.Extract.{
  IntData, ip_of_frame, extract_int_data, extract_from_ip, extract_from_source,
}
use transparent_security.Traffic.Sending.{
  Part, ip_part, ipv6_part, udp_part, tcp_part, header_part, raw_part, Protocol, over_tcp, over_udp,
  Args, Machine, int_head, own_mac, transport, create_packet, proto_of, udp_int_len,
}
use transparent_security.Traffic.Wire.{Wire, part_size, IsFaithful}
use transparent_security.Traffic.Hops.{
  hops, hop_parts, int_part, behind_shim, int_packet, dst_mac_of, source_meta-hop_parts,
  size-hop_parts, create_packet-hops,
}

hop_parts-All :
    (P : Part → Type 0) (ctr : ℕ) (ids : List ℕ) (id : ℕ) (mac : String) (rest : List Part)
    → All P (hop_parts ctr ids id mac rest)
    → All P (hop_parts ctr ids id mac []) × All P rest
hop_parts-All P ctr [] id mac rest (first, later) = ((first, tt), later)
hop_parts-All P ctr (a ∷ ids) id mac rest (first, later) =
    let (these, others) = hop_parts-All P (ctr + 1) ids id mac rest later in
    ((first, these), others)

module _ (scapy : Scapy) (wire : Wire scapy) (faithful : IsFaithful scapy wire) where
  open scapy use {Bytes, size, ether, udp, tcp, dissect}
  open wire use {build, capture, IsWritable, shown_ip, shown_src, shown_mac, byte_size}
  open faithful use {
    reads_ether, reads_ip, reads_ipv6, reads_udp_int, reads_udp, reads_tcp, reads_header, sizes,
    no_size,
  }

  reads_transport :
      (protocol : Protocol) (dport sport : ℕ) (rest : List Part)
      → IsWritable (transport protocol dport sport)
      → (s : Segment Bytes) × ((if proto_of protocol == udp_proto
            then udp (build (transport protocol dport sport ∷ rest))
            else tcp (build (transport protocol dport sport ∷ rest)))
          ≡ ok s)
        × (s.dport ≡ dport)
  reads_transport over_udp dport sport rest w = reads_udp dport sport rest w
  reads_transport over_tcp dport sport rest w = reads_tcp dport sport rest w

  size-transport :
      (protocol : Protocol) (dport sport : ℕ) (msg : String) (n : ℕ)
      → byte_size msg ≤ 26
      → 36 + 4 * n + size (build (transport protocol dport sport ∷ raw_part msg ∷ []))
        ≤ udp_int_len protocol (7 + n)
  size-transport over_udp dport sport msg n max = omega (
    arith,
    max,
    sizes (udp_part dport sport) (raw_part msg ∷ []),
    sizes (raw_part msg) [],
    no_size,
  )
  size-transport over_tcp dport sport msg n max = omega (
    arith,
    max,
    sizes (tcp_part dport sport) (raw_part msg ∷ []),
    sizes (raw_part msg) [],
    no_size,
  )

  -- With a message of 26 bytes at most, the length in the UDP header of INT covers what follows.
  size-behind_udp :
      {Seconds : Type 0}
      → (args : Args Seconds) (ids : List ℕ) (id : ℕ) (mac : String) (shim : Part)
      → part_size scapy wire shim ≡ 4
      → byte_size args.msg ≤ 26
      → 8 + size (build (shim ∷ behind_shim args ids id mac))
        ≤ udp_int_len args.protocol (7 + length ids)
  unfolding int_header
  size-behind_udp args ids id mac shim four max =
      let end : List Part =
        transport args.protocol args.port args.source_port ∷ raw_part args.msg ∷ [] in
      omega (
        arith,
        four,
        sizes shim (behind_shim args ids id mac),
        sizes int_part (hop_parts 0 ids id mac end),
        size-hop_parts scapy wire faithful 0 ids id mac end,
        size-transport args.protocol args.port args.source_port args.msg (length ids) max,
      )

  abbrev pub udp_part_of : Protocol → ℕ → Part
  udp_part_of protocol n =
      header_part "UDP_INT" udp_int (("len", udp_int_len protocol (7 + n)) ∷ []) []

  abbrev pub shim_of : Protocol → ℕ → Part
  shim_of protocol n =
      header_part "IntShim" int_shim (("length", 7 + n) ∷ ("next_proto", proto_of protocol) ∷ []) []

  -- What the engine reads in the IP packet.
  extract_from_ip-sent :
      {Seconds : Type 0}
      → (args : Args Seconds) (ids : List ℕ) (id : ℕ) (mac : String) (frame : Frame Bytes)
        (p : IpPacket Bytes)
      → length ids ≤ 2
      → byte_size args.msg ≤ 26
      → p.payload
        ≡ build (
            udp_part_of args.protocol (length ids)
            ∷ shim_of args.protocol (length ids)
            ∷ behind_shim args ids id mac)
      → IsWritable (udp_part_of args.protocol (length ids))
      → IsWritable (shim_of args.protocol (length ids))
      → IsWritable int_part
      → All IsWritable (hop_parts 0 ids id mac [])
      → IsWritable (transport args.protocol args.port args.source_port)
      → extract_from_ip scapy frame (some p)
        ≡ ok (
            some (record {
              dev_mac = shown_mac mac;
              dev_addr = p.src;
              dst_addr = p.dst;
              dst_port = args.port;
              protocol = proto_of args.protocol;
              packet_len = frame.size;
            }))
  unfolding extract_from_ip extract_from_source get int_shim
  extract_from_ip-sent args ids id mac frame p few max carried wu ws wi wh wt =
      let n = length ids in
      let end : List Part = raw_part args.msg ∷ [] in
      let behind = behind_shim args ids id mac in
      let trans = transport args.protocol args.port args.source_port in
      let shim = shim_of args.protocol n in
      let (u, reads_u, under_u) =
        reads_udp_int "UDP_INT" (udp_int_len args.protocol (7 + n)) (shim ∷ behind) wu
          (size-behind_udp args ids id mac shim refl max) in
      let (s, reads_s, numbers, _, under_s) =
        reads_header "IntShim" int_shim
          (("length", 7 + n) ∷ ("next_proto", proto_of args.protocol) ∷ []) [] behind ws in
      let (h, reads_h, _, _, under_h) =
        reads_header "IntHeader" int_header [] [] (hop_parts 0 ids id mac (trans ∷ end)) wi in
      let (m, reads_m, found, under_m) =
        source_meta-hop_parts scapy wire faithful ids id mac (trans ∷ end) few wh in
      let (t, reads_t, port) = reads_transport args.protocol args.port args.source_port end wt in
      rw (carried, reads_u)
        (rw (under_u, reads_s)
          (rw (under_s, reads_h)
            (rw (numbers "length" (7 + n) refl, under_h)
              (rw reads_m (
                rw (under_m, numbers "next_proto" (proto_of args.protocol) refl)
                  (rw reads_t (rw (found, port) refl)))))))

  size-behind_ip :
      {Seconds : Type 0}
      → (args : Args Seconds) (ids : List ℕ) (id : ℕ) (mac : String) → byte_size args.msg ≤ 26
      → size (
          build (
            udp_part_of args.protocol (length ids)
            ∷ shim_of args.protocol (length ids)
            ∷ behind_shim args ids id mac))
        ≤ udp_int_len args.protocol (7 + length ids)
  unfolding udp_int int_shim
  size-behind_ip args ids id mac max =
      let shim = shim_of args.protocol (length ids) in
      omega (
        arith,
        sizes (udp_part_of args.protocol (length ids)) (shim ∷ behind_shim args ids id mac),
        size-behind_udp args ids id mac shim refl max,
      )

  module _ (ipaddress : IpAddress) (machine : Machine) {Seconds : Type 0} where
    open ipaddress use {Address, ip_address, version}

    -- What the engine reads, in a frame of the given size.
    abbrev pub sent_data : Args Seconds → String → ℕ → IntData
    sent_data args mac frame_size = record {
      dev_mac = shown_mac mac;
      dev_addr = shown_src args.source_addr;
      dst_addr = shown_ip args.destination;
      dst_port = args.port;
      protocol = proto_of args.protocol;
      packet_len = frame_size;
    }

    extract-int_packet :
        (args : Args Seconds) (is_ipv6 : Bool) (src_mac dst_mac : String) (ids : List ℕ) (id : ℕ)
        (mac : String)
        → length ids ≤ 2
        → byte_size args.msg ≤ 26
        → All IsWritable (int_packet ipaddress machine args is_ipv6 src_mac dst_mac ids id mac)
        → (frame : Frame Bytes) × (ether
              (capture (int_packet ipaddress machine args is_ipv6 src_mac dst_mac ids id mac))
            ≡ ok frame)
          × (extract_int_data scapy frame ≡ ok (some (sent_data args mac frame.size)))
    unfolding extract_int_data ip_of_frame int_head
    extract-int_packet args true src_mac dst_mac ids id mac few max
          (we, (wp, (wu, (ws, (wi, others))))) =
        let n = length ids in
        let len = udp_int_len args.protocol (7 + n) in
        let rest =
          udp_part_of args.protocol n ∷ shim_of args.protocol n ∷ behind_shim args ids id mac in
        let (wh, (wt, _)) = hop_parts-All IsWritable 0 ids id mac _ others in
        let (frame, framed, typed, carries) =
          reads_ether src_mac dst_mac ipv6_type
            (ipv6_part args.destination args.source_addr (some (40 + len)) udp_proto ∷ rest) we in
        let (p, reads, (from, to, _, carried)) =
          reads_ipv6 args.destination args.source_addr (40 + len) udp_proto rest wp
            (omega (arith, size-behind_ip args ids id mac max)) in
        let body = extract_from_ip-sent args ids id mac frame p few max carried wu ws wi wh wt in
        (frame, framed, rw (typed, carries) (rw reads (body ∙ rw (from, to) refl)))
    extract-int_packet args false src_mac dst_mac ids id mac few max
          (we, (wp, (wu, (ws, (wi, others))))) =
        let n = length ids in
        let len = udp_int_len args.protocol (7 + n) in
        let rest =
          udp_part_of args.protocol n ∷ shim_of args.protocol n ∷ behind_shim args ids id mac in
        let (wh, (wt, _)) = hop_parts-All IsWritable 0 ids id mac _ others in
        let (frame, framed, typed, carries) =
          reads_ether src_mac dst_mac ipv4_type
            (ip_part args.destination args.source_addr (some (20 + len)) udp_proto ∷ rest) we in
        let (p, reads, (from, to, _, carried)) =
          reads_ip args.destination args.source_addr (20 + len) udp_proto rest wp
            (omega (arith, size-behind_ip args ids id mac max)) in
        let body = extract_from_ip-sent args ids id mac frame p few max carried wu ws wi wh wt in
        (frame, framed, rw (typed, carries) (rw reads (body ∙ rw (from, to) refl)))

    -- A packet with INT data for one, two or three hops, the last of them with its MAC address, and
    -- with a message of 26 bytes at most, is made without an exception; where scapy can write it,
    -- the engine reads in it the MAC address, the addresses, the port and the protocol that were
    -- given, with the size of the frame.
    pub create_packet-extract :
        (args : Args Seconds) (interface file src_mac : String) (addr : Address) (ids : List ℕ)
        (id : ℕ) (mac : String)
        → own_mac ipaddress machine args.src_mac interface ≡ ok src_mac
        → ip_address args.destination ≡ ok addr
        → args.int_hdr_file ≡ some file
        → file ≢ ""
        → machine.read_meta file ≡ ok (hops ids id mac)
        → mac ≢ ""
        → length ids ≤ 2
        → byte_size args.msg ≤ 26
        → All IsWritable (
            int_packet ipaddress machine args
              (version addr == 6)
              src_mac
              (dst_mac_of ipaddress machine args addr)
              ids
              id
              mac)
        → (pkt : List Part) × (frame : Frame Bytes) × (create_packet ipaddress machine args
              interface
            ≡ ok pkt)
          × (ether (capture pkt) ≡ ok frame)
          × (extract_int_data scapy frame ≡ ok (some (sent_data args mac frame.size)))
    create_packet-extract args interface file src_mac addr ids id mac own at named given reads found
          few max w =
        let dst_mac = dst_mac_of ipaddress machine args addr in
        let is_ipv6 = version addr == 6 in
        let (frame, framed, seen) =
          extract-int_packet args is_ipv6 src_mac dst_mac ids id mac few max w in
        (
          int_packet ipaddress machine args is_ipv6 src_mac dst_mac ids id mac,
          frame,
          create_packet-hops ipaddress machine args interface file src_mac addr ids id mac own at
              named given reads found,
          framed,
          seen,
        )

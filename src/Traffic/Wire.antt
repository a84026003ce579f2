-- ===== src/Traffic/Wire.antt =====
-- What scapy reads in the bytes that it has written for the packets of
-- trans_sec/device_software/send_packets.py.
use transparent_security.Prelude.{ℕ, ◌+◌, ◌/◌, ◌≡◌, ◌≤◌, String, Option, some, List, [], ◌∷◌}
use transparent_security.Prelude.Equality.{nat_eq, string_eq}
use transparent_security.Prelude.Dict.{Dict, get}
use transparent_security.Prelude.Result.{ok}
use transparent_security.Packet.{Layer, bits, udp_int}
use transparent_security.External.{Frame, IpPacket, Segment, Header, Scapy}
use transparent_security.Traffic.Sending.{
  Part, ether_part, ip_part, ipv6_part, udp_part, tcp_part, header_part, raw_part,
}

-- Writing: the bytes of some headers, the packet that arrives where they are sent, and whether
-- scapy can write the values that a header is given. The last three are how scapy shows an address
-- that it was given, and the number of bytes of a text.
pub record Wire (scapy : Scapy) : Type 1 where
  pub build : List Part → scapy.Bytes
  pub capture : List Part → scapy.Packet
  pub IsWritable : Part → Type 0
  pub shown_ip : String → String
  pub shown_src : Option String → String
  pub shown_mac : String → String
  pub byte_size : String → ℕ

module _ (scapy : Scapy) (wire : Wire scapy) where
  open scapy use {Bytes, size, ether, ip, ipv6, udp, tcp, dissect}
  open wire use {build, capture, IsWritable, shown_ip, shown_src, shown_mac, byte_size}

  abbrev pub part_size : Part → ℕ
  part_size (ether_part src dst type) = 14
  part_size (ip_part dst src len proto) = 20
  part_size (ipv6_part dst src plen nh) = 40
  part_size (udp_part dport sport) = 8
  part_size (tcp_part dport sport) = 20
  part_size (header_part name layer numbers macs) = bits layer / 8
  part_size (raw_part text) = byte_size text

  abbrev pub IsIp : IpPacket Bytes → String → Option String → ℕ → List Part → Type 0
  IsIp p dst src protocol rest =
      (p.src ≡ shown_src src)
      × (p.dst ≡ shown_ip dst)
      × (p.protocol ≡ protocol)
      × (p.payload ≡ build rest)

  -- A header is read as it was written, and the rest behind it. The lengths in the headers of IP
  -- and UDP cut off what is beyond them.
  pub record IsFaithful : Type 0 where
    pub reads_ether :
        (src dst : String) (type : ℕ) (rest : List Part)
        → IsWritable (ether_part src dst type)
        → (f : Frame Bytes) × (ether (capture (ether_part src dst type ∷ rest)) ≡ ok f)
          × (f.type ≡ type)
          × (f.payload ≡ build rest)
    pub reads_ip :
        (dst : String) (src : Option String) (len proto : ℕ) (rest : List Part)
        → IsWritable (ip_part dst src (some len) proto)
        → 20 + size (build rest) ≤ len
        → (p : IpPacket Bytes) × (ip (build (ip_part dst src (some len) proto ∷ rest)) ≡ ok p)
          × IsIp p dst src proto rest
    pub reads_ipv6 :
        (dst : String) (src : Option String) (plen nh : ℕ) (rest : List Part)
        → IsWritable (ipv6_part dst src (some plen) nh)
        → size (build rest) ≤ plen
        → (p : IpPacket Bytes) × (ipv6 (build (ipv6_part dst src (some plen) nh ∷ rest)) ≡ ok p)
          × IsIp p dst src nh rest
    -- The fields of UdpInt are those of UDP.
    pub reads_udp_int :
        (name : String) (len : ℕ) (rest : List Part)
        → IsWritable (header_part name udp_int (("len", len) ∷ []) [])
        → 8 + size (build rest) ≤ len
        → (s : Segment Bytes) × (udp
              (build (header_part name udp_int (("len", len) ∷ []) [] ∷ rest))
            ≡ ok s)
          × (s.payload ≡ build rest)
    pub reads_udp :
        (dport sport : ℕ) (rest : List Part)
        → IsWritable (udp_part dport sport)
        → (s : Segment Bytes) × (udp (build (udp_part dport sport ∷ rest)) ≡ ok s)
          × (s.dport ≡ dport)
    pub reads_tcp :
        (dport sport : ℕ) (rest : List Part)
        → IsWritable (tcp_part dport sport)
        → (s : Segment Bytes) × (tcp (build (tcp_part dport sport ∷ rest)) ≡ ok s)
          × (s.dport ≡ dport)
    pub reads_header :
        (name : String) (layer : Layer) (numbers : Dict String ℕ) (macs : Dict String String)
        (rest : List Part)
        → IsWritable (header_part name layer numbers macs)
        → (h : Header Bytes) × (dissect layer (build (header_part name layer numbers macs ∷ rest))
            ≡ ok h)
          × ((f : String) (n : ℕ) → get f numbers ≡ some n → h.number f ≡ n)
          × ((f : String) (m : String) → get f macs ≡ some m → h.mac f ≡ shown_mac m)
          × (h.payload ≡ build rest)
    pub sizes :
        (p : Part) (rest : List Part) → size (build (p ∷ rest)) ≡ part_size p + size (build rest)
    pub no_size : size (build []) ≡ 0

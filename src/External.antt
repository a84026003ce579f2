-- ===== src/External.antt =====
-- What the program takes from libraries: scapy's packets, and Python's `ipaddress` and `hashlib`.
use transparent_security.Prelude.{ℕ, String}
use transparent_security.Prelude.Result.{Result}
use transparent_security.Packet.{Layer}

-- An Ethernet frame, or the EthInt header within a report: its addresses, its `type`, its payload
-- and its `len`.
pub record Frame (Bytes : Type 0) : Type 0 where
  pub src : String
  pub dst : String
  pub type : ℕ
  pub payload : Bytes
  pub size : ℕ

-- An IPv4 or IPv6 packet: `protocol` is `proto` or `nh`, and `size` is `len` or `plen`.
pub record IpPacket (Bytes : Type 0) : Type 0 where
  pub src : String
  pub dst : String
  pub protocol : ℕ
  pub size : ℕ
  pub payload : Bytes

-- A UDP or TCP segment; `flags` are those of TCP.
pub record Segment (Bytes : Type 0) : Type 0 where
  pub sport : ℕ
  pub flags : ℕ
  pub dport : ℕ
  pub payload : Bytes

-- A header of the program's own: its numeric fields and its MAC fields by name, and what follows.
pub record Header (Bytes : Type 0) : Type 0 where
  pub number : String → ℕ
  pub mac : String → String
  pub payload : Bytes

-- scapy. Reading a packet may raise.
pub record Scapy : Type 1 where
  pub Bytes : Type 0
  pub Packet : Type 0
  pub size : Bytes → ℕ
  -- `packet[Ether]`
  pub ether : Packet → Result (Frame Bytes)
  -- `packet[IP]`, `packet[IPv6]` and `len(packet)`
  pub ip_layer : Packet → Result (IpPacket Bytes)
  pub ipv6_layer : Packet → Result (IpPacket Bytes)
  pub packet_size : Packet → ℕ
  -- `IP(_pkt=…)`, `IPv6(_pkt=…)`, `UDP(_pkt=…)`, `TCP(_pkt=…)`
  pub ip : Bytes → Result (IpPacket Bytes)
  pub ipv6 : Bytes → Result (IpPacket Bytes)
  pub udp : Bytes → Result (Segment Bytes)
  pub tcp : Bytes → Result (Segment Bytes)
  -- a header with the given `fields_desc`
  pub dissect : Layer → Bytes → Result (Header Bytes)

-- Python's `ipaddress`. `ip_address` raises a ValueError on a text that is no address.
pub record IpAddress : Type 1 where
  pub Address : Type 0
  pub ip_address : String → Result Address
  pub version : Address → ℕ
  pub str : Address → String
  pub exploded : Address → String

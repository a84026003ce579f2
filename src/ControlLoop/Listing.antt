-- ===== src/ControlLoop/Listing.antt =====
-- What an attack's key meets on its way to the drop table of
-- trans_sec/bfruntime_lib/aggregate_switch.py and back: Python's `ipaddress`, the request, and what the
-- client library lists.
use transparent_security.Prelude.{ℕ, ◌<◌, ◌^◌, ◌≡◌, String, some, ◌⊎◌}
use transparent_security.Prelude.Equality.{nat_eq, string_eq}
use transparent_security.Prelude.Dict.{get}
use transparent_security.Prelude.Result.{Result, ok}
use transparent_security.Convert.{ℤ, pos}
use transparent_security.External.{IpAddress}
use transparent_security.Controller.Switches.{AttackRequest}
use transparent_security.Controller.DropReports.{MatchKeys}
use transparent_security.Barefoot.Client.{text, number, Fields}
use transparent_security.Barefoot.Aggregate.{DropKeys}
use transparent_security.Analytics.SimpleAe.{Attack}

-- What is documented of Python's `ipaddress`: an address has version 4 or 6, and both of its texts
-- are read as that address.
pub record IsIpAddress (ipaddress : IpAddress) : Type 0 where
  pub versions : (a : ipaddress.Address) → (ipaddress.version a ≡ 4) ⊎ (ipaddress.version a ≡ 6)
  pub reads_str : (a : ipaddress.Address) → ipaddress.ip_address (ipaddress.str a) ≡ ok a
  pub reads_exploded : (a : ipaddress.Address) → ipaddress.ip_address (ipaddress.exploded a) ≡ ok a

-- What the annotations 'mac', 'ipv4' and 'ipv6' make of the keys that the client lists: texts of the
-- MAC address and of the IP addresses that were written, and of the zero addresses for a 0.
pub record IsListing (ipaddress : IpAddress) (mac : String) (listed : Fields → Fields)
    : Type 0 where
  pub lists_mac :
      (key : Fields)
      → get "hdr.ethernet.src_mac" key ≡ some (text mac)
      → get "hdr.ethernet.src_mac" (listed key) ≡ some (text mac)
  pub lists_port :
      (key : Fields) (port : ℕ)
      → get "meta.dst_port" key ≡ some (number (pos port))
      → port < 2 ^ 16
      → get "meta.dst_port" (listed key) ≡ some (number (pos port))
  pub lists_ipv4 :
      (key : Fields) (s : String) (a : ipaddress.Address)
      → get "meta.ipv4_addr" key ≡ some (text s)
      → ipaddress.ip_address s ≡ ok a
      → ipaddress.version a ≡ 4
      → (t : String) × (get "meta.ipv4_addr" (listed key) ≡ some (text t))
        × (ipaddress.ip_address t ≡ ok a)
  pub lists_no_ipv4 :
      (key : Fields)
      → get "meta.ipv4_addr" key ≡ some (number (pos 0))
      → get "meta.ipv4_addr" (listed key) ≡ some (text "0.0.0.0")
  pub lists_ipv6 :
      (key : Fields) (s : String) (a : ipaddress.Address)
      → get "meta.ipv6_addr" key ≡ some (text s)
      → ipaddress.ip_address s ≡ ok a
      → ipaddress.version a ≡ 6
      → (t : String) × (get "meta.ipv6_addr" (listed key) ≡ some (text t))
        × (ipaddress.ip_address t ≡ ok a)
  pub lists_no_ipv6 :
      (key : Fields)
      → get "meta.ipv6_addr" key ≡ some (number (pos 0))
      → get "meta.ipv6_addr" (listed key) ≡ some (text "::")

-- A request to the controller that carries the body of the engine's.
pub record IsSent (int : String → Result ℤ) (attack : Attack) (request : AttackRequest)
    : Type 0 where
  pub src_mac : request.src_mac ≡ some attack.src_mac
  pub dst_ip : request.dst_ip ≡ some attack.dst_ip
  pub port_text : String
  pub dst_port : request.dst_port ≡ some port_text
  pub port_value : int port_text ≡ ok (pos attack.dst_port)

-- The keys that the switch answers, by the types their values have.
abbrev pub as_read : MatchKeys → DropKeys
as_read keys = record {
  mac = text keys.mac;
  port = number (pos keys.port);
  ip_addr = text keys.ip_addr;
  ipv6_addr = text keys.ipv6_addr;
}

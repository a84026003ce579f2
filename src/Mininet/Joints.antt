-- ===== src/Mininet/Joints.antt =====
-- The ports that the links of trans_sec/mininet/exercise.py give to the switches.
use transparent_security.Prelude.{
  ℕ, ◌≡◌, ◌≢◌, String, false, none, some, List, [], ◌∷◌, ◌++◌, if◌then◌else◌,
}
use transparent_security.Prelude.Equality.{◌==◌, nat_eq, string_eq}
use transparent_security.Prelude.Result.{ok}
use transparent_security.Mininet.{
  SwitchInfo, HostInfo, TopoLink, Config, lookup, is_port, north_host,
}

-- A port of a switch, with the name of what is behind it.
pub record Joint : Type 0 where
  pub switch : String
  pub port : ℕ
  pub target : String

-- A link that is handled without an exception, with its joints: between two switches, from a
-- switch to a host on either side, or from a switch to a node that is ignored, or without a port.
pub data IsJoined (config : Config) (link : TopoLink) : List Joint → Type 0 where
  two_switches :
      (s n : SwitchInfo) (np sp : ℕ) (latency bandwidth : String)
      → link.north_facing_port ≡ some np
      → link.south_facing_port ≡ some sp
      → np ≢ 0
      → sp ≢ 0
      → lookup link.south_node config.switches ≡ some s
      → lookup link.north_node config.switches ≡ some n
      → link.latency ≡ some latency
      → link.bandwidth ≡ some bandwidth
      → IsJoined config link (
          record { switch = s.name; port = np; target = n.name }
          ∷ record { switch = n.name; port = sp; target = s.name }
          ∷ [])
  to_north :
      (s : SwitchInfo) (h : HostInfo) (np : ℕ) (latency bandwidth : String)
      → link.north_facing_port ≡ some np
      → is_port link.south_facing_port ≡ false
      → np ≢ 0
      → lookup link.south_node config.switches ≡ some s
      → north_host config link ≡ ok (some h)
      → link.latency ≡ some latency
      → link.bandwidth ≡ some bandwidth
      → IsJoined config link (record { switch = s.name; port = np; target = h.name } ∷ [])
  to_south :
      (n : SwitchInfo) (h : HostInfo) (sp : ℕ) (latency bandwidth : String)
      → is_port link.north_facing_port ≡ false
      → link.south_facing_port ≡ some sp
      → lookup link.south_node config.hosts ≡ some h
      → lookup link.north_node config.switches ≡ some n
      → link.latency ≡ some latency
      → link.bandwidth ≡ some bandwidth
      → IsJoined config link (record { switch = n.name; port = sp; target = h.name } ∷ [])
  no_north_host :
      (np : ℕ)
      → link.north_facing_port ≡ some np
      → is_port link.south_facing_port ≡ false
      → np ≢ 0
      → north_host config link ≡ ok none
      → IsJoined config link []
  no_south_host :
      (sp : ℕ)
      → is_port link.north_facing_port ≡ false
      → link.south_facing_port ≡ some sp
      → lookup link.south_node config.hosts ≡ none
      → IsJoined config link []
  no_port :
      is_port link.north_facing_port ≡ false
      → link.south_facing_port ≡ none
      → IsJoined config link []

-- The ports of a switch among some joints, in their order.
abbrev pub ports_in : String → List Joint → List (ℕ × String)
ports_in sw [] = []
ports_in sw (j ∷ js) =
    if j.switch == sw then (j.port, j.target) ∷ ports_in sw js else ports_in sw js

-- The links with the joints of each.
pub data AreJoined (config : Config) : List TopoLink → List Joint → Type 0 where
  none_left : AreJoined config [] []
  next_link :
      {link : TopoLink} {links : List TopoLink} {js ks : List Joint}
      → IsJoined config link js
      → AreJoined config links ks
      → AreJoined config (link ∷ links) (js ++ ks)

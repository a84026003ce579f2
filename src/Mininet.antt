-- ===== src/Mininet.antt =====
-- The topology that `ExerciseTopo` of trans_sec/mininet/exercise.py hands to mininet. The ids and the
-- ports in the configuration are not negative; what mininet is told is recorded call by call, but
-- for the names of the log files.
pub mod Joints
pub mod Ports
pub mod PathIds
use Prim.Native.String.{◌++◌ as str_append}
use transparent_security.Prelude.{
  ℕ, suc, ◌+◌, String, Bool, true, false, not, ◌&&◌, Option, none, some, List, [], ◌∷◌, ◌++◌, map,
  if◌then◌else◌,
}
use transparent_security.Prelude.Equality.{◌==◌, nat_eq, string_eq}
use transparent_security.Prelude.Dict.{Dict, get, put}
use transparent_security.Prelude.Lists.{length}
use transparent_security.Prelude.Result.{Result, ok, err, type_error, attribute_error, key_error}
use transparent_security.Prelude.Exec.{Exec, pure, raise, lift, modify, ◌>>=◌, ◌>>◌}
use transparent_security.Convert.{hex_digits, hex_char, zero_padded}

pub record SwitchInfo : Type 0 where
  pub id : ℕ
  pub name : String
  pub mac : String

pub record HostInfo : Type 0 where
  pub name : String
  pub ip : String
  pub mac : String

pub record TopoLink : Type 0 where
  pub north_facing_port : Option ℕ
  pub south_facing_port : Option ℕ
  pub south_node : Option String
  pub north_node : Option String
  pub latency : Option String
  pub bandwidth : Option String
  pub south_facing_mac : Option String

-- The dicts of the configuration; 'external' may be missing.
pub record Config : Type 0 where
  pub hosts : Dict String HostInfo
  pub switches : Dict String SwitchInfo
  pub external : Option (Dict String HostInfo)

pub data Call : Type 0 where
  new_switch : String → List ℕ → Call
  new_host : String → String → String → Call
  new_link : String → String → String → String → String → String → Call

pub record ExerciseTopo : Type 0 where
  pub sw_port_mapping : Dict String (List (ℕ × String))
  pub calls : List Call

-- `hex(dpid)[2:]`, filled up with zeros to 16 digits
unfoldable pub int_to_dpid : ℕ → List ℕ
unfolding hex_digits
int_to_dpid dpid = zero_padded 16 (map hex_char (hex_digits (suc dpid) dpid))

abbrev pub ports_at : String → Dict String (List (ℕ × String)) → List (ℕ × String)
ports_at sw mapping = elim (get sw mapping) [ none ↦ [] | some ports ↦ ports ]

abbrev numbered : Option ℕ → List (ℕ × String) → ℕ
numbered none ports = length ports + 1
numbered (some port) ports = port

-- The list of a switch that is not there yet is made.
unfoldable pub add_switch_port : String → String → Option ℕ → Exec ExerciseTopo (Unit {0})
unfolding put get
add_switch_port sw target port = modify λ topo.
    let ports = ports_at sw topo.sw_port_mapping in
    record topo {
      sw_port_mapping = put sw (ports ++ (numbered port ports, target) ∷ []) topo.sw_port_mapping;
    }

abbrev pub told : Call → ExerciseTopo → ExerciseTopo
told call topo = record topo { calls = topo.calls ++ call ∷ [] }

abbrev tell : Call → Exec ExerciseTopo (Unit {0})
tell call = modify (told call)

-- `switch['name']` of what `get` gave
abbrev pub subscript {ℓ} : {A : Type ℓ} → Option A → Result A
subscript none = err type_error
subscript (some a) = ok a

abbrev pub required {ℓ} : {A : Type ℓ} → Option A → Result A
required none = err key_error
required (some a) = ok a

-- `d.get(key)`, where the key itself may be None
abbrev pub lookup {ℓ} : {V : Type ℓ} → Option String → Dict String V → Option V
lookup none d = none
lookup (some key) d = get key d

-- A port counts as true unless it is None or 0.
abbrev pub is_port : Option ℕ → Bool
is_port none = false
is_port (some port) = not (port == 0)

abbrev pub is_text : Option String → Bool
is_text none = false
is_text (some t) = not (t == "")

-- The link between two nodes, with their MAC addresses.
abbrev wire : TopoLink → String → String → String → String → Exec ExerciseTopo (Unit {0})
wire link first second addr1 addr2 = do
  latency ← lift (required link.latency)
  bandwidth ← lift (required link.bandwidth)
  tell (new_link first second latency bandwidth addr1 addr2)

unfoldable pub join_switches : Config → TopoLink → Exec ExerciseTopo (Unit {0})
unfolding add_switch_port get
join_switches config link = do
  s_switch ← lift (subscript (lookup link.south_node config.switches))
  n_switch ← lift (subscript (lookup link.north_node config.switches))
  wire link s_switch.name n_switch.name s_switch.mac n_switch.mac
  add_switch_port s_switch.name n_switch.name link.north_facing_port
  add_switch_port n_switch.name s_switch.name link.south_facing_port

-- `hosts.get`, and then `external.get`
abbrev pub north_host : Config → TopoLink → Result (Option HostInfo)
north_host config link = elim (lookup link.north_node config.hosts) [
  | some host ↦ ok (some host)
  | none ↦ elim config.external [
    | none ↦ err attribute_error
    | some external ↦ ok (lookup link.north_node external)
  ]
]

abbrev pub host_call : HostInfo → Call
host_call host = new_host host.name (str_append host.ip "/24") host.mac

abbrev hang_north : Config → TopoLink → Option HostInfo → Exec ExerciseTopo (Unit {0})
hang_north config link none = pure tt
hang_north config link (some n_host) = do
  tell (host_call n_host)
  s_switch ← lift (subscript (lookup link.south_node config.switches))
  wire link n_host.name s_switch.name n_host.mac s_switch.mac
  add_switch_port s_switch.name n_host.name link.north_facing_port

unfoldable pub join_north_host : Config → TopoLink → Exec ExerciseTopo (Unit {0})
unfolding add_switch_port get
join_north_host config link = lift (north_host config link) >>= hang_north config link

-- The MAC address of the link's south side, or else that of the switch.
abbrev pub addr2_of : Option String → SwitchInfo → String
addr2_of none n_switch = n_switch.mac
addr2_of (some mac) n_switch = if mac == "" then n_switch.mac else mac

abbrev hang_south : Config → TopoLink → Option HostInfo → Exec ExerciseTopo (Unit {0})
hang_south config link none = pure tt
hang_south config link (some s_host) = do
  tell (host_call s_host)
  n_switch ← lift (subscript (lookup link.north_node config.switches))
  wire link s_host.name n_switch.name s_host.mac (addr2_of link.south_facing_mac n_switch)
  add_switch_port n_switch.name s_host.name link.south_facing_port

unfoldable pub join_south_host : Config → TopoLink → Exec ExerciseTopo (Unit {0})
unfolding add_switch_port get
join_south_host config link = hang_south config link (lookup link.south_node config.hosts)

unfoldable pub join : Config → TopoLink → Exec ExerciseTopo (Unit {0})
unfolding join_switches join_north_host join_south_host
join config link =
    if is_port link.north_facing_port && is_port link.south_facing_port
    then join_switches config link
    else if is_port link.north_facing_port
    then join_north_host config link
    else elim link.south_facing_port [ none ↦ pure tt | some port ↦ join_south_host config link ]

unfoldable pub join_all : Config → List TopoLink → Exec ExerciseTopo (Unit {0})
unfolding join
join_all config [] = pure tt
join_all config (link ∷ links) = join config link >> join_all config links

abbrev switch_calls : Dict String SwitchInfo → List Call
switch_calls [] = []
switch_calls ((sw_name, sw) ∷ switches) =
    new_switch sw.name (int_to_dpid sw.id) ∷ switch_calls switches

abbrev pub no_links : Config → ExerciseTopo
no_links config = record { sw_port_mapping = []; calls = switch_calls config.switches }

-- `ExerciseTopo.__init__`
unfoldable pub build_topo : Config → List TopoLink → Result (Unit {0}) × ExerciseTopo
unfolding join_all int_to_dpid
build_topo config links = join_all config links (no_links config)

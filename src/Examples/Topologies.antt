-- ===== src/Examples/Topologies.antt =====
-- A topology of two switches with a host each.
use transparent_security.Prelude.{ℕ, ◌≡◌, String, Option, none, some, List, [], ◌∷◌, refl, arith}
use transparent_security.Prelude.Dict.{get}
use transparent_security.Prelude.Lists.{length}
use transparent_security.Prelude.Result.{ok}
use transparent_security.Convert.{from_hex}
use transparent_security.Mininet.{
  SwitchInfo, HostInfo, TopoLink, Config, ports_at, int_to_dpid, build_topo,
}
use transparent_security.Mininet.Joints.{
  Joint, two_switches, to_north, to_south, AreJoined, none_left, next_link, ports_in,
}
use transparent_security.Mininet.Ports.{build_topo_lem}
use transparent_security.Mininet.PathIds.{int_to_dpid_lem}

int_to_dpid_lem_example : (length (int_to_dpid 291) ≡ 16) × (from_hex 0 (int_to_dpid 291) ≡ ok 291)
int_to_dpid_lem_example = int_to_dpid_lem 291 (omega arith)

abbrev core : SwitchInfo
core = record { id = 1; name = "core"; mac = "00:01" }

abbrev aggregate : SwitchInfo
aggregate = record { id = 2; name = "aggregate"; mac = "00:02" }

abbrev inet : HostInfo
inet = record { name = "inet"; ip = "10.0.0.1"; mac = "00:11" }

abbrev camera : HostInfo
camera = record { name = "camera"; ip = "10.0.0.2"; mac = "00:12" }

abbrev config : Config
config = record {
  hosts = ("inet", inet) ∷ ("camera", camera) ∷ [];
  switches = ("core", core) ∷ ("aggregate", aggregate) ∷ [];
  external = none;
}

abbrev cable : Option ℕ → Option ℕ → String → String → TopoLink
cable north south south_node north_node = record {
  north_facing_port = north;
  south_facing_port = south;
  south_node = some south_node;
  north_node = some north_node;
  latency = some "0";
  bandwidth = some "10";
  south_facing_mac = none;
}

abbrev links : List TopoLink
links =
    cable (some 1) (some 2) "aggregate" "core"
    ∷ cable (some 3) none "core" "inet"
    ∷ cable none (some 4) "camera" "aggregate"
    ∷ []

abbrev joints : List Joint
joints =
    record { switch = "aggregate"; port = 1; target = "core" }
    ∷ record { switch = "core"; port = 2; target = "aggregate" }
    ∷ record { switch = "core"; port = 3; target = "inet" }
    ∷ record { switch = "aggregate"; port = 4; target = "camera" }
    ∷ []

links-AreJoined : AreJoined config links joints
unfolding get
links-AreJoined =
    next_link
      (two_switches aggregate core 1 2 "0" "10" refl refl (omega arith) (omega arith) refl refl refl
        refl)
      (next_link (to_north core inet 3 "0" "10" refl refl (omega arith) refl refl refl refl)
        (next_link (to_south aggregate camera 4 "0" "10" refl refl refl refl refl refl) none_left))

build_topo_lem_example :
    ((build_topo config links).0 ≡ ok tt)
    × ((sw : String) → ports_at sw (build_topo config links).1.sw_port_mapping ≡ ports_in sw joints)
build_topo_lem_example = build_topo_lem config links joints links-AreJoined

-- ===== src/Mininet/Ports.antt =====
-- The port mapping that `ExerciseTopo` of trans_sec/mininet/exercise.py makes of the links.
use transparent_security.Prelude.{
  ℕ, ◌≡◌, String, some, List, [], ◌∷◌, ◌++◌, if◌then◌else◌, refl, sym, ap, ◌∙◌, Bool-cases, inl,
  inr,
}
use mathlib.Core.List.{append_assoc, append-nil}
use transparent_security.Prelude.Equality.{◌==◌, nat_eq, string_eq, beq_ne}
use transparent_security.Prelude.Dict.{Dict, get, put, get-put}
use transparent_security.Prelude.Result.{ok}
use transparent_security.Mininet.{
  Call, new_link, told, host_call, addr2_of, TopoLink, Config, ExerciseTopo, ports_at,
  add_switch_port, join_switches, join_north_host, join_south_host, join, join_all, no_links,
  build_topo,
}
use transparent_security.Mininet.Joints.{
  Joint, IsJoined, two_switches, to_north, to_south, no_north_host, no_south_host, no_port,
  ports_in, AreJoined, none_left, next_link,
}

ports_at-put :
    (k sw : String) (ports : List (ℕ × String)) (mapping : Dict String (List (ℕ × String)))
    → ports_at sw (put k ports mapping) ≡ (if k == sw then ports else ports_at sw mapping)
ports_at-put k sw ports mapping = elim (Bool-cases (k == sw)) [
  | inl same ↦ rw (ports_at, get-put k sw ports mapping) (rw same refl)
  | inr other ↦ rw (ports_at, get-put k sw ports mapping) (rw other refl)
]

abbrev pub added : Joint → ExerciseTopo → ExerciseTopo
added j topo = (add_switch_port j.switch j.target (some j.port) topo).1

ports_at-added :
    (j : Joint) (topo : ExerciseTopo) (sw : String)
    → ports_at sw (added j topo).sw_port_mapping
      ≡ ports_at sw topo.sw_port_mapping ++ ports_in sw (j ∷ [])
unfolding add_switch_port
ports_at-added j topo sw = elim (Bool-cases (j.switch == sw)) [
  | inl same ↦
      rw
        (ports_at-put j.switch sw
          (ports_at j.switch topo.sw_port_mapping ++ (j.port, j.target) ∷ []) topo.sw_port_mapping)
        (rw same (
          ap (λ x. ports_at x topo.sw_port_mapping ++ (j.port, j.target) ∷ [])
            ((string_eq.beq_iff j.switch sw).0 same)))
  | inr other ↦
      rw
        (ports_at-put j.switch sw
          (ports_at j.switch topo.sw_port_mapping ++ (j.port, j.target) ∷ []) topo.sw_port_mapping)
        (rw other (sym (append-nil (ports_at sw topo.sw_port_mapping))))
]

ports_in-append :
    (sw : String) (js ks : List Joint) → ports_in sw (js ++ ks) ≡ ports_in sw js ++ ports_in sw ks
ports_in-append sw [] ks = refl
ports_in-append sw (j ∷ js) ks = elim (Bool-cases (j.switch == sw)) [
  | inl same ↦ rw same (rw (ports_in-append sw js ks) refl)
  | inr other ↦ rw other (ports_in-append sw js ks)
]

-- What one link adds.
abbrev Adds : ExerciseTopo → List Joint → ExerciseTopo → Type 0
Adds topo js after =
    (sw : String)
    → ports_at sw after.sw_port_mapping ≡ ports_at sw topo.sw_port_mapping ++ ports_in sw js

Adds-added :
    (j : Joint) (js : List Joint) (topo after : ExerciseTopo)
    → Adds topo js after
    → Adds topo (js ++ j ∷ []) (added j after)
Adds-added j js topo after adds sw =
    ports_at-added j after sw
    ∙ ap (λ ports. ports ++ ports_in sw (j ∷ [])) (adds sw)
    ∙ append_assoc (ports_at sw topo.sw_port_mapping) (ports_in sw js) (ports_in sw (j ∷ []))
    ∙ ap (λ ports. ports_at sw topo.sw_port_mapping ++ ports) (sym (ports_in-append sw js (j ∷ [])))

Adds-none : (topo : ExerciseTopo) (calls : List Call) → Adds topo [] (record topo { calls = calls })
Adds-none topo calls sw = sym (append-nil (ports_at sw topo.sw_port_mapping))

join_lem :
    (config : Config) (link : TopoLink) (js : List Joint) (topo : ExerciseTopo)
    → IsJoined config link js
    → (after : ExerciseTopo) × (join config link topo ≡ (ok tt, after)) × Adds topo js after
unfolding join join_switches join_north_host join_south_host add_switch_port
join_lem config link _ topo
      (two_switches s n np sp latency bandwidth p q np_set sp_set south north l b) =
    let first : Joint = record { switch = s.name; port = np; target = n.name } in
    let second : Joint = record { switch = n.name; port = sp; target = s.name } in
    let start = told (new_link s.name n.name latency bandwidth s.mac n.mac) topo in
    (
      added second (added first start),
      rw (p, q) (rw (beq_ne np 0 np_set, beq_ne sp 0 sp_set) (rw (south, north) (rw (l, b) refl))),
      Adds-added second (first ∷ []) topo (added first start)
          (Adds-added first [] topo start (Adds-none topo start.calls)),
    )
join_lem config link _ topo (to_north s h np latency bandwidth p q np_set south north l b) =
    let joint : Joint = record { switch = s.name; port = np; target = h.name } in
    let start =
      told (new_link h.name s.name latency bandwidth h.mac s.mac) (told (host_call h) topo) in
    (
      added joint start,
      rw (p, q) (rw (beq_ne np 0 np_set) (rw (north, south) (rw (l, b) refl))),
      Adds-added joint [] topo start (Adds-none topo start.calls),
    )
join_lem config link _ topo (to_south n h sp latency bandwidth p q south north l b) =
    let joint : Joint = record { switch = n.name; port = sp; target = h.name } in
    let start =
      told (new_link h.name n.name latency bandwidth h.mac (addr2_of link.south_facing_mac n))
        (told (host_call h) topo) in
    (
      added joint start,
      rw (p, q) (rw (south, north) (rw (l, b) (rw q refl))),
      Adds-added joint [] topo start (Adds-none topo start.calls),
    )
join_lem config link _ topo (no_north_host np p q np_set missing) = (
  topo,
  rw (p, q) (rw (beq_ne np 0 np_set) (rw missing refl)),
  λ sw. sym (append-nil (ports_at sw topo.sw_port_mapping)),
)
join_lem config link _ topo (no_south_host sp p q missing) =
    (topo, rw (p, q) (rw missing refl), λ sw. sym (append-nil (ports_at sw topo.sw_port_mapping)))
join_lem config link _ topo (no_port p q) =
    (topo, rw (p, q) refl, λ sw. sym (append-nil (ports_at sw topo.sw_port_mapping)))

join_all_lem :
    (config : Config) (links : List TopoLink) (js : List Joint) (topo : ExerciseTopo)
    → AreJoined config links js
    → (after : ExerciseTopo) × (join_all config links topo ≡ (ok tt, after)) × Adds topo js after
unfolding join_all
join_all_lem config _ _ topo none_left =
    (topo, refl, λ sw. sym (append-nil (ports_at sw topo.sw_port_mapping)))
join_all_lem config _ _ topo
      (next_link {link = link} {links = links} {js = js} {ks = ks} one others) =
    let (mid, joins, adds) = join_lem config link js topo one in
    let (after, joins_all, adds_all) = join_all_lem config links ks mid others in
    (
      after,
      rw joins joins_all,
      λ sw.
          adds_all sw
          ∙ ap (λ ports. ports ++ ports_in sw ks) (adds sw)
          ∙ append_assoc (ports_at sw topo.sw_port_mapping) (ports_in sw js) (ports_in sw ks)
          ∙ ap (λ ports. ports_at sw topo.sw_port_mapping ++ ports)
              (sym (ports_in-append sw js ks)),
    )

-- The topology is built without an exception, and the mapping of each switch has exactly its ports
-- of the links, with what is behind them, in the order of the links, if every link is one of these:
-- with two ports that are not 0, between two switches of the configuration; with a north-facing port
-- that is not 0 and no south-facing one, or 0, from a switch of the configuration to a node for which a
-- host is found, or to one for which none is, where there is an 'external', which adds no port; with a
-- south-facing port and no north-facing one, or 0, from a switch to a host of the configuration, or to
-- a node that is none, which adds no port; or with no port (a north-facing 0 counts as none); and if
-- those that add a port have a latency and a bandwidth.
pub build_topo_lem :
    (config : Config) (links : List TopoLink) (js : List Joint)
    → AreJoined config links js
    → ((build_topo config links).0 ≡ ok tt)
      × ((sw : String) → ports_at sw (build_topo config links).1.sw_port_mapping ≡ ports_in sw js)
unfolding build_topo get
build_topo_lem config links js joined =
    let (after, joins, adds) = join_all_lem config links js (no_links config) joined in
    rw joins (refl, adds)

-- ===== src/Telemetry.antt =====
-- trans_sec/packet/packet_telemetry.py: the devices and what they forward and drop. A time stamp is
-- an argument. `filter` gives an iterator, here the list of what it still yields, and `list(it)` uses
-- it up.
pub mod UsedUp
use transparent_security.Prelude.{
  ℕ, ◌+◌, String, Bool, true, false, Option, none, some, List, [], ◌∷◌, ◌++◌, ltb, if◌then◌else◌,
}
use transparent_security.Prelude.Equality.{◌==◌, nat_eq, string_eq, contains}
use transparent_security.Prelude.Lists.{length}
use transparent_security.Prelude.Result.{Result, ok, err, index_error}
use transparent_security.Prelude.Exec.{Exec}

-- The dict of a host or a switch; hosts have no children.
pub record Device : Type 0 where
  pub device_mac : String
  pub device_id : String
  pub device_type : String
  pub device_name : String
  pub children : List String
  pub parent : Option String
  pub dropped : ℕ
  pub forwarded : ℕ
  pub threat_detected : Bool
  pub threat_type : Option String
  pub threat_mitigated : Bool

-- `by_switch` has the name and the devices of each switch.
pub record Telemetry : Type 0 where
  pub time_stamp : String
  pub global_dropped : ℕ
  pub global_forwarded : ℕ
  pub by_switch : List (String × List Device)
  pub switches : List Device
  pub hosts : List Device

abbrev new_device : String → String → String → String → Device
new_device id mac name type = record {
  device_mac = mac;
  device_id = id;
  device_type = type;
  device_name = name;
  children = [];
  parent = none;
  dropped = 0;
  forwarded = 0;
  threat_detected = false;
  threat_type = none;
  threat_mitigated = false;
}

unfoldable pub add_switch : String → String → String → String → Telemetry → Telemetry
add_switch sid mac name stype t = record t {
  switches = t.switches ++ new_device sid mac name stype ∷ [];
}

unfoldable pub add_host : String → String → String → String → Telemetry → Telemetry
add_host hid mac name dtype t = record t { hosts = t.hosts ++ new_device hid mac name dtype ∷ [] }

abbrev pub has_id : String → Device → Bool
has_id id d = d.device_id == id

-- `filter`, and what `list` leaves of an iterator
unfoldable pub filter : (Device → Bool) → List Device → List Device
filter p [] = []
filter p (d ∷ ds) = let rest = filter p ds in if p d then d ∷ rest else rest

abbrev pub used_up : List Device → List Device
used_up it = []

-- `next(it)` or `list(it)[0]`, with the exception caught
abbrev pub first : List Device → Option Device
first [] = none
first (d ∷ ds) = some d

-- The first device that satisfies the test is changed where it stands.
unfoldable pub change_first : (Device → Bool) → (Device → Device) → List Device → List Device
change_first p f [] = []
change_first p f (d ∷ ds) = let rest = change_first p f ds in if p d then f d ∷ ds else d ∷ rest

abbrev pub if_some : Option Device → (Telemetry → Telemetry) → Telemetry → Telemetry
if_some none f t = t
if_some (some d) f t = f t

-- The first half of `add_child`: the iterator is asked again after it was used up.
unfoldable pub append_child : String → String → Telemetry → Telemetry
unfolding filter change_first
append_child sid hid t =
    let switch = filter (has_id sid) t.switches in
    let first_switch = if ltb 0 (length switch) then first (used_up switch) else none in
    if_some first_switch
      (λ u. record u {
        switches =
            change_first (has_id sid) (λ d. record d { children = d.children ++ hid ∷ [] })
              u.switches;
      })
      t

abbrev pub set_parent : String → Device → Device
set_parent sid d = record d { parent = some sid }

-- The second half: a host, or else a switch, gets its parent.
unfoldable pub assign_parent : String → String → Telemetry → Telemetry
unfolding filter change_first
assign_parent sid hid t =
    let device = filter (has_id hid) t.hosts in
    let first_host = if ltb 0 (length device) then first (used_up device) else none in
    elim first_host [
      | some d ↦ record t { hosts = change_first (has_id hid) (set_parent sid) t.hosts }
      | none ↦
          if_some (first (filter (has_id hid) t.switches))
            (λ u. record u { switches = change_first (has_id hid) (set_parent sid) u.switches }) t
    ]

unfoldable pub add_child : String → String → Telemetry → Telemetry
unfolding append_child assign_parent
add_child sid hid t = assign_parent sid hid (append_child sid hid t)

unfoldable pub reset_total : String → Telemetry → Telemetry
reset_total now t = record t { global_dropped = 0; global_forwarded = 0; time_stamp = now }

-- `if forwarded is not None: …`, and the same for `dropped`
abbrev pub with_forwarded : Option ℕ → Device → Device
with_forwarded none d = d
with_forwarded (some forwarded) d = record d { forwarded = forwarded }

abbrev pub with_dropped : Option ℕ → Device → Device
with_dropped none d = d
with_dropped (some dropped) d = record d { dropped = dropped }

-- The device that is changed is a host, or a switch where no host has the id.
abbrev pub change_device : String → (Device → Device) → Telemetry → Telemetry
change_device device_id f t =
    if length (filter (has_id device_id) t.hosts) == 0
    then record t { switches = change_first (has_id device_id) f t.switches }
    else record t { hosts = change_first (has_id device_id) f t.hosts }

-- Each `list(device)` uses the iterator up, so that the next one finds what is left of it.
unfoldable pub update_device : String → Option ℕ → Option ℕ → Exec Telemetry (Unit {0})
unfolding filter change_first
update_device device_id forwarded dropped t =
    let hosts = filter (has_id device_id) t.hosts in
    let device =
      if length hosts == 0 then filter (has_id device_id) t.switches else used_up hosts in
    if length device == 1
    then elim (first (used_up device)) [
      | none ↦ (err index_error, t)
      | some d ↦ (
        ok tt,
        change_device device_id (λ e. with_dropped dropped (with_forwarded forwarded e)) t,
      )
    ]
    else (ok tt, t)

unfoldable pub add_up : List Device → Telemetry → Telemetry
add_up [] t = t
add_up (host ∷ hosts) t = add_up hosts (record t {
  global_forwarded = t.global_forwarded + host.forwarded;
  global_dropped = t.global_dropped + host.dropped;
})

unfoldable pub total : String → Telemetry → Telemetry
unfolding reset_total add_up
total now t = add_up t.hosts (reset_total now t)

unfoldable pub get_devices : List String → Telemetry → List Device
unfolding filter
get_devices device_id_list t =
    filter (λ d. contains d.device_id device_id_list) t.hosts
    ++ filter (λ d. contains d.device_id device_id_list) t.switches

abbrev messages : List Device → Telemetry → List (String × List Device)
messages [] t = []
messages (switch ∷ switches) t =
    (switch.device_name, get_devices switch.children t) ∷ messages switches t

unfoldable pub build_msg : String → Telemetry → Telemetry
unfolding get_devices
build_msg now t = record t { time_stamp = now; by_switch = messages t.switches t }

abbrev threatened : Device → Device
threatened d = record d {
  threat_detected = true;
  threat_type = some "UDP Flood";
  threat_mitigated = true;
}

-- The first of the devices with the id, hosts before switches; an IndexError where there is none.
unfoldable pub register_attack : String → Exec Telemetry (Unit {0})
unfolding filter change_first
register_attack device_id t =
    if ltb 0 (length (filter (has_id device_id) t.hosts))
    then (ok tt, record t { hosts = change_first (has_id device_id) threatened t.hosts })
    else if ltb 0 (length (filter (has_id device_id) t.switches))
    then (ok tt, record t { switches = change_first (has_id device_id) threatened t.switches })
    else (err index_error, t)

unfoldable pub get_switch_by_name : String → Telemetry → Option Device
unfolding filter
get_switch_by_name name t = first (filter (λ d. d.device_name == name) t.switches)

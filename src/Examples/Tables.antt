-- ===== src/Examples/Tables.antt =====
-- Runs of the Barefoot runtime switches on a server whose tables keep the entry written last.
use transparent_security.Prelude.{
  String, Bool, ◌≡◌, ◌≢◌, ◌⊎◌, refl, sym, true, false, Option, none, some, List, [], ◌∷◌,
  if◌then◌else◌,
}
use transparent_security.Prelude.Equality.{◌==◌, string_eq, beq_refl, beq_ne}
use transparent_security.Prelude.Result.{Exception, Result, ok, err, error, index_error}
use transparent_security.Convert.{ℤ, pos}
use transparent_security.External.{IpAddress}
use transparent_security.Controller.Switches.{AttackRequest}
use transparent_security.Barefoot.Client.{Fields, Write, add, del, default, Server, Switch, send}
use transparent_security.Barefoot.{
  update_arp_multicast, get_arp_multicast_ports, setup_default_port,
}
use transparent_security.Barefoot.Core.{update_default_port}
use transparent_security.Barefoot.Core.{add_data_forward}
use transparent_security.Barefoot.Digests.{
  Learned, process_digest, first_port, or_else, IsMacTable, process_digest-first,
}
use transparent_security.Barefoot.Client.{text, number}
use transparent_security.Barefoot.Aggregate.{add_attack, stop_attack}
use transparent_security.Barefoot.Multicast.{
  table_of, IsTables, IsPlain, update_arp_multicast-get_arp_multicast_ports,
  setup_default_port-IsPlain,
}
use transparent_security.Barefoot.Attacks.{add_attack-stop_attack}

abbrev Tables : Type 0
Tables = String → List (Fields × Fields)

abbrev set : String → List (Fields × Fields) → Tables → Tables
set t entries d u = if t == u then entries else d u

abbrev keep : Write → Tables → Result (Unit {0}) × Tables
keep (add t key action values) d = (ok tt, set t ((values, key) ∷ []) d)
keep (del t key) d = (ok tt, set t [] d)
keep (default t action values) d = (ok tt, d)

abbrev keeping : Server Tables
keeping = record {
  get_table = λ t. ok true;
  write = keep;
  read = λ t key d. ok (d t);
  already_exists = λ e. false;
}

keep-apart : (t : String) (w : Write) (d : Tables) → t ≢ table_of w → (keep w d).1 t ≡ d t
keep-apart t (add u key action values) d ne = rw (beq_ne u t (λ e. ne (sym e))) refl
keep-apart t (del u key) d ne = rw (beq_ne u t (λ e. ne (sym e))) refl
keep-apart t (default u action values) d ne = refl

keeping-IsTables : IsTables keeping
keeping-IsTables = record {
  has = λ t. refl;
  added = λ t key values d. refl;
  reads = λ t key values d. rw (beq_refl t) refl;
  apart = λ t key w d ne. rw (keep-apart t w d ne) refl;
}

abbrev switch : Switch Tables
switch = record {
  int_device_id = pos 4;
  tunnels = record { switch_port = ok (pos 5); type = none } ∷ [];
  server = λ t. [];
}

update_arp_multicast-get_arp_multicast_ports_example :
    let (r, after) = update_arp_multicast keeping (pos 5 ∷ pos 6 ∷ []) switch in
    (r ≡ ok tt) × (get_arp_multicast_ports keeping (pos 1) after ≡ ok ((pos 5 ∷ pos 6 ∷ []) ∷ []))
update_arp_multicast-get_arp_multicast_ports_example =
    update_arp_multicast-get_arp_multicast_ports keeping keeping-IsTables (pos 5) (pos 6 ∷ [])
      switch

switch-IsPlain : IsPlain keeping (record { switch_port = ok (pos 5); type = none })
switch-IsPlain = (pos 5, refl, λ e. absurd (cc (e)))

setup_default_port-IsPlain_example :
    setup_default_port keeping (update_default_port keeping) switch ≡ (err index_error, switch)
setup_default_port-IsPlain_example =
    setup_default_port-IsPlain keeping (update_default_port keeping) switch (switch-IsPlain, tt)

abbrev text_address : IpAddress
text_address = record {
  Address = String;
  ip_address = λ s. ok s;
  version = λ s. 4;
  str = λ s. s;
  exploded = λ s. s;
}

abbrev port_80 : String → Result ℤ
port_80 s = ok (pos 80)

abbrev flood : AttackRequest
flood = record {
  src_mac = some "00:11";
  src_ip = some "10.0.0.2";
  dst_ip = some "10.0.0.1";
  dst_port = some "80";
}

add_attack-stop_attack_example :
    ((e : Exception) × ((s : Switch Tables)
        → (add_attack keeping text_address port_80 flood s ≡ (err e, s))
          × (stop_attack keeping text_address port_80 flood s ≡ (err e, s))))
    ⊎ ((key : Fields) × ((s : Switch Tables)
          → (add_attack keeping text_address port_80 flood s
              ≡ send keeping
                  (add "TpsAggIngress.data_drop_t" key (some "TpsAggIngress.data_drop") [])
                  s)
            × (stop_attack keeping text_address port_80 flood s
                ≡ send keeping (del "TpsAggIngress.data_drop_t" key) s)))
add_attack-stop_attack_example = add_attack-stop_attack keeping text_address port_80 flood refl

-- A server with the forwarding table alone, which refuses an address that is there.
abbrev Ports : Type 0
Ports = String → Option ℤ

abbrev place : Option ℤ → String → ℤ → Ports → Result (Unit {0}) × Ports
place none mac port d = (ok tt, λ m. if m == mac then some port else d m)
place (some q) mac port d = (err (error "ALREADY_EXISTS"), d)

abbrev insert : Fields → Fields → Ports → Result (Unit {0}) × Ports
insert ((field, text mac) ∷ []) ((name, number port) ∷ []) d = place (d mac) mac port d
insert key values d = (ok tt, d)

abbrev store : Write → Ports → Result (Unit {0}) × Ports
store (add t key action values) d = insert key values d
store (del t key) d = (ok tt, d)
store (default t action values) d = (ok tt, d)

abbrev says_exists : Exception → Bool
says_exists (error t) = t == "ALREADY_EXISTS"
says_exists e = false

abbrev refusing : Server Ports
refusing = record {
  get_table = λ t. ok true;
  write = store;
  read = λ t key d. ok [];
  already_exists = says_exists;
}

abbrev port_of : String → Ports → Option ℤ
port_of m d = d m

refusing-IsMacTable : IsMacTable refusing port_of
refusing-IsMacTable = record {
  has = refl;
  adds = λ mac port d new. ((λ m. if m == mac then some port else d m), rw new refl, λ m. refl);
  refuses = λ mac port q d old. (error "ALREADY_EXISTS", rw old refl, refl);
}

abbrev core : Switch Ports
core = record { int_device_id = pos 2; tunnels = []; server = λ m. none }

abbrev moved : List Learned
moved =
    record { src_mac = "00:11"; port = 1 ∷ 4 ∷ [] }
    ∷ record { src_mac = "00:12"; port = 6 ∷ [] }
    ∷ record { src_mac = "00:11"; port = 7 ∷ [] }
    ∷ []

process_digest-first_example :
    let (r, after) = process_digest refusing (add_data_forward refusing) moved core in
    (r ≡ ok tt) × ((m : String) → after.server m ≡ or_else none (first_port m moved))
process_digest-first_example = process_digest-first refusing port_of refusing-IsMacTable moved core

-- The port of two bytes, and not the later one.
first_port-moved : first_port "00:11" moved ≡ some (pos 260)
first_port-moved = refl

-- ===== src/P4Runtime/Targets.antt =====
-- `write_multicast_entry` of `GatewaySwitch` (trans_sec/p4runtime_lib/gateway_switch.py).
use transparent_security.Prelude.{
  ℕ, String, Bool, false, Option, none, some, List, [], ◌∷◌, if◌then◌else◌,
}
use transparent_security.Prelude.Equality.{◌==◌, list_eq, nat_eq, string_eq}
use transparent_security.Prelude.Dict.{Dict, get}
use transparent_security.Prelude.Result.{Result, ok, err, key_error}
use transparent_security.Prelude.Exec.{Exec, pure, lift, ◌>>=◌, ◌>>◌}
use transparent_security.Convert.{ℤ, pos, Value, str, int}
use transparent_security.AttackHash.{codes}
use transparent_security.P4Info.Building.{Library, items}
use transparent_security.P4Runtime.Stub.{Device, Switch}
use transparent_security.P4Runtime.Writing.{write_multicast_entry}
use transparent_security.P4Runtime.{only, build_entry, write_table_entry}

abbrev pub Host : Type 0
Host = Dict String Value

-- `host[key]`
abbrev attribute : String → Host → Result Value
attribute key host = elim (get key host) [ none ↦ err key_error | some v ↦ ok v ]

abbrev is_target : Value → Bool
is_target (str s) = s == codes "target-server"
is_target _ = false

-- The last host of the type is taken.
unfoldable pub target_of : Option Host → List Host → Result (Option Host)
target_of target_host [] = ok target_host
target_of target_host (host ∷ hosts) = elim (attribute "type" host) [
  | err e ↦ err e
  | ok type ↦ target_of (if is_target type then some host else target_host) hosts
]

module _ {D : Type 0} (l : Library) (device : Device D) where
  abbrev lookup_mac : (table_name field key : String) → ℕ → Host → Exec (Switch D) (Unit {0})
  lookup_mac table_name field key bits host s =
      (do
        ip ← lift (attribute key host)
        mac ← lift (attribute "mac" host)
        table_entry ←
            build_entry l device s.p4_ingress table_name
              (only field (items (ip ∷ int (pos bits) ∷ []))) "mac_lookup" (only "dst_mac" mac)
        write_table_entry l device table_entry)
        s

  abbrev set_target : Option Host → Exec (Switch D) (Unit {0})
  set_target none = pure tt
  set_target (some host) =
      lookup_mac "mac_lookup_ipv4_t" "hdr.ipv4.dstAddr" "ip" 32 host
      >> lookup_mac "mac_lookup_ipv6_t" "hdr.ipv6.dstAddr" "ipv6" 128 host

  unfoldable pub gateway_multicast_entry :
      (Value → Result ℤ) → List Host → Exec (Switch D) (Unit {0})
  unfolding write_multicast_entry target_of build_entry write_table_entry
  gateway_multicast_entry as_int hosts = do
    write_multicast_entry l device as_int
    target_host ← lift (target_of none hosts)
    set_target target_host

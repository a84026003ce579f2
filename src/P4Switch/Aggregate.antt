-- ===== src/P4Switch/Aggregate.antt =====
-- trans_sec/p4runtime_lib/aggregate_switch.py, with parse_attack of trans_sec/switch.py.
use transparent_security.Prelude.{String, Option, none, some, [], ◌∷◌, if◌then◌else◌}
use transparent_security.Prelude.Equality.{◌==◌, nat_eq}
use transparent_security.Prelude.Dict.{Dict}
use transparent_security.Prelude.Result.{Result, ok, err}
use transparent_security.Prelude.Exec.{Exec, lift, ◌>>=◌}
use transparent_security.Convert.{ℤ, pos}
use transparent_security.External.{IpAddress}
use transparent_security.Controller.Switches.{AttackRequest}
use transparent_security.P4Switch.{
  FieldValue, text, number, Entry, Update, insert, delete, P4Switch, dotted, text_of, ip_of, int_of,
  write_to_table, insert_p4_table_entry, delete_p4_table_entry,
}

module _ (ipaddress : IpAddress) (int : String → Result ℤ)
    (write : Update → Result (Unit {0})) where
  open ipaddress use {Address, version, exploded}

  -- `parse_attack` of SwitchConnection: the destination as IPv4 and as IPv6, 0 where it is not
  unfoldable pub parse_attack : AttackRequest → Result (FieldValue × FieldValue)
  parse_attack attack = elim (ip_of ipaddress attack.dst_ip) [
    | err e ↦ err e
    | ok dst_ip ↦ ok (
        if version dst_ip == 6
        then (number (pos 0), text (exploded dst_ip))
        else (text (exploded dst_ip), number (pos 0)))
  ]

  abbrev match_fields : AttackRequest → Result (Dict String FieldValue)
  match_fields attack = elim (parse_attack attack) [
    | err e ↦ err e
    | ok (dst_ipv4, dst_ipv6) ↦ elim (int_of int attack.dst_port) [
      | err e ↦ err e
      | ok dst_port ↦ ok (
          ("hdr.ethernet.src_mac", text_of attack.src_mac)
          ∷ ("meta.ipv4_addr", dst_ipv4)
          ∷ ("meta.ipv6_addr", dst_ipv6)
          ∷ ("meta.dst_port", number dst_port)
          ∷ [])
    ]
  ]

  unfoldable pub add_attack : AttackRequest → Exec P4Switch (Unit {0})
  unfolding parse_attack insert_p4_table_entry
  add_attack attack = do
    fields ← lift (match_fields attack)
    insert_p4_table_entry write "data_drop_t" "data_drop" fields none

  unfoldable pub stop_attack : AttackRequest → Exec P4Switch (Unit {0})
  unfolding parse_attack delete_p4_table_entry
  stop_attack attack = do
    fields ← lift (match_fields attack)
    delete_p4_table_entry write "data_drop_t" "data_drop" fields

  -- the entry of the inspection table, with the parameters where it is inserted
  abbrev inspection : FieldValue → Option (Dict String FieldValue) → P4Switch → Entry
  inspection dev_mac params s = record {
    table_name = dotted s.p4_ingress "data_inspection_t";
    match_fields = ("hdr.ethernet.src_mac", dev_mac) ∷ [];
    action_name = dotted s.p4_ingress "data_inspect_packet";
    action_params = params;
  }

  unfoldable pub add_data_inspection : ℤ → Option String → Exec P4Switch (Unit {0})
  unfolding write_to_table
  add_data_inspection dev_id dev_mac s =
      let params : Dict String FieldValue =
        ("device", number dev_id) ∷ ("switch_id", number s.int_device_id) ∷ [] in
      write_to_table write (insert (inspection (text_of dev_mac) (some params) s)) s

  unfoldable pub del_data_inspection : ℤ → Option String → Exec P4Switch (Unit {0})
  unfolding write_to_table
  del_data_inspection dev_id dev_mac s =
      write_to_table write (delete (inspection (text_of dev_mac) none s)) s

-- ===== src/Barefoot/Aggregate.antt =====
-- `AggregateSwitch` of trans_sec/bfruntime_lib/aggregate_switch.py.
use transparent_security.Prelude.{String, true, false, Option, none, some, List, [], ◌∷◌}
use transparent_security.Prelude.Equality.{string_eq}
use transparent_security.Prelude.Dict.{get}
use transparent_security.Prelude.Result.{Result, ok, err}
use transparent_security.Prelude.Exec.{Exec, lift, ◌>>=◌}
use transparent_security.Consts.{udp_int_dst_port}
use transparent_security.Convert.{ℤ, pos}
use transparent_security.External.{IpAddress}
use transparent_security.Controller.Switches.{AttackRequest}
use transparent_security.P4Switch.{FieldValue, text_of, int_of}
use transparent_security.P4Switch.Aggregate.{parse_attack}
use transparent_security.Barefoot.Client.{
  Datum, text, missing, number, Fields, default, Server, Switch, send,
}
use transparent_security.Barefoot.{
  with_table, insert_table_entry, delete_table_entry, unless_present,
}

abbrev pub datum : FieldValue → Datum
datum (FieldValue.text s) = text s
datum FieldValue.missing = missing
datum (FieldValue.number n) = number n

-- The keys of a drop entry, as `create_attack_hash` takes them.
pub record DropKeys : Type 0 where
  pub mac : Datum
  pub port : Datum
  pub ip_addr : Datum
  pub ipv6_addr : Datum

unfoldable pub map_drop_tbl_keys : Fields → Option DropKeys
map_drop_tbl_keys match_keys = elim (get "hdr.ethernet.src_mac" match_keys) [
  | none ↦ none
  | some mac ↦ elim (get "meta.dst_port" match_keys) [
    | none ↦ none
    | some port ↦ elim (get "meta.ipv4_addr" match_keys) [
      | none ↦ none
      | some ipv4 ↦ elim (get "meta.ipv6_addr" match_keys) [
        | none ↦ none
        | some ipv6 ↦ some (record { mac = mac; port = port; ip_addr = ipv4; ipv6_addr = ipv6 })
      ]
    ]
  ]
]

-- The entries up to the first that lacks a key or a counter, whose KeyError ends the loop.
unfoldable pub drops_of : List (Fields × Fields) → List (DropKeys × Datum)
unfolding map_drop_tbl_keys
drops_of [] = []
drops_of ((values, key) ∷ entries) = elim (map_drop_tbl_keys key) [
  | none ↦ []
  | some keys ↦ elim (get "$COUNTER_SPEC_PKTS" values) [
    | none ↦ []
    | some packets ↦ (keys, packets) ∷ drops_of entries
  ]
]

module _ {D : Type 0} (server : Server D) where
  unfoldable pub add_data_inspection : ℤ → Datum → Exec (Switch D) (Unit {0})
  unfolding insert_table_entry
  add_data_inspection dev_id dev_mac s =
      insert_table_entry server "TpsAggEgress.data_inspection_t" "TpsAggEgress.data_inspect_packet"
        (("hdr.ethernet.src_mac", dev_mac) ∷ [])
        (("device", number dev_id) ∷ ("switch_id", number s.int_device_id) ∷ []) s

  unfoldable pub del_data_inspection : ℤ → Datum → Exec (Switch D) (Unit {0})
  unfolding delete_table_entry
  del_data_inspection dev_id dev_mac =
      delete_table_entry server "TpsAggEgress.data_inspection_t"
        (("hdr.ethernet.src_mac", dev_mac) ∷ [])

  unfoldable pub update_default_port : ℤ → Exec (Switch D) (Unit {0})
  unfolding send with_table
  update_default_port dflt_port = with_table server "TpsAggIngress.default_port_t" (
      send server (
        default "TpsAggIngress.default_port_t" (some "TpsAggIngress.get_default_port")
          (("port", number dflt_port) ∷ [])))

  unfoldable pub add_data_forward : Datum → ℤ → Exec (Switch D) (Unit {0})
  unfolding insert_table_entry
  add_data_forward dst_mac ingress_port =
      insert_table_entry server "TpsAggIngress.data_forward_t" "TpsAggIngress.data_forward"
        (("hdr.ethernet.dst_mac", dst_mac) ∷ []) (("port", number ingress_port) ∷ [])

  unfoldable pub del_data_forward : Datum → Exec (Switch D) (Unit {0})
  unfolding delete_table_entry
  del_data_forward dst_mac =
      delete_table_entry server "TpsAggIngress.data_forward_t"
        (("hdr.ethernet.dst_mac", dst_mac) ∷ [])

  unfoldable pub add_switch_id : Exec (Switch D) (Unit {0})
  unfolding insert_table_entry
  add_switch_id s =
      unless_present server
        (insert_table_entry server "TpsAggEgress.add_switch_id_t" "TpsAggEgress.add_switch_id"
          (("hdr.udp_int.dst_port", number (pos udp_int_dst_port)) ∷ [])
          (("switch_id", number s.int_device_id) ∷ []))
        s

  -- What is raised is logged.
  unfoldable pub get_drop_pkt_count : Switch D → Result (List (DropKeys × Datum))
  unfolding drops_of
  get_drop_pkt_count s = elim (server.get_table "TpsAggIngress.data_drop_t") [
    | err e ↦ err e
    | ok false ↦ ok []
    | ok true ↦ elim (server.read "TpsAggIngress.data_drop_t" [] s.server) [
      | err e ↦ ok []
      | ok entries ↦ ok (drops_of entries)
    ]
  ]

  module _ (ipaddress : IpAddress) (int : String → Result ℤ) where
    -- The key that `add_attack` writes
    unfoldable pub drop_key : AttackRequest → Result Fields
    unfolding parse_attack
    drop_key attack = elim (parse_attack ipaddress int (λ u. ok tt) attack) [
      | err e ↦ err e
      | ok (dst_ipv4, dst_ipv6) ↦ elim (int_of int attack.dst_port) [
        | err e ↦ err e
        | ok dst_port ↦ ok (
            ("hdr.ethernet.src_mac", datum (text_of attack.src_mac))
            ∷ ("meta.ipv4_addr", datum dst_ipv4)
            ∷ ("meta.ipv6_addr", datum dst_ipv6)
            ∷ ("meta.dst_port", number dst_port)
            ∷ [])
      ]
    ]

    -- The key that `stop_attack` deletes, built by code of its own
    unfoldable pub stop_key : AttackRequest → Result Fields
    unfolding parse_attack
    stop_key attack = elim (parse_attack ipaddress int (λ u. ok tt) attack) [
      | err e ↦ err e
      | ok (dst_ipv4, dst_ipv6) ↦ elim (int_of int attack.dst_port) [
        | err e ↦ err e
        | ok dst_port ↦ ok (
            ("hdr.ethernet.src_mac", datum (text_of attack.src_mac))
            ∷ ("meta.ipv4_addr", datum dst_ipv4)
            ∷ ("meta.ipv6_addr", datum dst_ipv6)
            ∷ ("meta.dst_port", number dst_port)
            ∷ [])
      ]
    ]

    unfoldable pub add_attack : AttackRequest → Exec (Switch D) (Unit {0})
    unfolding drop_key insert_table_entry
    add_attack attack = lift (drop_key attack) >>= λ key.
        insert_table_entry server "TpsAggIngress.data_drop_t" "TpsAggIngress.data_drop" key []

    unfoldable pub stop_attack : AttackRequest → Exec (Switch D) (Unit {0})
    unfolding stop_key delete_table_entry
    stop_attack attack =
        lift (stop_key attack) >>= λ key. delete_table_entry server "TpsAggIngress.data_drop_t" key

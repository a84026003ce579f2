-- ===== src/P4Runtime.antt =====
-- The switches of trans_sec/p4runtime_lib/p4rt_switch.py: entries are built from the description of
-- the P4 program and sent to the device, and tables are read back from it.
pub mod Stub
pub mod Writing
pub mod Forwarding
pub mod Core
pub mod Aggregate
pub mod Gateway
pub mod Targets
pub mod NatPorts
pub mod Exhausted
use mathlib.Core.List.{reverse}
use transparent_security.Prelude.{
  ℕ, String, Bool, true, false, not, ◌||◌, Option, none, some, List, [], ◌∷◌, ◌++◌, if◌then◌else◌,
}
use transparent_security.Prelude.Equality.{◌==◌, nat_eq, string_eq, list_eq}
use transparent_security.Prelude.Dict.{Dict}
use transparent_security.Prelude.Result.{Result, ok, err, index_error}
use transparent_security.Prelude.Exec.{Exec, pure, lift, gets, ◌>>=◌, ◌>>◌}
use transparent_security.Convert.{ℤ, pos, negsuc, Value, str, int, other, decode_num}
use transparent_security.Convert.Macs.{decode_mac}
use transparent_security.AttackHash.{codes}
use transparent_security.P4Switch.{dotted}
use transparent_security.P4Info.{tables, get_id, get_match_field_name}
use transparent_security.P4Info.Building.{
  Library, MatchValue, scalar, Arguments, TableEntry, build_table_entry,
}
use transparent_security.P4Info.Engine.{
  build_clone_entry, build_multicast_group_entry, build_digest_entry,
}
use transparent_security.P4Runtime.Stub.{
  Change, insert, delete, engine, digest, Entity, Device, Switch, write_change,
}

abbrev pub text_value : String → Value
text_value s = str (codes s)

-- A dict of match fields or of parameters with one key.
abbrev pub only {ℓ} : {V : Type ℓ} → String → V → Dict String V
only key v = (key, v) ∷ []

module _ {D : Type 0} (l : Library) (device : Device D) where
  -- `build_table_entry` for a table and an action of a block of the program
  unfoldable pub build_entry :
      String
      → String
      → Dict String MatchValue
      → String
      → Dict String Value
      → Exec (Switch D) TableEntry
  unfolding build_table_entry
  build_entry block table_name match_fields action_name action_params s = (
    build_table_entry l s.info (record {
      table_name = dotted block table_name;
      match_fields = match_fields;
      default_action = false;
      action_name = some (dotted block action_name);
      action_params = action_params;
      priority = none;
    }),
    s,
  )

  unfoldable pub write_table_entry : TableEntry → Exec (Switch D) (Unit {0})
  unfolding write_change
  write_table_entry table_entry = write_change device (insert table_entry)

  unfoldable pub delete_table_entry : TableEntry → Exec (Switch D) (Unit {0})
  unfolding write_change
  delete_table_entry table_entry = write_change device (delete table_entry)

  -- The matches of one entity, from the last on; the first `pop` is not guarded.
  unfoldable field_values : String → Entity → Switch D → Result (Dict String (List ℕ))
  unfolding get_match_field_name
  field_values table_name [] s = ok []
  field_values table_name ((field_id, value) ∷ matches) s =
      elim (get_match_field_name s.info table_name field_id) [
        | err e ↦ err e
        | ok name ↦ elim (field_values table_name matches s) [
          | err e ↦ err e
          | ok values ↦ ok ((name, value) ∷ values)
        ]
      ]

  abbrev entity_values : String → Entity → Switch D → Result (Dict String (List ℕ))
  entity_values table_name [] s = err index_error
  entity_values table_name (m ∷ matches) s = field_values table_name (reverse (m ∷ matches)) s

  unfoldable all_values : String → List Entity → Switch D → Result (Dict String (List ℕ))
  unfolding field_values
  all_values table_name [] s = ok []
  all_values table_name (entity ∷ entities) s = elim (entity_values table_name entity s) [
    | err e ↦ err e
    | ok values ↦ elim (all_values table_name entities s) [
      | err e ↦ err e
      | ok others ↦ ok (values ++ others)
    ]
  ]

  -- The dicts of the list have one key each.
  unfoldable pub get_match_values : String → Switch D → Result (Dict String (List ℕ))
  unfolding all_values get_id
  get_match_values table_name s = elim (get_id s.info tables table_name) [
    | err e ↦ err e
    | ok table_id ↦ elim (device.read table_id s.device) [
      | err e ↦ err e
      | ok entities ↦ all_values table_name entities s
    ]
  ]

  unfoldable pub macs_of : String → Dict String (List ℕ) → List (Option (List ℕ))
  unfolding decode_mac
  macs_of field [] = []
  macs_of field ((key, value) ∷ values) =
      let macs = macs_of field values in if key == field then decode_mac value ∷ macs else macs

  abbrev pub read_macs : String → String → Switch D → Result (List (Option (List ℕ)))
  read_macs table_name field s = elim (get_match_values (dotted s.p4_ingress table_name) s) [
    | err e ↦ err e
    | ok values ↦ ok (macs_of field values)
  ]

  unfoldable pub get_data_forward_macs : Switch D → Result (List (Option (List ℕ)))
  unfolding get_match_values macs_of
  get_data_forward_macs s = read_macs "data_forward_t" "hdr.ethernet.dst_mac" s

  unfoldable pub get_data_inspection_src_mac_keys : Switch D → Result (List (Option (List ℕ)))
  unfolding get_match_values macs_of
  get_data_inspection_src_mac_keys s = read_macs "data_inspection_t" "hdr.ethernet.src_mac" s

  -- `dst_mac in table_keys`
  abbrev pub is_key : List ℕ → List (Option (List ℕ)) → Bool
  is_key dst_mac [] = false
  is_key dst_mac (none ∷ keys) = is_key dst_mac keys
  is_key dst_mac (some mac ∷ keys) = mac == dst_mac || is_key dst_mac keys

  abbrev pub port_value : Option ℤ → Value
  port_value none = other false
  port_value (some n) = int n

  -- `not egress_port`
  abbrev pub no_port : Option ℤ → Bool
  no_port none = true
  no_port (some (pos n)) = n == 0
  no_port (some (negsuc n)) = false

  abbrev pub forward_params : Option ℤ → Switch D → Dict String Value
  forward_params egress_port s =
      if s.is_gateway
      then ("port", port_value egress_port) ∷ ("switch_mac", text_value s.mac) ∷ []
      else only "port" (port_value egress_port)

  -- An entry of data_forward_t
  unfoldable pub forward_entry : List ℕ → Dict String Value → Exec (Switch D) TableEntry
  unfolding build_entry
  forward_entry dst_mac action_params s =
      build_entry s.p4_ingress "data_forward_t" (only "hdr.ethernet.dst_mac" (scalar (str dst_mac)))
        "data_forward" action_params s

  abbrev made : Exec (Switch D) TableEntry → Exec (Switch D) (Option TableEntry)
  made m = do table_entry ← m; pure (some table_entry)

  -- by whether the MAC is a key of the table
  abbrev pub entry_by_key : Bool → List ℕ → Option ℤ → Exec (Switch D) (Option TableEntry)
  entry_by_key false dst_mac egress_port s =
      made (forward_entry dst_mac (forward_params egress_port s)) s
  entry_by_key true dst_mac egress_port s =
      if no_port egress_port then made (forward_entry dst_mac []) s else (ok none, s)

  unfoldable pub get_data_forward_table_entry :
      List ℕ → Option ℤ → Exec (Switch D) (Option TableEntry)
  unfolding get_data_forward_macs forward_entry
  get_data_forward_table_entry dst_mac egress_port s =
      (lift (get_data_forward_macs s) >>= λ table_keys.
      entry_by_key (is_key dst_mac table_keys) dst_mac egress_port)
        s

  abbrev pub if_entry :
      (TableEntry → Exec (Switch D) (Unit {0})) → Option TableEntry → Exec (Switch D) Bool
  if_entry act none = pure false
  if_entry act (some table_entry) = act table_entry >> pure true

  unfoldable pub add_data_forward : List ℕ → Option ℤ → Exec (Switch D) Bool
  unfolding get_data_forward_table_entry write_table_entry
  add_data_forward dst_mac egress_port =
      get_data_forward_table_entry dst_mac egress_port >>= if_entry write_table_entry

  unfoldable pub del_data_forward : List ℕ → Exec (Switch D) Bool
  unfolding get_data_forward_table_entry delete_table_entry
  del_data_forward dst_mac =
      get_data_forward_table_entry dst_mac none >>= if_entry delete_table_entry

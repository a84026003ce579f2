-- ===== src/P4Runtime/Writing.antt =====
-- The other entries that trans_sec/p4runtime_lib/p4rt_switch.py writes: inspection, ARP flooding, clone
-- sessions, multicast groups and digests, and the MAC addresses that it learns from digests.
use transparent_security.Prelude.{ℕ, String, Bool, Option, none, some, List, [], ◌∷◌}
use transparent_security.Prelude.Lists.{get_elem?}
use transparent_security.Prelude.Dict.{Dict}
use transparent_security.Prelude.Result.{Result, ok, err, index_error}
use transparent_security.Prelude.Exec.{Exec, pure, lift, ◌>>=◌, ◌>>◌}
use transparent_security.Convert.{ℤ, pos, Value, int, decode_num}
use transparent_security.Convert.Macs.{decode_mac}
use transparent_security.P4Info.Building.{Library, MatchValue, scalar, TableEntry}
use transparent_security.P4Info.Engine.{
  EngineEntry, build_clone_entry, build_multicast_group_entry, build_digest_entry,
}
use transparent_security.P4Runtime.Stub.{
  Device, Switch, engine, remove_engine, digest, write_change,
}
use transparent_security.P4Runtime.{
  text_value, only, build_entry, write_table_entry, delete_table_entry,
}

-- What a digest carries: the bit strings of a struct, or something else.
pub data Members : Type 0 where
  struct_of : List (List ℕ) → Members
  no_struct : Members

module _ {D : Type 0} (l : Library) (device : Device D) where
  -- An entry of data_inspection_t
  unfoldable pub inspection_entry :
      String → MatchValue → Dict String Value → Exec (Switch D) TableEntry
  unfolding build_entry
  inspection_entry key value action_params s =
      build_entry l device s.p4_ingress "data_inspection_t" (only key value) "data_inspect_packet"
        action_params s

  unfoldable pub add_data_inspection : Value → Value → Exec (Switch D) (Unit {0})
  unfolding inspection_entry write_table_entry
  add_data_inspection dev_id dev_mac s =
      (inspection_entry "hdr.ethernet.src_mac" (scalar dev_mac)
            (("device", int s.int_device_id) ∷ ("switch_id", int (pos s.device_id)) ∷ [])
          >>= write_table_entry l device)
        s

  unfoldable pub del_data_inspection : Value → Value → Exec (Switch D) (Unit {0})
  unfolding inspection_entry delete_table_entry
  del_data_inspection dev_id dev_mac =
      inspection_entry "hdr.ethernet.src_mac" (scalar dev_mac) [] >>= delete_table_entry l device

  unfoldable pub write_arp_flood : Exec (Switch D) (Unit {0})
  unfolding build_entry write_table_entry
  write_arp_flood s =
      (build_entry l device s.p4_ingress "arp_flood_t"
            (only "hdr.ethernet.dst_mac" (scalar (text_value "ff:ff:ff:ff:ff:ff"))) "arp_flood" []
          >>= write_table_entry l device)
        s

  unfoldable pub write_clone_entries : ℤ → Exec (Switch D) (Unit {0})
  unfolding write_change
  write_clone_entries port = write_change device (engine (build_clone_entry port))

  unfoldable pub delete_clone_entries : EngineEntry → Exec (Switch D) (Unit {0})
  unfolding write_change
  delete_clone_entries pre_entry = write_change device (remove_engine pre_entry)

  abbrev write_group :
      (Value → Result ℤ) → Option (List (Dict String Value)) → Exec (Switch D) (Unit {0})
  write_group as_int none = pure tt
  write_group as_int (some []) = pure tt
  write_group as_int (some (replica ∷ replicas)) = do
    entry ← lift (build_multicast_group_entry as_int 1 (replica ∷ replicas))
    write_change device (engine entry)

  -- The group of the topology, if it has one with replicas; `as_int` is Python's `int`.
  unfoldable pub write_multicast_entry : (Value → Result ℤ) → Exec (Switch D) (Unit {0})
  unfolding write_change build_multicast_group_entry
  write_multicast_entry as_int s = write_group as_int s.multicast_entries s

  -- `start_digest_listeners` up to the start of the thread
  unfoldable pub request_digests : String → Exec (Switch D) (Unit {0})
  unfolding write_change build_digest_entry
  request_digests digest_name s =
      (do
        (digest_entry, digest_info) ← lift (build_digest_entry s.info digest_name)
        write_change device (digest digest_entry))
        s

  abbrev pub bitstring : ℕ → List (List ℕ) → Result (List ℕ)
  bitstring i members = elim (get_elem? members i) [ none ↦ err index_error | some bs ↦ ok bs ]

  module _ (add_data_forward : List ℕ → Option ℤ → Exec (Switch D) Bool) where
    abbrev learn_port : List (List ℕ) → Option (List ℕ) → Exec (Switch D) (Unit {0})
    learn_port members none = pure tt
    learn_port members (some []) = pure tt
    learn_port members (some (c ∷ mac)) = do
      port ← lift (bitstring 1 members)
      ingress_port ← lift (decode_num port)
      inserted ← add_data_forward (c ∷ mac) (some (pos ingress_port))
      pure tt

    abbrev learn : Members → Exec (Switch D) (Unit {0})
    learn no_struct = pure tt
    learn (struct_of members) = do
      mac ← lift (bitstring 0 members)
      learn_port members (decode_mac mac)

    -- `add_data_forward` is that of the switch's class.
    unfoldable pub interpret_digest : List Members → Exec (Switch D) (Unit {0})
    unfolding decode_mac decode_num
    interpret_digest [] = pure tt
    interpret_digest (members ∷ digest_data) = learn members >> interpret_digest digest_data

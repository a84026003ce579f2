-- ===== src/P4Runtime/Core.antt =====
-- `CoreSwitch` of trans_sec/p4runtime_lib/core_switch.py.
use transparent_security.Prelude.{String, Bool, true, false, Option, List, [], ℕ}
use transparent_security.Prelude.Result.{Result}
use transparent_security.Prelude.Exec.{Exec, pure, lift, catch, ◌>>=◌, ◌>>◌}
use transparent_security.Convert.{ℤ, pos, Value, str, int}
use transparent_security.Consts.{udp_int_dst_port}
use transparent_security.P4Info.Building.{Library, MatchValue, scalar, TableEntry}
use transparent_security.P4Runtime.Stub.{Device, Switch}
use transparent_security.P4Runtime.Writing.{inspection_entry, write_arp_flood}
use transparent_security.P4Runtime.Writing
use transparent_security.P4Runtime.{
  text_value, only, port_value, build_entry, write_table_entry, delete_table_entry,
}
use transparent_security.P4Runtime

abbrev pub int_port : MatchValue
int_port = scalar (int (pos udp_int_dst_port))

module _ {D : Type 0} (l : Library) (device : Device D) where
  -- A group that cannot be written is logged.
  unfoldable pub write_multicast_entry : (Value → Result ℤ) → Exec (Switch D) (Unit {0})
  unfolding Writing.write_multicast_entry write_arp_flood
  write_multicast_entry as_int s =
      ((λ t. catch (Writing.write_multicast_entry l device as_int t) (λ e. pure tt))
          >> write_arp_flood l device)
        s

  unfoldable pub arp_entry : List ℕ → Option ℤ → Exec (Switch D) TableEntry
  unfolding build_entry
  arp_entry dst_mac egress_port s =
      build_entry l device s.p4_ingress "arp_forward_t"
        (only "hdr.ethernet.dst_mac" (scalar (str dst_mac))) "arp_forward"
        (only "port" (port_value l device egress_port)) s

  abbrev if_inserted : Bool → Exec (Switch D) (Unit {0}) → Exec (Switch D) (Unit {0})
  if_inserted true m = m
  if_inserted false m = pure tt

  -- It returns None, whether an entry was inserted or not.
  unfoldable pub add_data_forward : List ℕ → Option ℤ → Exec (Switch D) (Unit {0})
  unfolding P4Runtime.add_data_forward arp_entry write_table_entry
  add_data_forward dst_mac egress_port = do
    inserted ← P4Runtime.add_data_forward l device dst_mac egress_port
    if_inserted inserted (arp_entry dst_mac egress_port >>= write_table_entry l device)

  unfoldable pub add_data_inspection : Value → Value → Exec (Switch D) (Unit {0})
  unfolding inspection_entry write_table_entry
  add_data_inspection dev_id dev_mac s =
      (inspection_entry l device "hdr.udp_int.dst_port" int_port
            (only "switch_id" (int s.int_device_id))
          >>= write_table_entry l device)
        s

  unfoldable pub del_data_inspection : Value → Value → Exec (Switch D) (Unit {0})
  unfolding inspection_entry delete_table_entry
  del_data_inspection dev_id dev_mac =
      inspection_entry l device "hdr.udp_int.dst_port" int_port [] >>= delete_table_entry l device

  -- `gethostbyname` is that of `socket`.
  unfoldable pub setup_telemetry_rpt :
      (String → Result String) → String → Exec (Switch D) (Unit {0})
  unfolding build_entry write_table_entry
  setup_telemetry_rpt gethostbyname ae_ip s =
      (do
        ae_ip_addr ← lift (gethostbyname ae_ip)
        table_entry ←
            build_entry l device s.p4_egress "setup_telemetry_rpt_t"
              (only "hdr.udp_int.dst_port" int_port) "setup_telem_rpt_ipv4"
              (only "ae_ip" (text_value ae_ip_addr))
        write_table_entry l device table_entry)
        s

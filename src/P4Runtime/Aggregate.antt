-- ===== src/P4Runtime/Aggregate.antt =====
-- The set-up of `AggregateSwitch` of trans_sec/p4runtime_lib/aggregate_switch.py.
use transparent_security.Prelude.Result.{Result}
use transparent_security.Prelude.Exec.{Exec, ◌>>=◌, ◌>>◌}
use transparent_security.Convert.{ℤ, Value, int}
use transparent_security.P4Info.Building.{Library}
use transparent_security.P4Runtime.Stub.{Device, Switch}
use transparent_security.P4Runtime.Writing.{write_arp_flood}
use transparent_security.P4Runtime.Writing
use transparent_security.P4Runtime.Core.{int_port}
use transparent_security.P4Runtime.{only, build_entry, write_table_entry}

module _ {D : Type 0} (l : Library) (device : Device D) where
  unfoldable pub write_multicast_entry : (Value → Result ℤ) → Exec (Switch D) (Unit {0})
  unfolding Writing.write_multicast_entry write_arp_flood
  write_multicast_entry as_int =
      Writing.write_multicast_entry l device as_int >> write_arp_flood l device

  unfoldable pub add_switch_id : Exec (Switch D) (Unit {0})
  unfolding build_entry write_table_entry
  add_switch_id s =
      (build_entry l device s.p4_ingress "add_switch_id_t" (only "hdr.udp_int.dst_port" int_port)
            "add_switch_id" (only "switch_id" (int s.int_device_id))
          >>= write_table_entry l device)
        s

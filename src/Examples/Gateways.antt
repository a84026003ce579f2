-- ===== src/Examples/Gateways.antt =====
-- Runs of the P4Runtime switches on a device whose tables hold one MAC address.
use transparent_security.Prelude.{◌≡◌, refl, sym, true, false, none, some, [], ◌∷◌, arith}
use transparent_security.Prelude.Equality.{nat_eq, string_eq, list_beq}
use transparent_security.Prelude.Result.{Exception, ok, err}
use transparent_security.Convert.{pos, str}
use transparent_security.Convert.Macs.{decode_mac}
use transparent_security.Convert.{without}
use transparent_security.AttackHash.{codes}
use transparent_security.P4Info.{
  P4Info, Param, exact, get_match_field_name, get_id, get_action_param,
}
use transparent_security.P4Runtime.Stub.{Device, Switch}
use transparent_security.P4Runtime.{
  del_data_forward, get_match_values, get_data_forward_macs, macs_of,
}
use transparent_security.P4Runtime.Forwarding.{HasKey, del_data_forward-unknown}
use transparent_security.P4Runtime.Gateway.{Nat, add_nat_table}
use transparent_security.P4Runtime.Exhausted.{IsPortSized, add_nat_table-exhausted}
use transparent_security.Examples.Programs.{library}

abbrev port : Param
port = record { id = 1; name = "src_port"; bitwidth = 16 }

abbrev program : P4Info
program = record {
  tables =
      record {
        preamble = record { id = 33; name = "In.data_forward_t"; alias = "data_forward_t" };
        match_fields =
            record { id = 1; name = "hdr.ethernet.dst_mac"; bitwidth = 48; match_type = exact }
            ∷ [];
      }
      ∷ [];
  actions =
      record {
        preamble = record { id = 17; name = "In.udp_local_to_global"; alias = "to_global" };
        params = port ∷ [];
      }
      ∷ [];
  digests = [];
}

abbrev stub : Device (Unit {0})
stub = record {
  write = λ c d. (ok tt, d);
  read = λ table_id d. ok (((1, 0 ∷ 17 ∷ 200 ∷ []) ∷ []) ∷ []);
}

abbrev switch : Switch (Unit {0})
switch = record {
  info = program;
  mac = "00:00:00:00:00:01";
  is_gateway = true;
  device_id = 3;
  int_device_id = pos 3;
  p4_ingress = "In";
  p4_egress = "Out";
  multicast_entries = none;
  device = tt;
}

switch-HasKey : HasKey library stub (codes "00:11:c8") true switch
unfolding get_data_forward_macs get_match_values get_match_field_name get_id macs_of decode_mac
    without list_beq
switch-HasKey = record { keys = some (codes "00:11:c8") ∷ []; read = refl; known_is = refl }

switch-unknown : HasKey library stub (codes "00:11:c9") false switch
unfolding get_data_forward_macs get_match_values get_match_field_name get_id macs_of decode_mac
    without list_beq
switch-unknown = record { keys = some (codes "00:11:c8") ∷ []; read = refl; known_is = refl }

del_data_forward-unknown_example :
    (e : Exception) × (del_data_forward library stub (codes "00:11:c9") switch ≡ (err e, switch))
del_data_forward-unknown_example =
    del_data_forward-unknown library stub (codes "00:11:c9") switch switch-unknown

abbrev nat : Nat
nat = record {
  public_ip = str (codes "10.1.0.1");
  udp = record { port_count = 100; known = 5000 ∷ [] };
  tcp = record { port_count = 1; known = [] };
}

switch-IsPortSized : IsPortSized library stub switch
unfolding get_action_param
switch-IsPortSized param found = let same : port ≡ param = cc in rw (sym same) (omega arith)

add_nat_table-exhausted_example :
    (e : Exception) × (add_nat_table library stub 5001 0 (str (codes "10.0.0.9")) (switch, nat)
      ≡ (err e, (switch, nat)))
add_nat_table-exhausted_example =
    add_nat_table-exhausted library stub 5001 0 (str (codes "10.0.0.9")) switch nat refl
      (omega arith) switch-IsPortSized

-- ===== src/Examples/Dropping.antt =====
-- Runs of trans_sec/p4runtime_lib/gateway_switch.py on a switch that takes every update.
use transparent_security.Prelude.{◌≡◌, refl, String, some, []}
use transparent_security.Prelude.Result.{Result, ok}
use transparent_security.Convert.{ℤ, pos}
use transparent_security.External.{IpAddress}
use transparent_security.Controller.Switches.{AttackRequest}
use transparent_security.P4Switch.{
  P4Switch, Update, ip_of, int_of, write_to_table, insert_p4_table_entry,
}
use transparent_security.P4Switch.Gateway.{add_attack, stop_attack, parse_attack, match_fields}
use transparent_security.P4Switch.Reverts.{IsReverted, stop_attack-reverts}

abbrev text_address : IpAddress
text_address = record {
  Address = String;
  ip_address = λ s. ok s;
  version = λ s. 4;
  str = λ s. s;
  exploded = λ s. s;
}

abbrev port_80 : String → Result ℤ
port_80 s = ok (pos 80)

abbrev takes_all : Update → Result (Unit {0})
takes_all u = ok tt

abbrev gateway : P4Switch
gateway = record {
  device_id = pos 3;
  int_device_id = pos 3;
  p4_ingress = "TpsGwIngress";
  writes = [];
}

abbrev flood : AttackRequest
flood = record {
  src_mac = some "00:11";
  src_ip = some "10.0.0.2";
  dst_ip = some "10.0.0.1";
  dst_port = some "80";
}

stop_attack-reverts_example :
    let added = (add_attack text_address port_80 takes_all flood gateway).1 in
    ((stop_attack text_address port_80 takes_all flood added).0 ≡ ok tt)
    × IsReverted gateway added (stop_attack text_address port_80 takes_all flood added).1
unfolding add_attack parse_attack match_fields ip_of int_of insert_p4_table_entry write_to_table
stop_attack-reverts_example =
    stop_attack-reverts text_address port_80 takes_all flood gateway (λ u. refl) refl

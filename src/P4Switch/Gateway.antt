-- ===== src/P4Switch/Gateway.antt =====
-- The attack tables of trans_sec/p4runtime_lib/gateway_switch.py.
use transparent_security.Prelude.{String, some, [], ◌∷◌, if◌then◌else◌}
use transparent_security.Prelude.Equality.{◌==◌, nat_eq}
use transparent_security.Prelude.Dict.{Dict}
use transparent_security.Prelude.Result.{Result, ok, err}
use transparent_security.Prelude.Exec.{Exec, lift, ◌>>=◌, ◌>>◌}
use transparent_security.Convert.{ℤ}
use transparent_security.External.{IpAddress}
use transparent_security.Controller.Switches.{AttackRequest}
use transparent_security.P4Switch.{
  FieldValue, text, number, Update, P4Switch, text_of, ip_of, int_of, insert_p4_table_entry,
  delete_p4_table_entry,
}

module _ (ipaddress : IpAddress) (int : String → Result ℤ)
    (write : Update → Result (Unit {0})) where
  open ipaddress use {Address, version, exploded}

  -- The versions of addresses are 4 and 6.
  abbrev by_version : {A : Type 0} → Address → A → A → A
  by_version ip ipv4 ipv6 = if version ip == 6 then ipv6 else ipv4

  -- `parse_attack` of GatewaySwitch: the tables for UDP and TCP, the destination and its field
  unfoldable pub parse_attack : AttackRequest → Result (String × String × String × String)
  parse_attack attack = elim (ip_of ipaddress attack.src_ip) [
    | err e ↦ err e
    | ok src_ip ↦ elim (ip_of ipaddress attack.dst_ip) [
      | err e ↦ err e
      | ok dst_ip ↦ ok (
        by_version dst_ip "data_drop_udp_ipv4_t" "data_drop_udp_ipv6_t",
        by_version dst_ip "data_drop_tcp_ipv4_t" "data_drop_tcp_ipv6_t",
        exploded dst_ip,
        by_version dst_ip "hdr.ipv4.dstAddr" "hdr.ipv6.dstAddr",
      )
    ]
  ]

  unfoldable pub match_fields :
      AttackRequest → String → String → String → Result (Dict String FieldValue)
  match_fields attack dst_addr_key dst_ip port_key = elim (int_of int attack.dst_port) [
    | err e ↦ err e
    | ok dst_port ↦ ok (
        ("hdr.ethernet.src_mac", text_of attack.src_mac)
        ∷ (dst_addr_key, text dst_ip)
        ∷ (port_key, number dst_port)
        ∷ [])
  ]

  unfoldable pub add_attack : AttackRequest → Exec P4Switch (Unit {0})
  unfolding parse_attack match_fields insert_p4_table_entry
  add_attack attack s =
      (do
        (udp_tn, tcp_tn, dst_ip, dst_addr_key) ← lift (parse_attack attack)
        udp_fields ← lift (match_fields attack dst_addr_key dst_ip "hdr.udp.dst_port")
        insert_p4_table_entry write udp_tn "data_drop" udp_fields
            (some (("device", number s.device_id) ∷ []))
        tcp_fields ← lift (match_fields attack dst_addr_key dst_ip "hdr.tcp.dst_port")
        insert_p4_table_entry write tcp_tn "data_drop" tcp_fields
            (some (("device", number s.device_id) ∷ [])))
        s

  unfoldable pub stop_attack : AttackRequest → Exec P4Switch (Unit {0})
  unfolding parse_attack match_fields delete_p4_table_entry
  stop_attack attack = do
    (udp_tn, tcp_tn, dst_ip, dst_addr_key) ← lift (parse_attack attack)
    udp_fields ← lift (match_fields attack dst_addr_key dst_ip "hdr.udp.dst_port")
    delete_p4_table_entry write udp_tn "data_drop" udp_fields
    tcp_fields ← lift (match_fields attack dst_addr_key dst_ip "hdr.tcp.dst_port")
    delete_p4_table_entry write tcp_tn "data_drop" tcp_fields

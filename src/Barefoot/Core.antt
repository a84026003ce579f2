-- ===== src/Barefoot/Core.antt =====
-- `CoreSwitch` of trans_sec/bfruntime_lib/core_switch.py.
use transparent_security.Prelude.{ℕ, String, none, some, List, [], ◌∷◌, true, if◌then◌else◌}
use transparent_security.Prelude.Equality.{◌==◌, nat_eq}
use transparent_security.Prelude.Exec.{Exec, lift, ◌>>=◌}
use transparent_security.Consts.{udp_int_dst_port}
use transparent_security.Convert.{ℤ, pos}
use transparent_security.External.{IpAddress}
use transparent_security.Barefoot.Client.{
  Datum, text, number, flag, packed, add, default, Server, Switch, send,
}
use transparent_security.Barefoot.{
  with_table, insert_table_entry, delete_table_entry, unless_present,
}

module _ {D : Type 0} (server : Server D) where
  unfoldable pub update_default_port : ℤ → Exec (Switch D) (Unit {0})
  unfolding send with_table
  update_default_port dflt_port = with_table server "TpsCoreIngress.default_port_t" (
      send server (
        default "TpsCoreIngress.default_port_t" (some "TpsCoreIngress.get_default_port")
          (("port", number dflt_port) ∷ [])))

  unfoldable pub add_data_forward : Datum → ℤ → Exec (Switch D) (Unit {0})
  unfolding insert_table_entry
  add_data_forward dst_mac ingress_port =
      insert_table_entry server "TpsCoreIngress.data_forward_t" "TpsCoreIngress.data_forward"
        (("hdr.ethernet.dst_mac", dst_mac) ∷ []) (("port", number ingress_port) ∷ [])

  unfoldable pub del_data_forward : Datum → Exec (Switch D) (Unit {0})
  unfolding delete_table_entry
  del_data_forward dst_mac =
      delete_table_entry server "TpsCoreIngress.data_forward_t"
        (("hdr.ethernet.dst_mac", dst_mac) ∷ [])

  unfoldable pub write_clone_entries : ℤ → Exec (Switch D) (Unit {0})
  unfolding send with_table
  write_clone_entries port = with_table server "$mirror.cfg" (
      send server (
        add "$mirror.cfg" (("$sid", number (pos 1)) ∷ []) (some "$normal") (
          ("$direction", text "BOTH")
          ∷ ("$ucast_egress_port", number port)
          ∷ ("$ucast_egress_port_valid", flag true)
          ∷ ("$session_enable", flag true)
          ∷ ("$max_pkt_len", number (pos 200))
          ∷ [])))

  unfoldable pub add_switch_id : Exec (Switch D) (Unit {0})
  unfolding insert_table_entry
  add_switch_id s =
      unless_present server
        (insert_table_entry server "TpsCoreEgress.add_switch_id_t" "TpsCoreEgress.add_switch_id"
          (("hdr.udp_int.dst_port", number (pos udp_int_dst_port)) ∷ [])
          (("switch_id", number s.int_device_id) ∷ []))
        s

  unfoldable pub set_trpt_sampling_value : ℤ → Exec (Switch D) (Unit {0})
  unfolding send with_table
  set_trpt_sampling_value sample_size = with_table server "TpsCoreIngress.mirror_sampler" (
      send server (
        add "TpsCoreIngress.mirror_sampler" (("$REGISTER_INDEX", number (pos 0)) ∷ []) none
          (("TpsCoreIngress.mirror_sampler.rate", number sample_size) ∷ [])))

  -- `bytes_of` is `bytearray(ip_addr.packed)`; the versions of addresses are 4 and 6.
  module _ (ipaddress : IpAddress) where
    open ipaddress use {Address, ip_address, version}

    unfoldable pub setup_telemetry_rpt :
        (Address → List ℕ) → String → Datum → ℤ → Exec (Switch D) (Unit {0})
    unfolding insert_table_entry
    setup_telemetry_rpt bytes_of ae_ip ae_mac port = do
      ip_addr ← lift (ip_address ae_ip)
      unless_present server (
          insert_table_entry server "TpsCoreEgress.setup_telemetry_rpt_t"
            (if version ip_addr == 6
              then "TpsCoreEgress.setup_telem_rpt_ipv6"
              else "TpsCoreEgress.setup_telem_rpt_ipv4")
            (("hdr.udp_int.dst_port", number port) ∷ [])
            (("ae_ip", packed (bytes_of ip_addr)) ∷ ("ae_mac", ae_mac) ∷ []))

    unfoldable pub remove_telemetry_rpt : String → ℤ → Exec (Switch D) (Unit {0})
    unfolding delete_table_entry
    remove_telemetry_rpt ae_ip port = do
      ip_addr ← lift (ip_address ae_ip)
      unless_present server (
          delete_table_entry server "TpsCoreEgress.setup_telemetry_rpt_t"
            (("hdr.udp_int.dst_port", number port) ∷ []))

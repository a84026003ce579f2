-- ===== src/P4Runtime/Gateway.antt =====
-- `GatewaySwitch` of trans_sec/p4runtime_lib/gateway_switch.py: inspection, the look-up of the target
-- host, and the tables that translate addresses.
use Prim.Native.String.{◌++◌ as str_append}
use transparent_security.Prelude.{
  ℕ, suc, ◌+◌, String, Bool, List, [], ◌∷◌, ◌++◌, ◌&&◌, not, if◌then◌else◌,
}
use transparent_security.Prelude.Equality.{◌==◌, nat_eq, string_eq, contains}
use transparent_security.Prelude.Result.{Result, ok, err}
use transparent_security.Prelude.Exec.{Exec, pure, lift, ◌>>=◌, ◌>>◌}
use transparent_security.Convert.{pos, Value, str, int, decode_num}
use transparent_security.AttackHash.{decimal_digits}
use transparent_security.AttackHash.Injective.{value}
use transparent_security.P4Info.Building.{Library, MatchValue, scalar, items, TableEntry}
use transparent_security.P4Runtime.Stub.{Device, Switch}
use transparent_security.P4Runtime.Writing.{
  Members, struct_of, no_struct, bitstring, inspection_entry,
}
use transparent_security.P4Runtime.Writing
use transparent_security.P4Runtime.{build_entry, write_table_entry}

-- `int("50" + str(device_id) + str(count))`
unfoldable pub nat_port : ℕ → ℕ → ℕ
unfolding value decimal_digits
nat_port device_id count =
    value 0
      (b'5' ∷ b'0' ∷ decimal_digits (suc device_id) device_id ++ decimal_digits (suc count) count)

-- What the gateway keeps for one protocol: the number of ports in use, and the ports that have one.
pub record Ports : Type 0 where
  pub port_count : ℕ
  pub known : List ℕ

pub record Nat : Type 0 where
  pub public_ip : Value
  pub udp : Ports
  pub tcp : Ports

abbrev pub address : Value → MatchValue
address ip = items (ip ∷ int (pos 32) ∷ [])

module _ {D : Type 0} (l : Library) (device : Device D) where
  unfoldable pub add_data_inspection : Value → Value → Exec (Switch D) (Unit {0})
  unfolding inspection_entry write_table_entry
  add_data_inspection dev_id dev_mac s =
      (inspection_entry l device "hdr.ethernet.src_mac" (scalar dev_mac)
            (("device", dev_id) ∷ ("switch_id", int (pos s.device_id)) ∷ [])
          >>= write_table_entry l device)
        s

  unfoldable pub del_data_inspection : Value → Value → Exec (Switch D) (Unit {0})
  unfolding Writing.del_data_inspection
  del_data_inspection dev_id dev_mac = Writing.del_data_inspection l device dev_id dev_mac

  -- The entry for packets from a host, whose port is replaced by the gateway's.
  unfoldable pub outward :
      (src_port local_to_global : String) → ℕ → ℕ → Value → Value → Exec (Switch D) TableEntry
  unfolding build_entry
  outward src_port local_to_global port global_port source_ip public_ip s =
      build_entry l device s.p4_ingress (str_append local_to_global "_t")
        ((src_port, scalar (int (pos port))) ∷ ("hdr.ipv4.srcAddr", address source_ip) ∷ [])
        local_to_global (("src_port", int (pos global_port)) ∷ ("ip_srcAddr", public_ip) ∷ []) s

  -- The entry for the answers.
  unfoldable pub inward :
      (dst_port global_to_local : String) → ℕ → ℕ → Value → Value → Exec (Switch D) TableEntry
  unfolding build_entry
  inward dst_port global_to_local port global_port source_ip public_ip s =
      build_entry l device s.p4_ingress (str_append global_to_local "_t")
        ((dst_port, scalar (int (pos global_port))) ∷ ("hdr.ipv4.dstAddr", address public_ip) ∷ [])
        global_to_local (("dst_port", int (pos port)) ∷ ("ip_dstAddr", source_ip) ∷ []) s

  -- Both entries, with the global port of the protocol's count.
  unfoldable pub translate :
      (src_port dst_port local_to_global global_to_local : String)
      → ℕ
      → ℕ
      → Value
      → Value
      → Exec (Switch D) (Unit {0})
  unfolding outward inward write_table_entry nat_port
  translate src_port dst_port local_to_global global_to_local port count source_ip public_ip s =
      let global_port = nat_port s.device_id count in
      (do
        out ← outward src_port local_to_global port global_port source_ip public_ip
        write_table_entry l device out
        back ← inward dst_port global_to_local port global_port source_ip public_ip
        write_table_entry l device back)
        s

  abbrev taken : ℕ → Ports → Ports
  taken port p = record { port_count = p.port_count + 1; known = port ∷ p.known }

  -- `port and port not in ports`
  abbrev pub is_new : ℕ → Ports → Bool
  is_new port p = not (port == 0) && not (contains port p.known)

  -- A protocol's tables are filled, and then its ports are noted.
  abbrev noted : Result (Unit {0}) × Switch D → Nat → Nat → Result (Unit {0}) × (Switch D × Nat)
  noted (ok _, s) nat after = (ok tt, (s, after))
  noted (err e, s) nat after = (err e, (s, nat))

  unfoldable pub add_nat_table : ℕ → ℕ → Value → Exec (Switch D × Nat) (Unit {0})
  unfolding translate
  add_nat_table udp_source_port tcp_source_port source_ip (s, nat) =
      if is_new udp_source_port nat.udp
      then noted
          (translate "hdr.udp.src_port" "hdr.udp.dst_port" "udp_local_to_global"
            "udp_global_to_local" udp_source_port nat.udp.port_count source_ip nat.public_ip s)
          nat (record nat { udp = taken udp_source_port nat.udp })
      else if is_new tcp_source_port nat.tcp
      then noted
          (translate "hdr.tcp.src_port" "hdr.tcp.dst_port" "tcp_local_to_global"
            "tcp_global_to_local" tcp_source_port nat.tcp.port_count source_ip nat.public_ip s)
          nat (record nat { tcp = taken tcp_source_port nat.tcp })
      else (ok tt, (s, nat))

  -- `decode_ipv4` is `socket.inet_ntoa`.
  module _ (decode_ipv4 : List ℕ → Result (List ℕ)) where
    abbrev learn_nat : Members → Exec (Switch D × Nat) (Unit {0})
    learn_nat no_struct = pure tt
    learn_nat (struct_of members) = do
      udp ← lift (bitstring l device 0 members)
      udp_source_port ← lift (decode_num udp)
      tcp ← lift (bitstring l device 1 members)
      tcp_source_port ← lift (decode_num tcp)
      ip ← lift (bitstring l device 2 members)
      source_ip ← lift (decode_ipv4 ip)
      add_nat_table udp_source_port tcp_source_port (str source_ip)

    unfoldable pub interpret_nat_digest : List Members → Exec (Switch D × Nat) (Unit {0})
    unfolding add_nat_table decode_num
    interpret_nat_digest [] = pure tt
    interpret_nat_digest (members ∷ digest_data) =
        learn_nat members >> interpret_nat_digest digest_data

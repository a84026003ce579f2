-- ===== src/P4Runtime/Exhausted.antt =====
-- A gateway that has given out its ports (trans_sec/p4runtime_lib/gateway_switch.py).
use native.Mathlib.Nat.{pow-le-pow_right, le_trans}
use transparent_security.Prelude.{ℕ, String, ◌≤◌, ◌≡◌, refl, true, some, none, [], ◌∷◌, arith}
use transparent_security.Prelude.Dict.{Dict}
use transparent_security.Prelude.Result.{Exception, ok, err}
use transparent_security.Convert.{Value, int, pos}
use transparent_security.P4Switch.{dotted, dotted-nonempty}
use transparent_security.P4Info.{Param, get_action_param}
use transparent_security.P4Info.Building.{Library, MatchValue, scalar}
use transparent_security.P4Info.Parameters.{build_table_entry-fails, large_unfit}
use transparent_security.P4Runtime.Stub.{Device, Switch}
use transparent_security.P4Runtime.{build_entry}
use transparent_security.P4Runtime.NatPorts.{nat_port_large}
use transparent_security.P4Runtime.Gateway.{
  Nat, address, nat_port, is_new, outward, translate, add_nat_table,
}

module _ {D : Type 0} (l : Library) (device : Device D) where
  -- The parameter of the entry for outward packets has at most 16 bits.
  abbrev pub IsPortSized : Switch D → Type 0
  IsPortSized s =
      (param : Param)
      → get_action_param s.info (dotted s.p4_ingress "udp_local_to_global") (some "src_port") none
        ≡ ok param
      → param.bitwidth ≤ 16

  -- Once the count of UDP ports is 100, a connection from a new port raises, whatever the program,
  -- the device and the gateway's number, where the port of the program has at most 16 bits: nothing
  -- is written and nothing is noted.
  pub add_nat_table-exhausted :
      (port tcp_source_port : ℕ) (source_ip : Value) (s : Switch D) (nat : Nat)
      → is_new l device port nat.udp ≡ true
      → 100 ≤ nat.udp.port_count
      → IsPortSized s
      → (e : Exception) × (add_nat_table l device port tcp_source_port source_ip (s, nat)
          ≡ (err e, (s, nat)))
  unfolding add_nat_table translate outward build_entry
  add_nat_table-exhausted port tcp ip s nat fresh many sized =
      let global_port = nat_port s.device_id nat.udp.port_count in
      let m : Dict String MatchValue =
        ("hdr.udp.src_port", scalar (int (pos port))) ∷ ("hdr.ipv4.srcAddr", address ip) ∷ [] in
      let (e, failed) =
        build_table_entry-fails l s.info (dotted s.p4_ingress "udp_local_to_global_t") m
          (dotted s.p4_ingress "udp_local_to_global") "src_port" (int (pos global_port))
          (("ip_srcAddr", nat.public_ip) ∷ []) (dotted-nonempty s.p4_ingress "udp_local_to_global")
          (λ param found. large_unfit l s.info global_port param.bitwidth (
            le_trans (pow-le-pow_right (omega arith) (sized param found))
              (nat_port_large s.device_id nat.udp.port_count many))) in
      (e, rw fresh (rw failed refl))

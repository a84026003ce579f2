-- ===== src/P4Runtime/Forwarding.antt =====
-- What adding and deleting a forwarding entry does on a P4Runtime switch
-- (trans_sec/p4runtime_lib/p4rt_switch.py).
use transparent_security.Prelude.{
  ℕ, String, ◌≡◌, refl, Bool, true, false, Option, List, [], ◌∷◌, inl, inr, Bool-cases,
}
use transparent_security.Prelude.Result.{ok, err, Exception}
use transparent_security.Convert.{ℤ, Value, str, other}
use transparent_security.Prelude.Dict.{Dict}
use transparent_security.P4Switch.{dotted, dotted-nonempty}
use transparent_security.P4Info.Building.{Library, MatchValue, scalar, build_table_entry}
use transparent_security.P4Info.Parameters.{entry_for, build_table_entry-fails, other_unfit}
use transparent_security.P4Runtime.Stub.{Device, Switch}
use transparent_security.P4Runtime.Core
use transparent_security.P4Runtime.{
  only, text_value, build_entry, is_key, no_port, get_data_forward_macs,
  get_data_forward_table_entry, forward_entry, add_data_forward, del_data_forward,
}

module _ {D : Type 0} (l : Library) (device : Device D) where
  -- A MAC that the device has an entry for, or has none for.
  pub record HasKey (dst_mac : List ℕ) (known : Bool) (s : Switch D) : Type 0 where
    pub keys : List (Option (List ℕ))
    pub read : get_data_forward_macs l device s ≡ ok keys
    pub known_is : is_key l device dst_mac keys ≡ known

  -- A MAC address that the device has a forwarding entry for is left alone where a port is given:
  -- nothing is written, and a core switch does not write the ARP entry either, should it be missing.
  pub add_data_forward-known :
      (dst_mac : List ℕ) (egress_port : Option ℤ) (s : Switch D)
      → HasKey dst_mac true s
      → no_port l device egress_port ≡ false
      → (add_data_forward l device dst_mac egress_port s ≡ (ok false, s))
        × (Core.add_data_forward l device dst_mac egress_port s ≡ (ok tt, s))
  unfolding add_data_forward get_data_forward_table_entry Core.add_data_forward
  add_data_forward-known dst_mac egress_port s h port =
      (rw h.read (rw h.known_is (rw port refl)), rw h.read (rw h.known_is (rw port refl)))

  -- A MAC address without an entry cannot be deleted, in no program and on no device: instead of
  -- returning False the call raises, since the entry is built with None for the port. Nothing is
  -- written.
  pub del_data_forward-unknown :
      (dst_mac : List ℕ) (s : Switch D)
      → HasKey dst_mac false s
      → (e : Exception) × (del_data_forward l device dst_mac s ≡ (err e, s))
  unfolding del_data_forward get_data_forward_table_entry forward_entry build_entry
  del_data_forward-unknown dst_mac s h =
      let m : Dict String MatchValue = only "hdr.ethernet.dst_mac" (scalar (str dst_mac)) in
      let t = dotted s.p4_ingress "data_forward_t" in
      let a = dotted s.p4_ingress "data_forward" in
      let fails : (params : Dict String Value)
          → (e : Exception) × (build_table_entry l s.info
                (entry_for l s.info t m a (("port", other false) ∷ params))
              ≡ err e) =
        λ params.
          build_table_entry-fails l s.info t m a "port" (other false) params
            (dotted-nonempty s.p4_ingress "data_forward")
            (λ param _. other_unfit l s.info false param.bitwidth) in
      elim (Bool-cases s.is_gateway) [
        | inl gateway ↦
            let (e, failed) = fails (("switch_mac", text_value s.mac) ∷ []) in
            (e, rw h.read (rw h.known_is (rw gateway (rw failed refl))))
        | inr plain ↦
            let (e, failed) = fails [] in (e, rw h.read (rw h.known_is (rw plain (rw failed refl))))
      ]

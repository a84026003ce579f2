-- ===== src/P4Switch/Reverts.antt =====
-- What a gateway is told when an attack is added and when it is stopped
-- (trans_sec/p4runtime_lib/gateway_switch.py).
use mathlib.Core.List.{append_assoc}
use transparent_security.Prelude.{
  ◌≡◌, refl, String, inl, inr, none, some, Option, List, [], ◌∷◌, ◌++◌, map,
}
use transparent_security.Prelude.Dict.{Dict}
use transparent_security.Prelude.Result.{Result-cases, Result, ok}
use transparent_security.Convert.{ℤ}
use transparent_security.External.{IpAddress}
use transparent_security.Controller.Switches.{AttackRequest}
use transparent_security.P4Switch.{
  FieldValue, number, Entry, Update, insert, delete, P4Switch, write_to_table,
  insert_p4_table_entry, get_table_entry,
}
use transparent_security.P4Switch.Gateway

-- An entry by its table, its match fields and its action alone
abbrev pub bare : Entry → Entry
bare e = record e { action_params = none }

-- Some entries were inserted, and the same were deleted.
pub record IsReverted (before added stopped : P4Switch) : Type 0 where
  pub entries : List Entry
  pub inserts : added.writes ≡ before.writes ++ map insert entries
  pub deletes : stopped.writes ≡ added.writes ++ map (λ e. delete (bare e)) entries

module _ (write : Update → Result (Unit {0})) (takes : (u : Update) → write u ≡ ok tt) where
  write_lem :
      (u : Update) (s : P4Switch)
      → write_to_table write u s ≡ (ok tt, record s { writes = s.writes ++ u ∷ [] })
  unfolding write_to_table
  write_lem u s = rw (takes u, write_to_table) refl

  insert_lem :
      (t a : String) (m : Dict String FieldValue) (ps : Option (Dict String FieldValue))
      (s : P4Switch)
      → insert_p4_table_entry write t a m ps s
        ≡ (ok tt, record s { writes = s.writes ++ insert (get_table_entry write t a m ps s) ∷ [] })
  unfolding insert_p4_table_entry
  insert_lem t a m ps s = write_lem (insert (get_table_entry write t a m ps s)) s

module _ (ipaddress : IpAddress) (int : String → Result ℤ)
    (write : Update → Result (Unit {0})) where
  -- Where the switch takes every update: if a gateway's `add_attack` returns, so does
  -- `stop_attack` of the same attack, and deletes exactly the entries that were inserted.
  pub stop_attack-reverts :
      (attack : AttackRequest) (s : P4Switch)
      → ((u : Update) → write u ≡ ok tt)
      → (Gateway.add_attack ipaddress int write attack s).0 ≡ ok tt
      → let added = (Gateway.add_attack ipaddress int write attack s).1 in
        let (r, stopped) = Gateway.stop_attack ipaddress int write attack added in
        (r ≡ ok tt) × IsReverted s added stopped
  unfolding Gateway.add_attack Gateway.stop_attack get_table_entry
  stop_attack-reverts attack s takes added =
      elim (Result-cases (Gateway.parse_attack ipaddress int write attack)) [
        | inl (e, p) ↦ absurd (cc (rw p at added))
        | inr ((udp_tn, tcp_tn, dst_ip, key), p) ↦
            let fields = Gateway.match_fields ipaddress int write attack key dst_ip in
            elim (Result-cases (fields "hdr.udp.dst_port")) [
              | inl (e, q) ↦ absurd (cc (rw (p, q) at added))
              | inr (udp, q) ↦ elim (Result-cases (fields "hdr.tcp.dst_port")) [
                | inl (e, t) ↦ absurd (cc (rw (p, q, insert_lem write takes, t) at added))
                | inr (tcp, t) ↦
                    let il = insert_lem write takes in
                    let wl = write_lem write takes in
                    let device = some (("device", number s.device_id) ∷ []) in
                    let u = get_table_entry write udp_tn "data_drop" udp device s in
                    let v = get_table_entry write tcp_tn "data_drop" tcp device s in
                    rw (p, q, il, t, il, wl, wl)
                      (
                        refl,
                        record {
                          entries = u ∷ v ∷ [];
                          inserts = append_assoc s.writes (insert u ∷ []) (insert v ∷ []);
                          deletes =
                              append_assoc ((s.writes ++ insert u ∷ []) ++ insert v ∷ [])
                                (delete (bare u) ∷ []) (delete (bare v) ∷ []);
                        },
                      )
              ]
            ]
      ]

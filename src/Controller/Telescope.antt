-- ===== src/Controller/Telescope.antt =====
-- What the drop reports of trans_sec/controller/ddos_sdn_controller.py add up to in delta mode.
use transparent_security.Prelude.{
  ℕ, suc, ◌+◌, ◌≡◌, refl, String, true, Option, none, some, List, [], ◌∷◌, ◌++◌, arith,
  if◌then◌else◌, Bool-cases, inl, inr,
}
use transparent_security.Prelude.Equality.{◌==◌, nat_eq, string_eq}
use transparent_security.Prelude.Dict.{get-put, Dict}
use transparent_security.Prelude.Result.{Result, ok, err}
use transparent_security.Prelude.Exec.{Exec, continue}
use transparent_security.External.{IpAddress}
use transparent_security.AttackHash.{create_attack_hash}
use transparent_security.Convert.{ℤ, pos, negsuc}
use transparent_security.Controller.DropReports.{
  MatchKeys, Reporting, to_engine, report_match, report_matches, report_controllers,
  send_drop_report, Reporter, Surroundings, DropPacket, drop_pkt, minus, send_drop_pkt, report_drop,
  address, last_count, counted,
}

abbrev pub gain : ℤ → ℕ
gain (pos n) = n
gain (negsuc n) = 0

abbrev pub loss : ℤ → ℕ
loss (pos n) = 0
loss (negsuc n) = suc n

-- The positive and the negative counts that were reported for a key.
abbrev pub gained : ℕ → List DropPacket → ℕ
gained key [] = 0
gained key (p ∷ ps) = (if p.drop_tbl_keys == key then gain p.drop_count else 0) + gained key ps

abbrev pub lost : ℕ → List DropPacket → ℕ
lost key [] = 0
lost key (p ∷ ps) = (if p.drop_tbl_keys == key then loss p.drop_count else 0) + lost key ps

gained-snoc :
    (key : ℕ) (ps : List DropPacket) (p : DropPacket)
    → gained key (ps ++ p ∷ []) ≡ gained key ps + gained key (p ∷ [])
gained-snoc key [] p = omega arith
gained-snoc key (q ∷ ps) p = omega (arith, gained-snoc key ps p)

lost-snoc :
    (key : ℕ) (ps : List DropPacket) (p : DropPacket)
    → lost key (ps ++ p ∷ []) ≡ lost key ps + lost key (p ∷ [])
lost-snoc key [] p = omega arith
lost-snoc key (q ∷ ps) p = omega (arith, lost-snoc key ps p)

minus_lem : (a b : ℕ) → gain (minus a b) + b ≡ loss (minus a b) + a
unfolding minus
minus_lem a b = ground arith

-- What was reported of a key, and its last count, agree.
abbrev pub Balanced : ℕ → Reporter → Type 0
Balanced key r = gained key r.sent ≡ lost key r.sent + last_count key r

last_count-counted :
    (key k n : ℕ) (r : Reporter)
    → last_count key (counted k n r) ≡ (if k == key then n else last_count key r)
last_count-counted key k n r = ground (arith, get-put k key n r.drop_rpt_count)

module _ (s : Surroundings) where
  -- A delta is sent with the count stored.
  sent_delta : String → ℕ → ℕ → ℕ → Reporter → DropPacket
  sent_delta ip id k n r = drop_pkt (address r.ae_ip) ip id s.timestamp k (minus n (last_count k r))

  report_drop_lem :
      (sdn_ip : String) (node_id k n : ℕ) (r : Reporter)
      → s.sdn_ip ≡ ok sdn_ip
      → s.node_id ≡ ok node_id
      → r.is_delta ≡ true
      → report_drop s k n r ≡ (
          if k == 0 then (ok tt, r) else (
            ok tt,
            record (counted k n r) { sent = r.sent ++ sent_delta sdn_ip node_id k n r ∷ [] },
          ))
  unfolding sent_delta report_drop send_drop_pkt
  report_drop_lem ip id k n r i d delta = rw (i, d, delta) refl

  Balanced-sent :
      (ip : String) (id key k n : ℕ) (r : Reporter)
      → Balanced key r
      → Balanced key (record (counted k n r) { sent = r.sent ++ sent_delta ip id k n r ∷ [] })
  unfolding sent_delta
  Balanced-sent ip id key k n r h =
      let p = sent_delta ip id k n r in
      ground (
        arith,
        gained-snoc key r.sent p,
        lost-snoc key r.sent p,
        last_count-counted key k n r,
        minus_lem n (last_count k r),
      )

-- What a call keeps is kept behind it.
continue-keeps {ℓ} :
    {A B : Type 0} {S : Type 0} (P : S → Type ℓ) (x : Result A × S) (f : A → Exec S B)
    → P x.1
    → ((a : A) (t : S) → P t → P (f a t).1)
    → P (continue x f).1
continue-keeps P (ok a, t) f h k = k a t h
continue-keeps P (err e, t) f h k = h

abbrev Steady : ℕ → Reporter → Type 0
Steady key r = (r.is_delta ≡ true) × Balanced key r

module _ (s : Surroundings) (ip : String) (id : ℕ) where
  module _ (i : s.sdn_ip ≡ ok ip) (d : s.node_id ≡ ok id) (key : ℕ) where
    report_drop-Steady :
        (k n : ℕ) (r : Reporter) → Steady key r → Steady key (report_drop s k n r).1
    report_drop-Steady k n r (delta, h) =
        rw (report_drop_lem s ip id k n r i d delta) (elim (Bool-cases (k == 0)) [
          | inl nothing ↦ rw nothing (delta, h)
          | inr some_key ↦ rw some_key (delta, Balanced-sent s ip id key k n r h)
        ])

    module _ (ipaddress : IpAddress) (sha256_hex : List ℕ → List ℕ) where
      report_match-Steady :
          (m : Option MatchKeys) (n : ℕ) (r : Reporter)
          → Steady key r
          → Steady key (report_match ipaddress sha256_hex s m n r).1
      unfolding report_match
      report_match-Steady none n r h = h
      report_match-Steady (some m) n r h =
          let hash = create_attack_hash ipaddress sha256_hex m.mac m.port m.ip_addr m.ipv6_addr in
          continue-keeps {B = Unit {0}} (Steady key) (hash, r) (λ k. report_drop s k n) h
            (λ k t. report_drop-Steady k n t)

      report_matches-Steady :
          (entries : List (Option MatchKeys × ℕ)) (r : Reporter)
          → Steady key r
          → Steady key (report_matches ipaddress sha256_hex s entries r).1
      unfolding report_matches
      report_matches-Steady [] r h = h
      report_matches-Steady ((m, n) ∷ entries) r h =
          continue-keeps {B = Unit {0}} (Steady key) (report_match ipaddress sha256_hex s m n r)
            (λ _. report_matches ipaddress sha256_hex s entries) (report_match-Steady m n r h)
            (λ u t. report_matches-Steady entries t)

      report_controllers-Steady :
          (controllers : Dict String (Result (List (Option MatchKeys × ℕ)))) (r : Reporter)
          → Steady key r
          → Steady key (report_controllers ipaddress sha256_hex s controllers r).1
      unfolding report_controllers
      report_controllers-Steady [] r h = h
      report_controllers-Steady ((name, entries) ∷ controllers) r h =
          elim (Bool-cases (name == "aggregate")) [
            | inl aggregate ↦ rw aggregate (
                continue-keeps {B = Unit {0}} (Steady key)
                  (continue (entries, r) (report_matches ipaddress sha256_hex s))
                  (λ _. report_controllers ipaddress sha256_hex s controllers)
                  (continue-keeps {B = Unit {0}} (Steady key) (entries, r)
                    (report_matches ipaddress sha256_hex s) h (λ es t. report_matches-Steady es t))
                  (λ u t. report_controllers-Steady controllers t))
            | inr other ↦ rw other (report_controllers-Steady controllers r h)
          ]

to_engine-Balanced :
    (key : ℕ) (ae_ip : Option String) (m : Reporting (Unit {0})) (r : Reporter)
    → Balanced key r
    → Balanced key (m r).1
    → Balanced key (to_engine ae_ip m r).1
to_engine-Balanced key none m r off on = off
to_engine-Balanced key (some ip) m r off on = on

-- In delta mode, as long as the controller knows its address and the aggregate's id: whatever drop
-- entries come, failing to be hashed or not, the counts reported for a key keep adding up, with
-- their signs, to the count that the switch gave last.
pub send_drop_report-Balanced :
    (ipaddress : IpAddress) (sha256_hex : List ℕ → List ℕ) (s : Surroundings) (ip : String)
    (id key : ℕ) (controllers : Dict String (Result (List (Option MatchKeys × ℕ)))) (r : Reporter)
    → s.sdn_ip ≡ ok ip
    → s.node_id ≡ ok id
    → r.is_delta ≡ true
    → Balanced key r
    → Balanced key (send_drop_report ipaddress sha256_hex s controllers r).1
unfolding send_drop_report
send_drop_report-Balanced ipaddress sha s ip id key controllers r i d delta h =
    to_engine-Balanced key r.ae_ip (report_controllers ipaddress sha s controllers) r h
      (report_controllers-Steady s ip id i d key ipaddress sha controllers r (delta, h)).1

-- ===== src/Analytics/SimpleAe/Lapse.antt =====
-- What happens to a key of `SimpleAE` once a sample of it is older than the sample interval
-- (trans_sec/analytics/oinc.py).
use transparent_security.Prelude.{ℕ, ◌≤◌, ◌≡◌, refl, ap, ◌∙◌, true, some, List, [], ◌∷◌, ◌++◌, map}
use transparent_security.Prelude.Lists.{All}
use transparent_security.Prelude.Result.{err, value_error}
use transparent_security.Analytics.SimpleAe.Sums.{any_expired}
use transparent_security.Analytics.SimpleAe.Isolation.{Event, packet, report, run}
use transparent_security.Analytics.SimpleAe.KeyMachine.{
  KeyState, Limits, machine, step, packet_step,
}
use transparent_security.Analytics.SimpleAe.Refinement.{history, own, limits_of, view, run_refines}
use transparent_security.Analytics.SimpleAe.Feed.{any_expired-append, any_expired_mono}
use transparent_security.Analytics.SimpleAe.{SimpleAe, entry, sample_list, touched}

-- A packet from the time `t` on.
abbrev pub IsPacketFrom : ℕ → Event → Type 0
IsPacketFrom t (packet key attack pkt_bytes w) = t ≤ w.now
IsPacketFrom t (report key drop_count w) = ⊥

machine_expired :
    (l : Limits) (t : ℕ) (events : List Event) (s : KeyState)
    → any_expired l.sample_interval t s.samples ≡ true
    → All (IsPacketFrom t) events
    → let (results, after) = machine l events s in
      (results ≡ map (λ _. err value_error) events)
      × (after.last_attack ≡ s.last_attack)
      × (after.payload ≡ s.payload)
unfolding machine step packet_step
machine_expired l t [] s e h = (refl, refl, refl)
machine_expired l t (packet key attack b w ∷ events) s e h =
    let iv = l.sample_interval in
    let samples = s.samples ++ (w.now, b) ∷ [] in
    let here : any_expired iv w.now samples ≡ true =
      rw (any_expired-append, any_expired_mono iv t w.now s.samples h.0 e) refl in
    let there : any_expired iv t samples ≡ true = rw (any_expired-append, e) refl in
    let seen : KeyState = record s { samples = samples; report = some (touched s.report) } in
    let (later, last, held) = machine_expired l t events seen there h.1 in
    rw here (rw later (refl, last, held))
machine_expired l t (report key c w ∷ events) s e h = elim h.0 [ ]

-- Where a sample of a key has expired at a time, each packet of the key from that time on raises a
-- ValueError, and neither the time of the key's last notice nor the attack that is held for it
-- changes, as long as no drop report of the key comes, whatever packets and drop reports of other
-- keys come in between.
pub lapsed_packets :
    (key t : ℕ) (events : List Event) (ae : SimpleAe)
    → any_expired ae.sample_interval t (sample_list (entry key ae.count_map)) ≡ true
    → All (IsPacketFrom t) (own key events)
    → (history key events ae ≡ map (λ _. err value_error) (own key events))
      × (entry key (run events ae).attack_map ≡ entry key ae.attack_map)
      × (entry key (run events ae).attack_payload ≡ entry key ae.attack_payload)
lapsed_packets key t events ae e h =
    let (results, last, held) =
      machine_expired (limits_of ae) t (own key events) (view key ae) e h in
    let same = run_refines key events ae in
    (
      ap (λ p. p.0) same ∙ results,
      ap (λ p. p.1.last_attack) same ∙ last,
      ap (λ p. p.1.payload) same ∙ held,
    )

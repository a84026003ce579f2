-- ===== src/Analytics/SimpleAe/Refinement.antt =====
-- `SimpleAE` of trans_sec/analytics/oinc.py behaves as one machine for each key.
use transparent_security.Prelude.{
  nat_beq_iff, ℕ, ◌+◌, ◌≡◌, refl, ap, sym, ◌∙◌, Bool, Option, none, some, List, [], ◌∷◌, ltb, arith,
  Bool-cases, Option-cases, inl, inr, if◌then◌else◌,
}
use transparent_security.Prelude.Equality.{◌==◌, nat_eq}
use transparent_security.Prelude.Dict.{put}
use transparent_security.Prelude.Result.{Result, ok, err}
use transparent_security.Analytics.SimpleAe.Entries.{entry-put_self}
use transparent_security.Analytics.SimpleAe.Detection.{process_key-judged, window, may_send_lem}
use transparent_security.Analytics.SimpleAe.Stopping.{
  finished, asked, reported, outcome, report_key_lem,
}
use transparent_security.Analytics.SimpleAe.Isolation.{
  Event, packet, report, key_of, handle, run, SameEntries, handle-SameEntries,
}
use transparent_security.Analytics.SimpleAe.KeyMachine.{
  KeyState, Limits, forgotten, packet_step, end_step, entry_step, report_step, step, machine,
}
use transparent_security.Analytics.SimpleAe.{
  SimpleAe, Attack, World, entry, sample_list, touched, notify, send_attack, process_key,
  report_key, cleared,
}

abbrev pub limits_of : SimpleAe → Limits
limits_of ae = record {
  packet_count = ae.packet_count;
  byte_count = ae.byte_count;
  sample_interval = ae.sample_interval;
  drop_count = ae.drop_count;
}

-- What the engine holds under a key.
abbrev pub view : ℕ → SimpleAe → KeyState
view k ae = record {
  samples = sample_list (entry k ae.count_map);
  last_attack = entry k ae.attack_map;
  payload = entry k ae.attack_payload;
  report = entry k ae.drop_rpt_map;
}

module _ (key : ℕ) where
  packet_refines :
      (attack : Attack) (b : ℕ) (w : World) (ae : SimpleAe)
      → let (r, after) = process_key key attack b w ae in
        (r, view key after) ≡ packet_step (limits_of ae) attack b w (view key ae)
  unfolding packet_step
  packet_refines attack b w ae =
      let samples = window key b w.now ae in
      let r = some (touched (entry key ae.drop_rpt_map)) in
      rw (process_key-judged key attack b w ae, ← may_send_lem)
        (unfold notify send_attack in
          ground (
            arith,
            entry-put_self key (some samples) (put key (some samples) ae.count_map),
            entry-put_self key r ae.drop_rpt_map,
            entry-put_self key (some w.stored) ae.attack_map,
            entry-put_self key (some attack) ae.attack_payload,
          ))

  cleared_refines : (ae : SimpleAe) → view key (cleared key ae) ≡ forgotten
  cleared_refines ae = ground (
    arith,
    entry-put_self key none ae.attack_payload,
    entry-put_self key none ae.attack_map,
    entry-put_self key none ae.count_map,
    entry-put_self key none ae.drop_rpt_map,
  )

  finished_refines :
      (o : Option Attack) (reply : Result (Unit {0})) (ae : SimpleAe)
      → let (r, after) = finished key o reply ae in
        (r, view key after) ≡ end_step o reply (view key ae)
  finished_refines none reply ae = rw (cleared_refines ae) refl
  finished_refines (some a) (ok _) ae = rw (cleared_refines (asked a ae)) refl
  finished_refines (some a) (err e) ae = refl

  outcome_refines :
      (c : ℕ) (w : World) (ae : SimpleAe) (o : Option (ℕ × ℕ))
      → entry key ae.drop_rpt_map ≡ o
      → let (r, after) = outcome key w c o ae in
        (r, view key after) ≡ entry_step (limits_of ae) c w o (view key ae)
  outcome_refines c w ae none e = refl
  outcome_refines c w ae (some (old, idle)) e =
      let next = reported key (old, idle + 1) ae in
      let reset = entry-put_self key (some (c, 0)) ae.drop_rpt_map in
      let one_more = entry-put_self key (some (old, idle + 1)) ae.drop_rpt_map in
      elim (Bool-cases (old == c)) [
        | inr other ↦ rw other (ground (arith, reset))
        | inl same ↦ rw same (elim (Bool-cases (ltb (idle + 1) ae.drop_count)) [
          | inl early ↦ rw early (ground (arith, one_more))
          | inr late ↦
              rw late
                (finished_refines (entry key ae.attack_payload) w.reply next ∙ rw one_more refl)
        ])
      ]

  report_refines :
      (c : ℕ) (w : World) (ae : SimpleAe)
      → let (r, after) = report_key key c w ae in
        (r, view key after) ≡ report_step (limits_of ae) c w (view key ae)
  unfolding report_step
  report_refines c w ae =
      rw (report_key_lem key w c ae) (outcome_refines c w ae (entry key ae.drop_rpt_map) refl)

abbrev act : Event → SimpleAe → Result Bool × SimpleAe
act (packet key attack b w) ae = process_key key attack b w ae
act (report key c w) ae = report_key key c w ae

act_refines :
    (e : Event) (ae : SimpleAe)
    → let (r, after) = act e ae in
      (r, view (key_of e) after) ≡ step (limits_of ae) e (view (key_of e) ae)
unfolding step
act_refines (packet key attack b w) ae = packet_refines key attack b w ae
act_refines (report key c w) ae = report_refines key c w ae

limits_of-process_key :
    (key : ℕ) (attack : Attack) (b : ℕ) (w : World) (ae : SimpleAe)
    → limits_of (process_key key attack b w ae).1 ≡ limits_of ae
limits_of-process_key key attack b w ae =
    rw (process_key-judged key attack b w ae) (unfold notify send_attack in ground arith)

limits_of-finished :
    (key : ℕ) (o : Option Attack) (reply : Result (Unit {0})) (ae : SimpleAe)
    → limits_of (finished key o reply ae).1 ≡ limits_of ae
limits_of-finished key none reply ae = refl
limits_of-finished key (some a) (ok _) ae = refl
limits_of-finished key (some a) (err e) ae = refl

limits_of-report_key :
    (key c : ℕ) (w : World) (ae : SimpleAe) → limits_of (report_key key c w ae).1 ≡ limits_of ae
limits_of-report_key key c w ae =
    rw (report_key_lem key w c ae) (elim (Option-cases (entry key ae.drop_rpt_map)) [
      | inl e ↦ rw e refl
      | inr ((old, idle), e) ↦ rw e (
          ground (
            arith,
            limits_of-finished key (entry key ae.attack_payload) w.reply
                (reported key (old, idle + 1) ae),
          ))
    ])

limits_of-handle : (e : Event) (ae : SimpleAe) → limits_of (handle e ae) ≡ limits_of ae
unfolding handle
limits_of-handle (packet key attack b w) ae = limits_of-process_key key attack b w ae
limits_of-handle (report key c w) ae = limits_of-report_key key c w ae

-- The results that the events of a key have in a run.
unfoldable pub history : ℕ → List Event → SimpleAe → List (Result Bool)
history k [] ae = []
history k (e ∷ events) ae =
    let rest = history k events (handle e ae) in if key_of e == k then (act e ae).0 ∷ rest else rest

unfoldable pub own : ℕ → List Event → List Event
own k [] = []
own k (e ∷ events) = let rest = own k events in if key_of e == k then e ∷ rest else rest

view-SameEntries : (k : ℕ) (a b : SimpleAe) → SameEntries k a b → view k a ≡ view k b
view-SameEntries k a b same =
    rw same.samples (rw same.last_attack (rw same.payload (rw same.report refl)))

handle_lem : (e : Event) (ae : SimpleAe) → handle e ae ≡ (act e ae).1
unfolding handle
handle_lem (packet key attack b w) ae = refl
handle_lem (report key c w) ae = refl

act_refines_at :
    (k : ℕ) (e : Event) (ae : SimpleAe)
    → key_of e ≡ k
    → step (limits_of ae) e (view k ae) ≡ ((act e ae).0, view k (handle e ae))
act_refines_at k e ae same = rw (sym same) (sym (act_refines e ae) ∙ rw (handle_lem e ae) refl)

-- Each key of the engine is a machine of its own: whatever packets and drop reports come, of
-- whatever keys, and whether requests succeed or not, the results of the events of a key and what
-- the engine holds under it in the end are those of the key's machine on the key's events alone.
pub run_refines :
    (k : ℕ) (events : List Event) (ae : SimpleAe)
    → (history k events ae, view k (run events ae))
      ≡ machine (limits_of ae) (own k events) (view k ae)
unfolding run history own machine
run_refines k [] ae = refl
run_refines k (e ∷ events) ae =
    let next = handle e ae in
    let later : (history k events next, view k (run events next))
        ≡ machine (limits_of ae) (own k events) (view k next) =
      run_refines k events next
      ∙ ap (λ l. machine l (own k events) (view k next)) (limits_of-handle e ae) in
    elim (Bool-cases (key_of e == k)) [
      | inl same ↦
          rw same
            (rw (act_refines_at k e ae ((nat_beq_iff (key_of e) k).0 same)) (rw (sym later) refl))
      | inr other ↦ rw other (
          later
          ∙ ap (machine (limits_of ae) (own k events))
              (view-SameEntries k next ae (handle-SameEntries k e ae (ground (arith, other)))))
    ]

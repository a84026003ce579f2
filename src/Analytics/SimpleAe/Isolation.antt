-- ===== src/Analytics/SimpleAe/Isolation.antt =====
-- The packets and reports of one key leave the other keys of `SimpleAE` alone
-- (trans_sec/analytics/oinc.py).
use transparent_security.Prelude.{
  ℕ, ◌≡◌, ◌+◌, ◌∙◌, ◌≢◌, List, [], ◌∷◌, refl, false, Option, none, some, arith, Option-cases, inl,
  inr,
}
use transparent_security.Prelude.Equality.{◌==◌, nat_eq, beq_ne}
use transparent_security.Prelude.Dict.{put}
use transparent_security.Analytics.SimpleAe.Entries.{entry-put_ne}
use transparent_security.Analytics.SimpleAe.Detection.{process_key-judged, noted, window}
use transparent_security.Prelude.Lists.{All}
use transparent_security.Analytics.SimpleAe.Stopping.{finished, asked, reported, report_key_lem}
use transparent_security.Analytics.SimpleAe.{
  cleared, SimpleAe, Attack, World, entry, touched, notify, process_key, report_key,
}

-- Two states of the engine hold the same under a key.
pub record SameEntries (j : ℕ) (a b : SimpleAe) : Type 0 where
  pub samples : entry j a.count_map ≡ entry j b.count_map
  pub last_attack : entry j a.attack_map ≡ entry j b.attack_map
  pub payload : entry j a.attack_payload ≡ entry j b.attack_payload
  pub report : entry j a.drop_rpt_map ≡ entry j b.drop_rpt_map

module _ (key j : ℕ) (ne : (key == j) ≡ false) (attack : Attack) (w : World) where
  notify-SameEntries : (ae : SimpleAe) → SameEntries j (notify key attack w ae).1 ae
  unfolding notify
  notify-SameEntries ae = ground (
    arith,
    entry-put_ne key j (some w.stored) ae.attack_map ne,
    entry-put_ne key j (some attack) ae.attack_payload ne,
  )

  process_key-SameEntries :
      (pkt_bytes : ℕ) (ae : SimpleAe) → SameEntries j (process_key key attack pkt_bytes w ae).1 ae
  process_key-SameEntries pkt_bytes ae =
      let l = some (window key pkt_bytes w.now ae) in
      let r = some (touched (entry key ae.drop_rpt_map)) in
      rw process_key-judged (
        ground (
          arith,
          notify-SameEntries (noted key pkt_bytes w.now ae),
          entry-put_ne key j l (put key l ae.count_map) ne,
          entry-put_ne key j l ae.count_map ne,
          entry-put_ne key j r ae.drop_rpt_map ne,
        ))

module _ (key j : ℕ) (ne : (key == j) ≡ false) (w : World) where
  put_none-SameEntries : (ae : SimpleAe) → SameEntries j (cleared key ae) ae
  put_none-SameEntries ae = ground (
    arith,
    entry-put_ne key j none ae.attack_payload ne,
    entry-put_ne key j none ae.attack_map ne,
    entry-put_ne key j none ae.count_map ne,
    entry-put_ne key j none ae.drop_rpt_map ne,
  )

  finished-SameEntries :
      (o : Option Attack) (ae : SimpleAe) → SameEntries j (finished key o w.reply ae).1 ae
  finished-SameEntries none ae = put_none-SameEntries ae
  finished-SameEntries (some a) ae = ground (arith, put_none-SameEntries (asked a ae))

  report_key-SameEntries :
      (drop_count : ℕ) (ae : SimpleAe) → SameEntries j (report_key key drop_count w ae).1 ae
  report_key-SameEntries drop_count ae =
      rw report_key_lem (elim (Option-cases (entry key ae.drop_rpt_map)) [
        | inl e ↦
            rw e (record { samples = refl; last_attack = refl; payload = refl; report = refl })
        | inr ((old, idle), e) ↦
            let next = reported key (old, idle + 1) ae in
            rw e (
              ground (
                arith,
                finished-SameEntries (entry key ae.attack_payload) next,
                entry-put_ne key j (some (old, idle + 1)) ae.drop_rpt_map ne,
                entry-put_ne key j (some (drop_count, 0)) ae.drop_rpt_map ne,
              ))
      ])

-- What the engine handles under a key: a packet with its attack and bytes, or a drop report.
pub data Event : Type 0 where
  packet : (key : ℕ) → Attack → ℕ → World → Event
  report : (key : ℕ) → ℕ → World → Event

abbrev pub key_of : Event → ℕ
key_of (packet key attack pkt_bytes w) = key
key_of (report key drop_count w) = key

unfoldable pub handle : Event → SimpleAe → SimpleAe
handle (packet key attack pkt_bytes w) ae = (process_key key attack pkt_bytes w ae).1
handle (report key drop_count w) ae = (report_key key drop_count w ae).1

unfoldable pub run : List Event → SimpleAe → SimpleAe
run [] ae = ae
run (e ∷ es) ae = run es (handle e ae)

pub handle-SameEntries :
    (j : ℕ) (e : Event) (ae : SimpleAe) → key_of e ≢ j → SameEntries j (handle e ae) ae
unfolding handle
handle-SameEntries j (packet key attack b w) ae ne =
    process_key-SameEntries key j (beq_ne key j ne) attack w b ae
handle-SameEntries j (report key n w) ae ne = report_key-SameEntries key j (beq_ne key j ne) w n ae

-- Whatever packets and drop reports of other keys come, failing or not, the samples, the last
-- attack, the payload and the drop report entry of a key stay as they are.
pub run-SameEntries :
    (j : ℕ) (events : List Event) (ae : SimpleAe)
    → All (λ e. key_of e ≢ j) events
    → SameEntries j (run events ae) ae
unfolding run
run-SameEntries j [] ae h = record {
  samples = refl;
  last_attack = refl;
  payload = refl;
  report = refl;
}
run-SameEntries j (e ∷ es) ae h =
    let later = run-SameEntries j es (handle e ae) h.1 in
    let first = handle-SameEntries j e ae h.0 in
    record {
      samples = later.samples ∙ first.samples;
      last_attack = later.last_attack ∙ first.last_attack;
      payload = later.payload ∙ first.payload;
      report = later.report ∙ first.report;
    }

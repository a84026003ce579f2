-- ===== src/Analytics/SimpleAe/Progress.antt =====
-- That a stopped attack is noticed: the drop reports of a key of `SimpleAE` of
-- trans_sec/analytics/oinc.py while their drop count stays the same.
use native.Mathlib.Nat.{add-zero}
use transparent_security.Prelude.{
  ℕ, zero, suc, ◌+◌, ◌-◌, ◌≤◌, ◌<◌, ◌≡◌, refl, ap, ◌∙◌, true, false, some, ltb, arith, Bool-cases,
  Option-cases, inl, inr, ltb→lt, nat_beq_iff,
}
use transparent_security.Prelude.Equality.{◌==◌, nat_eq}
use transparent_security.Prelude.Result.{ok}
use transparent_security.Analytics.SimpleAe.Entries.{entry-put_self}
use transparent_security.Analytics.SimpleAe.Stopping.{
  reports, report_key_lem, IsForgotten, report_key-IsForgotten,
}
use transparent_security.Analytics.SimpleAe.{SimpleAe, World, entry, report_key}

-- The attacks that are held, the resource and the requests that were sent are the same.
pub record Quiet (base ae : SimpleAe) : Type 0 where
  pub payload : ae.attack_payload ≡ base.attack_payload
  pub context : ae.sdn_attack_context ≡ base.sdn_attack_context
  pub requests : ae.requests ≡ base.requests

module _ (key drop_count : ℕ) (w : World) where
  -- The key has so many idle reports, of the limit `d`; what is sent and held is that of `base`.
  pub record Waits (base : SimpleAe) (d idle : ℕ) (ae : SimpleAe) : Type 0 where
    pub entry_is : entry key ae.drop_rpt_map ≡ some (drop_count, idle)
    pub limit : ae.drop_count ≡ d
    pub quiet : Quiet base ae

  report_key-Waits :
      (base : SimpleAe) (d idle : ℕ) (ae : SimpleAe)
      → Waits base d idle ae
      → suc idle < d
      → Waits base d (suc idle) (report_key key drop_count w ae).1
  report_key-Waits base d idle ae h early = rw (report_key_lem key w drop_count ae) (
      rw h.entry_is
        (ground (arith, h, entry-put_self key (some (drop_count, idle + 1)) ae.drop_rpt_map)))

  reports-Waits :
      (base : SimpleAe) (d idle n : ℕ) (ae : SimpleAe)
      → Waits base d idle ae
      → idle + n < d
      → Waits base d (idle + n) (reports key w drop_count n ae)
  reports-Waits base d idle zero ae h early = rw add-zero h
  reports-Waits base d idle (suc n) ae h early =
      let e : idle + suc n ≡ suc (idle + n) = omega arith in
      rw e (
        report_key-Waits base d (idle + n) (reports key w drop_count n ae)
          (reports-Waits base d idle n ae h (omega arith)) (omega arith))

  -- A first report with another count
  report_key-Waits_anew :
      (old idle : ℕ) (ae : SimpleAe)
      → entry key ae.drop_rpt_map ≡ some (old, idle)
      → (old == drop_count) ≡ false
      → Waits ae ae.drop_count 0 (report_key key drop_count w ae).1
  report_key-Waits_anew old idle ae e other =
      rw (report_key_lem key w drop_count ae)
        (rw e (ground (arith, other, entry-put_self key (some (drop_count, 0)) ae.drop_rpt_map)))

  report_key-stops :
      (base : SimpleAe) (d idle : ℕ) (ae : SimpleAe)
      → Waits base d idle ae
      → d ≤ suc idle
      → w.reply ≡ ok tt
      → (report_key key drop_count w ae).0 ≡ ok true
  report_key-stops base d idle ae h late replied =
      rw (report_key_lem key w drop_count ae)
        (rw h.entry_is (rw replied (ground (arith, h, Option-cases (entry key ae.attack_payload)))))

  reports-suc :
      (n : ℕ) (ae : SimpleAe)
      → reports key w drop_count (suc n) ae
        ≡ reports key w drop_count n (report_key key drop_count w ae).1
  reports-suc zero ae = refl
  reports-suc (suc n) ae = ap (λ b. (report_key key drop_count w b).1) (reports-suc n ae)

  -- The report after `n` others ends the attack, and till then all is quiet.
  abbrev pub Stops : SimpleAe → ℕ → SimpleAe → Type 0
  Stops base n ae =
      ((report_key key drop_count w (reports key w drop_count n ae)).0 ≡ ok true)
      × Quiet base (reports key w drop_count n ae)

  -- Once the count is that of the reports, they go on until the limit is met.
  Waits-Stops :
      (base : SimpleAe) (d idle : ℕ) (ae : SimpleAe)
      → Waits base d idle ae
      → w.reply ≡ ok tt
      → (n : ℕ) × (n ≤ d - 1) × Stops base n ae
  Waits-Stops base d idle ae h replied = elim (Bool-cases (ltb idle d)) [
    | inl early ↦
        let before = ltb→lt idle d early in
        let n = d - 1 - idle in
        let waits = reports-Waits base d idle n ae h (omega arith) in
        (
          n,
          omega arith,
          (
            report_key-stops base d (idle + n) (reports key w drop_count n ae) waits (omega arith)
                replied,
            waits.quiet,
          ),
        )
    | inr late ↦
        (0, omega arith, (report_key-stops base d idle ae h (ground arith) replied, h.quiet))
  ]

  Stops-suc :
      (base : SimpleAe) (n : ℕ) (ae : SimpleAe)
      → Stops base n (report_key key drop_count w ae).1
      → Stops base (suc n) ae
  Stops-suc base n ae h = rw (reports-suc n ae) h

  Stops-anew :
      (ae : SimpleAe)
      → Waits ae ae.drop_count 0 (report_key key drop_count w ae).1
      → 0 < ae.drop_count
      → w.reply ≡ ok tt
      → (n : ℕ) × (n ≤ ae.drop_count) × Stops ae n ae
  Stops-anew ae h positive replied =
      let (n, bound, stops) =
        Waits-Stops ae ae.drop_count 0 (report_key key drop_count w ae).1 h replied in
      (suc n, omega arith, Stops-suc ae n ae stops)

pub ends_quietly :
    (key drop_count old idle : ℕ) (w : World) (ae : SimpleAe)
    → entry key ae.drop_rpt_map ≡ some (old, idle)
    → 0 < ae.drop_count
    → w.reply ≡ ok tt
    → (n : ℕ) × (n ≤ ae.drop_count) × Stops key drop_count w ae n ae
ends_quietly key c old idle w ae e positive replied = elim (Bool-cases (old == c)) [
  | inl same ↦
      let waits : Waits key c w ae ae.drop_count idle ae = record {
        entry_is = e ∙ ap (λ k. some (k, idle)) ((nat_beq_iff old c).0 same);
        limit = refl;
        quiet = record { payload = refl; context = refl; requests = refl };
      } in
      let (n, bound, stops) = Waits-Stops key c w ae ae.drop_count idle ae waits replied in
      (n, omega arith, stops)
  | inr other ↦
      Stops-anew key c w ae (report_key-Waits_anew key c w old idle ae e other) positive replied
]

-- Once the drop count of a key stays the same, the attack is taken for stopped, whatever the entry
-- held before: by the report after at most `drop_count` others, if requests are delivered and
-- `drop_count` is positive; then nothing is left under the key.
pub stops_eventually :
    (key drop_count old idle : ℕ) (w : World) (ae : SimpleAe)
    → entry key ae.drop_rpt_map ≡ some (old, idle)
    → 0 < ae.drop_count
    → w.reply ≡ ok tt
    → (n : ℕ) × (n ≤ ae.drop_count)
      × ((report_key key drop_count w (reports key w drop_count n ae)).0 ≡ ok true)
      × IsForgotten key (report_key key drop_count w (reports key w drop_count n ae)).1
stops_eventually key c old idle w ae e positive replied =
    let (n, bound, (stops, _)) = ends_quietly key c old idle w ae e positive replied in
    (n, bound, stops, (report_key-IsForgotten key c w (reports key w c n ae) stops).0)

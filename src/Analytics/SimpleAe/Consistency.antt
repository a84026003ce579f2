-- ===== src/Analytics/SimpleAe/Consistency.antt =====
-- The maps of `SimpleAE` agree with one another and with the requests that were sent
-- (trans_sec/analytics/oinc.py).
use transparent_security.Prelude.{
  ℕ, ◌+◌, ◌≡◌, refl, sym, ap, ◌∙◌, Bool, true, false, ◌⊎◌, inl, inr, Option, none, some, List, [],
  ◌∷◌, ◌++◌, ltb, arith, Bool-cases, if◌then◌else◌,
}
use transparent_security.Prelude.Equality.{◌==◌, nat_eq}
use transparent_security.Prelude.Dict.{put}
use transparent_security.Prelude.Result.{Result, ok, err}
use transparent_security.Analytics.SimpleAe.Sums.{any_expired}
use transparent_security.Analytics.SimpleAe.Entries.{entry-put_self}
use transparent_security.Analytics.SimpleAe.Detection.{
  process_key-judged, noted, judged, window, exceeds,
}
use transparent_security.Analytics.SimpleAe.Stopping.{finished, asked, reported, outcome}
use transparent_security.Analytics.SimpleAe.{
  SimpleAe, Attack, Request, post, touched, may_send, World, entry, notify, send_attack,
  process_key, cleared,
}

abbrev pub present {ℓ} : {A : Type ℓ} → Option A → Bool
present none = false
present (some a) = true

abbrev pub WasSent : Request → List Request → Type 0
WasSent r [] = ⊥
WasSent r (s ∷ rs) = (s ≡ r) ⊎ WasSent r rs

pub WasSent-append : (r : Request) (rs ss : List Request) → WasSent r rs → WasSent r (rs ++ ss)
WasSent-append r [] ss h = elim h [ ]
WasSent-append r (s ∷ rs) ss (inl e) = inl e
WasSent-append r (s ∷ rs) ss (inr h) = inr (WasSent-append r rs ss h)

WasSent-last : (r : Request) (rs : List Request) → WasSent r (rs ++ r ∷ [])
WasSent-last r [] = inl refl
WasSent-last r (s ∷ rs) = inr (WasSent-last r rs)

-- Under a key, there is a last attack exactly if there is a payload; then there is a drop report
-- entry, without which no report could ever stop the attack; and the payload was posted.
pub record IsConsistentAt (k : ℕ) (ae : SimpleAe) : Type 0 where
  pub notified : present (entry k ae.attack_map) ≡ present (entry k ae.attack_payload)
  pub stoppable :
      present (entry k ae.attack_payload) ≡ true → present (entry k ae.drop_rpt_map) ≡ true
  pub posted :
      (a : Attack)
      → entry k ae.attack_payload ≡ some a
      → WasSent (post ae.sdn_attack_context a) ae.requests

abbrev pub IsConsistent : SimpleAe → Type 0
IsConsistent ae = (k : ℕ) → IsConsistentAt k ae

abbrev informed : ℕ → Attack → World → SimpleAe → SimpleAe
informed key attack w ae = record ae {
  attack_map = put key (some w.stored) ae.attack_map;
  attack_payload = put key (some attack) ae.attack_payload;
  requests = ae.requests ++ post ae.sdn_attack_context attack ∷ [];
}

notify-informed :
    (key : ℕ) (attack : Attack) (w : World) (ae : SimpleAe)
    → (notify key attack w ae).1
      ≡ (if may_send (entry key ae.attack_map) w.tested then informed key attack w ae else ae)
unfolding notify send_attack
notify-informed key attack w ae = ground arith

module _ (key : ℕ) (attack : Attack) (w : World) where
  informed-IsConsistentAt :
      (ae : SimpleAe)
      → present (entry key ae.drop_rpt_map) ≡ true
      → IsConsistentAt key (informed key attack w ae)
  informed-IsConsistentAt ae d =
      let stored = entry-put_self key (some w.stored) ae.attack_map in
      let payload = entry-put_self key (some attack) ae.attack_payload in
      record {
        notified = ap present stored ∙ sym (ap present payload);
        stoppable = λ _. d;
        posted = λ a e.
            let same : attack ≡ a = cc (payload, e) in
            rw (← same) (WasSent-last (post ae.sdn_attack_context attack) ae.requests);
      }

  notify-IsConsistentAt :
      (ae : SimpleAe)
      → present (entry key ae.drop_rpt_map) ≡ true
      → IsConsistentAt key ae
      → IsConsistentAt key (notify key attack w ae).1
  notify-IsConsistentAt ae d h =
      rw notify-informed (elim (Bool-cases (may_send (entry key ae.attack_map) w.tested)) [
        | inl send ↦ rw send (informed-IsConsistentAt ae d)
        | inr wait ↦ rw wait h
      ])

  noted-IsConsistentAt :
      (b : ℕ) (ae : SimpleAe) → IsConsistentAt key ae → IsConsistentAt key (noted key b w.now ae)
  noted-IsConsistentAt b ae h = record {
    notified = h.notified;
    stoppable = λ _.
        ap present
          (entry-put_self key (some (touched (entry key ae.drop_rpt_map))) ae.drop_rpt_map);
    posted = h.posted;
  }

  judged-IsConsistentAt :
      (b : ℕ) (ae after : SimpleAe)
      → present (entry key after.drop_rpt_map) ≡ true
      → IsConsistentAt key after
      → IsConsistentAt key (judged key attack b w ae after).1
  judged-IsConsistentAt b ae after d h =
      elim (Bool-cases (any_expired ae.sample_interval w.now (window key b w.now ae))) [
        | inl old ↦ rw old h
        | inr fresh ↦ elim (Bool-cases (exceeds ae (window key b w.now ae))) [
          | inl much ↦ rw (fresh, much) (notify-IsConsistentAt after d h)
          | inr few ↦ rw (fresh, few) h
        ]
      ]

  pub process_key-IsConsistentAt :
      (b : ℕ) (ae : SimpleAe)
      → IsConsistentAt key ae
      → IsConsistentAt key (process_key key attack b w ae).1
  process_key-IsConsistentAt b ae h = rw (process_key-judged key attack b w ae) (
      judged-IsConsistentAt b ae (noted key b w.now ae)
        (ap present
          (entry-put_self key (some (touched (entry key ae.drop_rpt_map))) ae.drop_rpt_map))
        (noted-IsConsistentAt b ae h))

module _ (key : ℕ) (w : World) where
  cleared-IsConsistentAt : (ae : SimpleAe) → IsConsistentAt key (cleared key ae)
  cleared-IsConsistentAt ae =
      let payload = entry-put_self key none ae.attack_payload in
      record {
        notified = ap present (entry-put_self key none ae.attack_map) ∙ sym (ap present payload);
        stoppable = λ p. absurd (cc (payload, p));
        posted = λ a e. absurd (cc (payload, e));
      }

  reported-IsConsistentAt :
      (tuple : ℕ × ℕ) (ae : SimpleAe)
      → IsConsistentAt key ae
      → IsConsistentAt key (reported key tuple ae)
  reported-IsConsistentAt tuple ae h = record {
    notified = h.notified;
    stoppable = λ _. ap present (entry-put_self key (some tuple) ae.drop_rpt_map);
    posted = h.posted;
  }

  finished-IsConsistentAt :
      (o : Option Attack) (reply : Result (Unit {0})) (ae : SimpleAe)
      → IsConsistentAt key ae
      → IsConsistentAt key (finished key o reply ae).1
  finished-IsConsistentAt none reply ae h = cleared-IsConsistentAt ae
  finished-IsConsistentAt (some a) (ok _) ae h = cleared-IsConsistentAt (asked a ae)
  finished-IsConsistentAt (some a) (err e) ae h = record {
    notified = h.notified;
    stoppable = h.stoppable;
    posted = λ b p. WasSent-append _ ae.requests _ (h.posted b p);
  }

  pub outcome-IsConsistentAt :
      (drop_count : ℕ) (o : Option (ℕ × ℕ)) (ae : SimpleAe)
      → IsConsistentAt key ae
      → IsConsistentAt key (outcome key w drop_count o ae).1
  outcome-IsConsistentAt c none ae h = h
  outcome-IsConsistentAt c (some (old, idle)) ae h =
      let next = reported-IsConsistentAt (old, idle + 1) ae h in
      elim (Bool-cases (old == c)) [
        | inl same ↦ elim (Bool-cases (ltb (idle + 1) ae.drop_count)) [
          | inl early ↦ rw (same, early) next
          | inr late ↦
              rw (same, late) (finished-IsConsistentAt (entry key ae.attack_payload) w.reply _ next)
        ]
        | inr other ↦ rw other (reported-IsConsistentAt (c, 0) ae h)
      ]

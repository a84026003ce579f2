-- ===== src/Analytics/SimpleAe/Stopping.antt =====
-- When `SimpleAE.process_drop_rpt` of trans_sec/analytics/oinc.py takes an attack for stopped.
use mathlib.Core.List.{append-nil}
use transparent_security.Prelude.{
  ℕ, zero, suc, ◌+◌, ◌<◌, ◌≡◌, refl, sym, ap, Bool, true, false, not, Option, none, some, List, [],
  ◌∷◌, ◌++◌, ltb, if◌then◌else◌, arith, Option-cases, inl, inr,
}
use transparent_security.Prelude.Equality.{◌==◌, nat_eq}
use transparent_security.Prelude.Dict.{put}
use transparent_security.Prelude.Result.{Result, ok, err}
use transparent_security.Analytics.SimpleAe.Entries.{entry-put_self}
use transparent_security.Analytics.SimpleAe.{
  SimpleAe, Attack, Request, delete, World, entry, report_key, report_entry, finish_attack, cleared,
}

-- The engine with a new drop report entry, and with a request sent.
abbrev pub reported : ℕ → ℕ × ℕ → SimpleAe → SimpleAe
reported key tuple ae = record ae { drop_rpt_map = put key (some tuple) ae.drop_rpt_map }

abbrev pub asked : Attack → SimpleAe → SimpleAe
asked attack ae = record ae { requests = ae.requests ++ delete ae.sdn_attack_context attack ∷ [] }

abbrev pub finished : ℕ → Option Attack → Result (Unit {0}) → SimpleAe → Result Bool × SimpleAe
finished key none reply ae = (ok true, cleared key ae)
finished key (some attack) (ok _) ae = (ok true, cleared key (asked attack ae))
finished key (some attack) (err e) ae = (err e, asked attack ae)

module _ (key : ℕ) (w : World) where
  pub finish_attack_lem :
      (ae : SimpleAe)
      → finish_attack key w ae ≡ finished key (entry key ae.attack_payload) w.reply ae
  unfolding finish_attack
  finish_attack_lem ae = elim (Option-cases (entry key ae.attack_payload)) [
    | inl e ↦ rw e refl
    | inr (a, e) ↦ rw e (ground arith)
  ]

  -- What a drop report does, by the key's entry.
  abbrev pub outcome : ℕ → Option (ℕ × ℕ) → SimpleAe → Result Bool × SimpleAe
  outcome drop_count none ae = (ok false, ae)
  outcome drop_count (some (old_count, idle)) ae =
      if not (old_count == drop_count)
      then (ok false, reported key (drop_count, 0) ae)
      else if ltb (idle + 1) ae.drop_count
      then (ok false, reported key (old_count, idle + 1) ae)
      else finished key (entry key ae.attack_payload) w.reply
          (reported key (old_count, idle + 1) ae)

  pub report_key_lem :
      (drop_count : ℕ) (ae : SimpleAe)
      → report_key key drop_count w ae ≡ outcome drop_count (entry key ae.drop_rpt_map) ae
  unfolding report_entry report_key
  report_key_lem dc ae = elim (Option-cases (entry key ae.drop_rpt_map)) [
    | inl e ↦ rw e refl
    | inr ((old, idle), e) ↦
        rw e (ground (arith, finish_attack_lem (reported key (old, idle + 1) ae)))
  ]

  -- The engine after `n` reports with the same drop count.
  abbrev pub reports : ℕ → ℕ → SimpleAe → SimpleAe
  reports drop_count zero ae = ae
  reports drop_count (suc n) ae = (report_key key drop_count w (reports drop_count n ae)).1

  pub record IsIdle (drop_count n : ℕ) (ae after : SimpleAe) : Type 0 where
    pub entry_is : entry key after.drop_rpt_map ≡ some (drop_count, n)
    pub limit : after.drop_count ≡ ae.drop_count
    pub payload : after.attack_payload ≡ ae.attack_payload
    pub requests : after.requests ≡ ae.requests
    pub context : after.sdn_attack_context ≡ ae.sdn_attack_context

  report_key-IsIdle :
      (drop_count n : ℕ) (ae before : SimpleAe)
      → IsIdle drop_count n ae before
      → suc n < ae.drop_count
      → IsIdle drop_count (suc n) ae (report_key key drop_count w before).1
  report_key-IsIdle c n ae before idle h =
      rw (report_key_lem c before) (
        rw idle.entry_is (ground (arith, entry-put_self key (some (c, n + 1)) before.drop_rpt_map)))

  pub reports-IsIdle :
      (drop_count n : ℕ) (ae : SimpleAe)
      → entry key ae.drop_rpt_map ≡ some (drop_count, 0)
      → n < ae.drop_count
      → IsIdle drop_count n ae (reports drop_count n ae)
  reports-IsIdle c zero ae e h = record {
    entry_is = e;
    limit = refl;
    payload = refl;
    requests = refl;
    context = refl;
  }
  reports-IsIdle c (suc n) ae e h =
      report_key-IsIdle c n ae (reports c n ae) (reports-IsIdle c n ae e (omega arith)) h

-- What the end of an attack returns: an attack that is held is asked to be stopped, and that may fail.
abbrev pub end_result : Option Attack → Result (Unit {0}) → Result Bool
end_result none reply = ok true
end_result (some attack) (ok _) = ok true
end_result (some attack) (err e) = err e

finished_result :
    (key : ℕ) (o : Option Attack) (reply : Result (Unit {0})) (ae : SimpleAe)
    → (finished key o reply ae).0 ≡ end_result o reply
finished_result key none reply ae = refl
finished_result key (some attack) (ok _) ae = refl
finished_result key (some attack) (err e) ae = refl

-- From an entry without idle reports on, the report that makes `drop_count` reports with one and the
-- same count ends the attack, and those before it return false: it returns true, but raises what the
-- request to stop the attack raises, where the engine holds an attack under the key and the request
-- fails.
pub stops_exactly :
    (key drop_count n : ℕ) (w : World) (ae : SimpleAe)
    → entry key ae.drop_rpt_map ≡ some (drop_count, 0)
    → n < ae.drop_count
    → (report_key key drop_count w (reports key w drop_count n ae)).0 ≡ (
        if suc n == ae.drop_count
        then end_result (entry key ae.attack_payload) w.reply
        else ok false)
stops_exactly key c n w ae e h =
    let before = reports key w c n ae in
    let idle = reports-IsIdle key w c n ae e h in
    let held = ap (entry key) idle.payload in
    rw (report_key_lem key w c before) (
      rw (idle.entry_is, ← held)
        (ground (
          arith,
          idle,
          finished_result key (entry key before.attack_payload) w.reply
              (reported key (c, n + 1) before),
        )))

abbrev pub stop_requests : Option Attack → SimpleAe → List Request
stop_requests none ae = []
stop_requests (some attack) ae = delete ae.sdn_attack_context attack ∷ []

pub record IsForgotten (key : ℕ) (ae : SimpleAe) : Type 0 where
  pub samples : entry key ae.count_map ≡ none
  pub last_attack : entry key ae.attack_map ≡ none
  pub payload : entry key ae.attack_payload ≡ none
  pub report : entry key ae.drop_rpt_map ≡ none

cleared-IsForgotten : (key : ℕ) (ae : SimpleAe) → IsForgotten key (cleared key ae)
cleared-IsForgotten key ae = record {
  samples = entry-put_self key none ae.count_map;
  last_attack = entry-put_self key none ae.attack_map;
  payload = entry-put_self key none ae.attack_payload;
  report = entry-put_self key none ae.drop_rpt_map;
}

abbrev Stopped : ℕ → Option Attack → SimpleAe → SimpleAe → Type 0
Stopped key payload ae after =
    IsForgotten key after × (after.requests ≡ ae.requests ++ stop_requests payload ae)

finished-Stopped :
    (key : ℕ) (payload : Option Attack) (reply : Result (Unit {0})) (ae : SimpleAe)
    → (finished key payload reply ae).0 ≡ ok true
    → Stopped key payload ae (finished key payload reply ae).1
finished-Stopped key none reply ae h = (cleared-IsForgotten key ae, sym (append-nil ae.requests))
finished-Stopped key (some a) (ok _) ae h = (cleared-IsForgotten key (asked a ae), refl)
finished-Stopped key (some a) (err e) ae h = absurd (cc)

outcome-Stopped :
    (key drop_count : ℕ) (w : World) (ae : SimpleAe) (o : Option (ℕ × ℕ))
    → (outcome key w drop_count o ae).0 ≡ ok true
    → Stopped key (entry key ae.attack_payload) ae (outcome key w drop_count o ae).1
outcome-Stopped key c w ae none h = absurd (cc)
outcome-Stopped key c w ae (some (old, idle)) h = ground (
  arith,
  finished-Stopped key (entry key ae.attack_payload) w.reply (reported key (old, idle + 1) ae),
)

-- A drop report that is taken for the end of an attack has sent a request to stop exactly the attack
-- that was notified under the key, if any was, and nothing is left under the key.
pub report_key-IsForgotten :
    (key drop_count : ℕ) (w : World) (ae : SimpleAe)
    → (report_key key drop_count w ae).0 ≡ ok true
    → IsForgotten key (report_key key drop_count w ae).1
      × ((report_key key drop_count w ae).1.requests
          ≡ ae.requests ++ stop_requests (entry key ae.attack_payload) ae)
report_key-IsForgotten key c w ae h =
    let l = report_key_lem key w c ae in
    rw l (outcome-Stopped key c w ae (entry key ae.drop_rpt_map) (rw l at h))

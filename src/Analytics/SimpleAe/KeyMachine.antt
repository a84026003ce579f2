-- ===== src/Analytics/SimpleAe/KeyMachine.antt =====
-- What `SimpleAE` of trans_sec/analytics/oinc.py is to one key: a machine of its own, which holds
-- the samples, the last attack, the payload and the drop report entry, and knows no other key.
use transparent_security.Prelude.{
  ℕ, ◌+◌, Bool, true, false, not, ◌||◌, Option, none, some, List, [], ◌∷◌, ◌++◌, ltb, if◌then◌else◌,
}
use transparent_security.Prelude.Equality.{◌==◌, nat_eq}
use transparent_security.Prelude.Lists.{length}
use transparent_security.Prelude.Result.{Result, ok, err, value_error}
use transparent_security.Analytics.SimpleAe.Sums.{any_expired, byte_sum}
use transparent_security.Analytics.SimpleAe.Detection.{delivered, is_due}
use transparent_security.Analytics.SimpleAe.Isolation.{Event, packet, report}
use transparent_security.Analytics.SimpleAe.{Attack, World, touched}

pub record KeyState : Type 0 where
  pub samples : List (ℕ × ℕ)
  pub last_attack : Option ℕ
  pub payload : Option Attack
  pub report : Option (ℕ × ℕ)

pub record Limits : Type 0 where
  pub packet_count : ℕ
  pub byte_count : ℕ
  pub sample_interval : ℕ
  pub drop_count : ℕ

abbrev pub forgotten : KeyState
forgotten = record { samples = []; last_attack = none; payload = none; report = none }

-- The end of an attack: a request that fails leaves all as it is.
abbrev pub end_step : Option Attack → Result (Unit {0}) → KeyState → Result Bool × KeyState
end_step none reply s = (ok true, forgotten)
end_step (some attack) (ok _) s = (ok true, forgotten)
end_step (some attack) (err e) s = (err e, s)

module _ (l : Limits) where
  abbrev pub too_much : List (ℕ × ℕ) → Bool
  too_much samples = ltb l.packet_count (length samples) || ltb l.byte_count (byte_sum samples)

  -- A packet
  unfoldable pub packet_step : Attack → ℕ → World → KeyState → Result Bool × KeyState
  packet_step attack pkt_bytes w s =
      let samples = s.samples ++ (w.now, pkt_bytes) ∷ [] in
      let seen = record s { samples = samples; report = some (touched s.report) } in
      if any_expired l.sample_interval w.now samples
      then (err value_error, seen)
      else if not (too_much samples)
      then (ok false, seen)
      else if is_due s.last_attack w.tested
      then (
        ok (delivered w.reply),
        record seen { last_attack = some w.stored; payload = some attack },
      )
      else (ok true, seen)

  abbrev pub entry_step : ℕ → World → Option (ℕ × ℕ) → KeyState → Result Bool × KeyState
  entry_step drop_count w none s = (ok false, s)
  entry_step drop_count w (some (old, idle)) s =
      if not (old == drop_count)
      then (ok false, record s { report = some (drop_count, 0) })
      else if ltb (idle + 1) l.drop_count
      then (ok false, record s { report = some (old, idle + 1) })
      else end_step s.payload w.reply (record s { report = some (old, idle + 1) })

  -- A drop report
  unfoldable pub report_step : ℕ → World → KeyState → Result Bool × KeyState
  report_step drop_count w s = entry_step drop_count w s.report s

  unfoldable pub step : Event → KeyState → Result Bool × KeyState
  unfolding packet_step report_step
  step (packet key attack pkt_bytes w) s = packet_step attack pkt_bytes w s
  step (report key drop_count w) s = report_step drop_count w s

  -- The results of events, one after another, and the state behind them.
  unfoldable pub machine : List Event → KeyState → List (Result Bool) × KeyState
  unfolding step
  machine [] s = ([], s)
  machine (e ∷ events) s =
      let (r, next) = step e s in let (rs, last) = machine events next in (r ∷ rs, last)

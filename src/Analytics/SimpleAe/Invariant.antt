-- ===== src/Analytics/SimpleAe/Invariant.antt =====
-- The maps and requests of `SimpleAE` agree after any packets and drop reports
-- (trans_sec/analytics/oinc.py).
use mathlib.Core.Path.{subst}
use mathlib.Core.List.{append-nil}
use native.Mathlib.Decide.{ℕ_discrete}
use transparent_security.Prelude.{
  ℕ, ◌+◌, ◌≡◌, refl, sym, ap, ◌∙◌, Option, none, some, List, [], ◌∷◌, ◌++◌, arith, ltb, Bool-cases,
  inl, inr,
}
use transparent_security.Prelude.Equality.{◌==◌, nat_eq}
use transparent_security.Prelude.Result.{Result, ok, err}
use transparent_security.Analytics.SimpleAe.Detection.{
  process_key_lem, process_key-judged, window, notices,
}
use transparent_security.Analytics.SimpleAe.Stopping.{finished, reported, report_key_lem, outcome}
use transparent_security.Analytics.SimpleAe.Isolation.{
  SameEntries, Event, packet, report, key_of, handle, handle-SameEntries, run,
}
use transparent_security.Analytics.SimpleAe.Consistency.{
  present, WasSent-append, IsConsistentAt, IsConsistent, process_key-IsConsistentAt,
  outcome-IsConsistentAt,
}
use transparent_security.Analytics.SimpleAe.{
  SimpleAe, Attack, Request, World, entry, notify, send_attack, process_key, report_key,
}

-- Requests are only added, and the context of the requests stays.
record Grows (a b : SimpleAe) : Type 0 where
  more : List Request
  requests : b.requests ≡ a.requests ++ more
  context : b.sdn_attack_context ≡ a.sdn_attack_context

process_key-Grows :
    (key : ℕ) (attack : Attack) (b : ℕ) (w : World) (ae : SimpleAe)
    → Grows ae (process_key key attack b w ae).1
process_key-Grows key attack b w ae = record {
  more = notices key attack w (window key b w.now ae) ae;
  requests = (process_key_lem key attack b w ae).1;
  context = rw (process_key-judged key attack b w ae) (unfold notify send_attack in ground arith);
}

finished-Grows :
    (key : ℕ) (o : Option Attack) (reply : Result (Unit {0})) (tuple : ℕ × ℕ) (ae : SimpleAe)
    → Grows ae (finished key o reply (reported key tuple ae)).1
finished-Grows key none reply tuple ae = record {
  more = [];
  requests = sym (append-nil _);
  context = refl;
}
finished-Grows key (some a) (ok _) tuple ae = record { more = _; requests = refl; context = refl }
finished-Grows key (some a) (err e) tuple ae = record { more = _; requests = refl; context = refl }

outcome-Grows :
    (key : ℕ) (w : World) (c : ℕ) (o : Option (ℕ × ℕ)) (ae : SimpleAe)
    → Grows ae (outcome key w c o ae).1
outcome-Grows key w c none ae = record { more = []; requests = sym (append-nil _); context = refl }
outcome-Grows key w c (some (old, idle)) ae = elim (Bool-cases (old == c)) [
  | inl same ↦ elim (Bool-cases (ltb (idle + 1) ae.drop_count)) [
    | inl early ↦
        rw (same, early) (record { more = []; requests = sym (append-nil _); context = refl })
    | inr late ↦
        rw (same, late)
          (finished-Grows key (entry key ae.attack_payload) w.reply (old, idle + 1) ae)
  ]
  | inr other ↦ rw other (record { more = []; requests = sym (append-nil _); context = refl })
]

report_key-Grows : (key c : ℕ) (w : World) (ae : SimpleAe) → Grows ae (report_key key c w ae).1
report_key-Grows key c w ae =
    rw (report_key_lem key w c ae) (outcome-Grows key w c (entry key ae.drop_rpt_map) ae)

report_key-IsConsistentAt :
    (key c : ℕ) (w : World) (ae : SimpleAe)
    → IsConsistentAt key ae
    → IsConsistentAt key (report_key key c w ae).1
report_key-IsConsistentAt key c w ae h =
    rw (report_key_lem key w c ae) (outcome-IsConsistentAt key w c (entry key ae.drop_rpt_map) ae h)

handle-Grows : (e : Event) (ae : SimpleAe) → Grows ae (handle e ae)
unfolding handle
handle-Grows (packet key attack b w) ae = process_key-Grows key attack b w ae
handle-Grows (report key c w) ae = report_key-Grows key c w ae

handle-IsConsistentAt_self :
    (e : Event) (ae : SimpleAe)
    → IsConsistentAt (key_of e) ae
    → IsConsistentAt (key_of e) (handle e ae)
unfolding handle
handle-IsConsistentAt_self (packet key attack b w) ae h =
    process_key-IsConsistentAt key attack w b ae h
handle-IsConsistentAt_self (report key c w) ae h = report_key-IsConsistentAt key c w ae h

SameEntries-IsConsistentAt :
    (k : ℕ) (ae after : SimpleAe)
    → SameEntries k after ae
    → Grows ae after
    → IsConsistentAt k ae
    → IsConsistentAt k after
SameEntries-IsConsistentAt k ae after same grows h = record {
  notified = ap present same.last_attack ∙ h.notified ∙ ap present (sym same.payload);
  stoppable = λ p. ap present same.report ∙ h.stoppable (ap present (sym same.payload) ∙ p);
  posted = λ a e.
      rw (grows.requests, grows.context)
        (WasSent-append _ ae.requests grows.more (h.posted a (sym same.payload ∙ e)));
}

handle-IsConsistent : (e : Event) (ae : SimpleAe) → IsConsistent ae → IsConsistent (handle e ae)
handle-IsConsistent e ae h k = elim (ℕ_discrete (key_of e) k) [
  | yes same ↦
      subst (λ j. IsConsistentAt j (handle e ae)) same
        (handle-IsConsistentAt_self e ae (h (key_of e)))
  | no other ↦
      SameEntries-IsConsistentAt k ae (handle e ae) (handle-SameEntries k e ae other)
        (handle-Grows e ae) (h k)
]

-- These stay true of every key, whatever packets and drop reports come and whichever requests fail:
-- a key has a last attack exactly if it has a payload, a key with a payload has a drop report entry,
-- by which the attack can be stopped, and every payload was posted.
pub run-IsConsistent :
    (events : List Event) (ae : SimpleAe) → IsConsistent ae → IsConsistent (run events ae)
unfolding run
run-IsConsistent [] ae h = h
run-IsConsistent (e ∷ es) ae h = run-IsConsistent es (handle e ae) (handle-IsConsistent e ae h)

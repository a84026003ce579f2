-- ===== src/Examples/Detecting.antt =====
-- Runs of `SimpleAE` of trans_sec/analytics/oinc.py: an engine for which three packets are an attack.
use transparent_security.Prelude.{
  ℕ, ◌+◌, ◌*◌, ◌≡◌, ◌≤◌, true, false, refl, ◌||◌, List, [], ◌∷◌, ◌++◌, map, ltb, suc, arith,
  if◌then◌else◌,
}
use transparent_security.Prelude.Equality.{◌==◌, nat_eq}
use transparent_security.Prelude.Lists.{length}
use transparent_security.Prelude.Dict.{get, put}
use transparent_security.Prelude.Result.{ok, err, value_error}
use transparent_security.Analytics.SimpleAe.{
  SimpleAe, Attack, World, entry, may_send, process_key, report_key,
}
use transparent_security.Analytics.SimpleAe.Feed.{Arrival, feed}
use transparent_security.Analytics.SimpleAe.Flood.{bytes_of, flood_detected}
use transparent_security.Analytics.SimpleAe.Lapse.{lapsed_packets}
use transparent_security.Analytics.SimpleAe.Stopping.{
  reports, end_result, stops_exactly, IsForgotten, stop_requests, report_key-IsForgotten,
}
use transparent_security.Analytics.SimpleAe.Progress.{stops_eventually}
use transparent_security.Analytics.SimpleAe.KeyMachine.{machine}
use transparent_security.Analytics.SimpleAe.Refinement.{history, own, view, limits_of, run_refines}
use transparent_security.Analytics.SimpleAe.Isolation.{
  Event, packet, report, run, SameEntries, run-SameEntries,
}
use transparent_security.Analytics.SimpleAe.Consistency.{IsConsistent}
use transparent_security.Analytics.SimpleAe.Invariant.{run-IsConsistent}

abbrev pub engine : SimpleAe
engine = record {
  sdn_attack_context = "aggAttack";
  packet_count = 2;
  sample_interval = 60;
  drop_count = 3;
  byte_count = 50_000;
  count_map = [];
  attack_map = [];
  attack_payload = [];
  drop_rpt_map = [];
  requests = [];
}

abbrev pub flood : Attack
flood = record { src_mac = "00:11"; dst_port = 80; dst_ip = "10.0.0.1" }

abbrev pub at : ℕ → World
at seconds = record {
  now = seconds * 1_000_000;
  tested = seconds * 1_000_000;
  stored = seconds * 1_000_000;
  reply = ok tt;
}

abbrev two : List Arrival
two = (100, at 5) ∷ (100, at 6) ∷ []

abbrev three : List Arrival
three = (100, at 5) ∷ (100, at 6) ∷ (100, at 7) ∷ []

abbrev pub attacked : SimpleAe
unfolding feed
attacked = (feed 9 flood three engine).1

flood_detected_example :
    (process_key 9 flood 100 (at 7) (feed 9 flood two engine).1).0
    ≡ ok (ltb 2 (length two + 1) || ltb 50_000 (bytes_of two + 100))
unfolding get
flood_detected_example =
    flood_detected 9 flood two 100 (at 7) engine refl (omega arith, (omega arith, tt)) refl

abbrev mixed : List Event
mixed = packet 9 flood 1 (at 80) ∷ report 4 0 (at 85) ∷ packet 9 flood 1 (at 90) ∷ []

lapsed_packets_example :
    (history 9 mixed attacked ≡ map (λ _. err value_error) (own 9 mixed))
    × (entry 9 (run mixed attacked).attack_map ≡ entry 9 attacked.attack_map)
    × (entry 9 (run mixed attacked).attack_payload ≡ entry 9 attacked.attack_payload)
unfolding get attacked process_key put may_send own
lapsed_packets_example =
    lapsed_packets 9 70_000_000 mixed attacked refl (omega arith, (omega arith, tt))

stops_exactly_example :
    (report_key 9 0 (at 20) (reports 9 (at 20) 0 2 attacked)).0
    ≡ (if suc 2 == 3 then end_result (entry 9 attacked.attack_payload) (ok tt) else ok false)
unfolding get put attacked process_key may_send
stops_exactly_example = stops_exactly 9 0 2 (at 20) attacked refl (omega arith)

abbrev idle : SimpleAe
unfolding report_key
idle = reports 9 (at 20) 0 2 attacked

report_key-IsForgotten_example :
    IsForgotten 9 (report_key 9 0 (at 20) idle).1
    × ((report_key 9 0 (at 20) idle).1.requests
        ≡ idle.requests ++ stop_requests (entry 9 idle.attack_payload) idle)
unfolding report_key get put attacked process_key may_send
report_key-IsForgotten_example = report_key-IsForgotten 9 0 (at 20) idle refl

abbrev pub others : List Event
others = packet 4 flood 100 (at 8) ∷ report 4 0 (at 9) ∷ []

run-SameEntries_example : SameEntries 9 (run others attacked) attacked
run-SameEntries_example = run-SameEntries 9 others attacked (ground arith, (ground arith, tt))

engine-IsConsistent : IsConsistent engine
unfolding get
engine-IsConsistent k = record {
  notified = refl;
  stoppable = λ p. absurd (cc (p));
  posted = λ a e. absurd (cc (e));
}

run-IsConsistent_example : IsConsistent (run others engine)
run-IsConsistent_example = run-IsConsistent others engine engine-IsConsistent

stops_eventually_example :
    (n : ℕ) × (n ≤ 3)
    × ((report_key 9 7 (at 20) (reports 9 (at 20) 7 n attacked)).0 ≡ ok true)
    × IsForgotten 9 (report_key 9 7 (at 20) (reports 9 (at 20) 7 n attacked)).1
unfolding get put attacked process_key may_send
stops_eventually_example = stops_eventually 9 7 0 0 (at 20) attacked refl (omega arith) refl

run_refines_example :
    (history 4 others engine, view 4 (run others engine))
    ≡ machine (limits_of engine) (own 4 others) (view 4 engine)
run_refines_example = run_refines 4 others engine

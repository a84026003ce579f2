-- ===== src/Examples/Looping.antt =====
-- Runs of the loop from the drop counters of the switch back to the analytics engine.
use transparent_security.Prelude.{
  ℕ, ◌+◌, ◌≤◌, ◌≡◌, refl, Bool, true, false, some, List, [], ◌∷◌, ◌++◌, arith,
}
use transparent_security.Prelude.Dict.{get}
use transparent_security.Prelude.Lists.{All}
use transparent_security.Prelude.Result.{ok}
use transparent_security.Convert.{ℤ, pos, negsuc}
use transparent_security.Controller.DropReports.{Reporter, Surroundings, last_count}
use transparent_security.Analytics.SimpleAe.{SimpleAe, Attack, delete}
use transparent_security.Analytics.SimpleAe.Stopping.{IsForgotten}
use transparent_security.ControlLoop.{Carried, IsCarried, period, Round, rounds}
use transparent_security.ControlLoop.Cumulative.{rounds-Unmoved}
use transparent_security.ControlLoop.Delta.{steady, IsDelta, steady_stops}
use transparent_security.Examples.Detecting.{engine, at}

abbrev natural : ℤ → ℕ
natural (pos n) = n
natural (negsuc n) = 0

abbrev carry : Carried
carry p = (p.drop_tbl_keys, natural p.drop_count)

carry-IsCarried : IsCarried carry
carry-IsCarried = record { carries = λ p n e h small. rw e refl }

abbrev blocking : SimpleAe
blocking = record engine { drop_rpt_map = (9, (some (0, 0))) ∷ [] }

abbrev lab : Surroundings
lab = record { sdn_ip = ok "10.0.0.9"; node_id = ok 1; timestamp = 7 }

abbrev reporter : Bool → Reporter
reporter is_delta = record {
  ae_ip = some "10.0.0.8";
  is_delta = is_delta;
  drop_rpt_count = [];
  sent = [];
}

abbrev growing : List Round
growing =
    record { dropped = 4; surroundings = lab; world = at 10 }
    ∷ record { dropped = 9; surroundings = lab; world = at 20 }
    ∷ []

rounds-Unmoved_example :
    let (answers, (r, last)) = rounds carry 9 growing (reporter false, blocking) in
    All (λ a. a ≡ ok false) answers × (last.requests ≡ blocking.requests)
unfolding get
rounds-Unmoved_example =
    rounds-Unmoved carry carry-IsCarried 9 (omega arith) 0 growing (reporter false) blocking refl
      (omega arith) (omega arith, omega arith, (omega arith, omega arith, tt))

reporter-IsDelta : IsDelta 9 lab (reporter true)
reporter-IsDelta = record {
  nonzero = refl;
  mode = refl;
  host = ("10.0.0.9", refl);
  node = (1, refl);
}

abbrev steady_attack : Attack
steady_attack = record { src_mac = "00:00:00:00:00:05"; dst_port = 80; dst_ip = "10.0.0.7" }

abbrev fighting : SimpleAe
fighting = record blocking { attack_payload = (9, some steady_attack) ∷ [] }

steady_stops_example :
    (n : ℕ) × (n ≤ 3)
    × (let (r', before) = steady carry 9 n 5 lab (at 10) (reporter true, fighting) in
        let (answers, (_, after)) = period carry 9 (last_count 9 r' + 5) lab (at 10) (r', before) in
        (answers ≡ ok true ∷ [])
        × IsForgotten 9 after
        × (after.requests ≡ [] ++ delete "aggAttack" steady_attack ∷ []))
unfolding get
steady_stops_example =
    steady_stops carry carry-IsCarried 9 (omega arith) 5 0 0 steady_attack lab (at 10)
      (reporter true) fighting reporter-IsDelta (omega arith) refl refl (omega arith) refl

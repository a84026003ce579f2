-- ===== src/Analytics/SimpleAe/Detection.antt =====
-- When `SimpleAE` of trans_sec/analytics/oinc.py takes the packets of a key for an attack.
use mathlib.Core.List.{append-nil}
use transparent_security.Prelude.{
  ℕ, ◌-◌, ◌≡◌, refl, Option, none, ltb, ◌||◌, Bool, true, false, ◌&&◌, some, List, [], ◌∷◌, ◌++◌,
  if◌then◌else◌, arith,
}
use transparent_security.Prelude.Equality.{◌==◌, nat_eq}
use transparent_security.Prelude.Dict.{put}
use transparent_security.Prelude.Lists.{length}
use transparent_security.Prelude.Result.{Result, ok, err, value_error}
use transparent_security.Analytics.SimpleAe.Sums.{any_expired, byte_sum, scan_lem}
use transparent_security.Analytics.SimpleAe.Entries.{entry-put_self}
use transparent_security.Analytics.SimpleAe.{
  SimpleAe, Attack, Request, post, World, entry, sample_list, touched, may_send, notify,
  send_attack, process_key, is_attack,
}

-- The samples of a key once a packet is noted.
abbrev pub window : ℕ → ℕ → ℕ → SimpleAe → List (ℕ × ℕ)
window key pkt_bytes now ae = sample_list (entry key ae.count_map) ++ (now, pkt_bytes) ∷ []

abbrev pub exceeds : SimpleAe → List (ℕ × ℕ) → Bool
exceeds ae samples = is_attack ae (length samples, byte_sum samples)

abbrev pub delivered : Result (Unit {0}) → Bool
delivered (ok _) = true
delivered (err _) = false

-- No notice was sent, or the last one more than a second before, in microseconds. A time of 0 counts
-- as none.
abbrev pub is_due : Option ℕ → ℕ → Bool
is_due none tested = true
is_due (some last_attack) tested = last_attack == 0 || ltb 1_000_000 (tested - last_attack)

pub may_send_lem : (last : Option ℕ) (tested : ℕ) → may_send last tested ≡ is_due last tested
unfolding may_send
may_send_lem none tested = refl
may_send_lem (some last_attack) tested = ground arith

-- What handling a packet of a key returns, by the samples that the key then has.
abbrev pub verdict : ℕ → World → List (ℕ × ℕ) → SimpleAe → Result Bool
verdict key w samples ae =
    if any_expired ae.sample_interval w.now samples
    then err value_error
    else if exceeds ae samples
    then (if is_due (entry key ae.attack_map) w.tested then ok (delivered w.reply) else ok true)
    else ok false

-- The requests that it sends.
abbrev pub notices : ℕ → Attack → World → List (ℕ × ℕ) → SimpleAe → List Request
notices key attack w samples ae =
    if any_expired ae.sample_interval w.now samples
    then []
    else if exceeds ae samples && is_due (entry key ae.attack_map) w.tested
    then post ae.sdn_attack_context attack ∷ []
    else []

-- When the last notice was sent, as it is kept behind the packet.
abbrev pub last_notice : ℕ → World → List (ℕ × ℕ) → SimpleAe → Option ℕ
last_notice key w samples ae =
    if any_expired ae.sample_interval w.now samples
    then entry key ae.attack_map
    else if exceeds ae samples && is_due (entry key ae.attack_map) w.tested
    then some w.stored
    else entry key ae.attack_map

-- The engine with the packet noted.
abbrev pub noted : ℕ → ℕ → ℕ → SimpleAe → SimpleAe
noted key pkt_bytes now ae = record ae {
  count_map =
      put key (some (window key pkt_bytes now ae))
        (put key (some (window key pkt_bytes now ae)) ae.count_map);
  drop_rpt_map = put key (some (touched (entry key ae.drop_rpt_map))) ae.drop_rpt_map;
}

module _ (key : ℕ) (attack : Attack) (pkt_bytes : ℕ) (w : World) (ae : SimpleAe) where
  abbrev pub judged : SimpleAe → Result Bool × SimpleAe
  judged after =
      if any_expired ae.sample_interval w.now (window key pkt_bytes w.now ae)
      then (err value_error, after)
      else if exceeds ae (window key pkt_bytes w.now ae)
      then notify key attack w after
      else (ok false, after)

  pub process_key-judged :
      process_key key attack pkt_bytes w ae ≡ judged (noted key pkt_bytes w.now ae)
  unfolding process_key
  process_key-judged = rw (entry-put_self, scan_lem) (ground arith)

  pub process_key_result :
      (process_key key attack pkt_bytes w ae).0 ≡ verdict key w (window key pkt_bytes w.now ae) ae
  process_key_result =
      rw (process_key-judged, ← may_send_lem) (unfold notify send_attack in ground arith)

  pub process_key_requests :
      (process_key key attack pkt_bytes w ae).1.requests
      ≡ ae.requests ++ notices key attack w (window key pkt_bytes w.now ae) ae
  process_key_requests =
      rw (process_key-judged, ← may_send_lem)
        (unfold notify send_attack in ground (arith, append-nil ae.requests))

  pub process_key_last :
      entry key (process_key key attack pkt_bytes w ae).1.attack_map
      ≡ last_notice key w (window key pkt_bytes w.now ae) ae
  process_key_last =
      rw (process_key-judged, ← may_send_lem)
        (unfold notify send_attack in
          ground (arith, entry-put_self key (some w.stored) ae.attack_map))

  notify-count_map : (after : SimpleAe) → (notify key attack w after).1.count_map ≡ after.count_map
  unfolding notify
  notify-count_map after = ground arith

  notify-drop_rpt_map :
      (after : SimpleAe) → (notify key attack w after).1.drop_rpt_map ≡ after.drop_rpt_map
  unfolding notify
  notify-drop_rpt_map after = ground arith

  pub process_key_samples :
      entry key (process_key key attack pkt_bytes w ae).1.count_map
      ≡ some (window key pkt_bytes w.now ae)
  process_key_samples = rw process_key-judged (
      ground (
        arith,
        notify-count_map (noted key pkt_bytes w.now ae),
        entry-put_self key (some (window key pkt_bytes w.now ae))
            (put key (some (window key pkt_bytes w.now ae)) ae.count_map),
      ))

  pub process_key_report :
      entry key (process_key key attack pkt_bytes w ae).1.drop_rpt_map
      ≡ some (touched (entry key ae.drop_rpt_map))
  process_key_report = rw process_key-judged (
      ground (
        arith,
        notify-drop_rpt_map (noted key pkt_bytes w.now ae),
        entry-put_self key (some (touched (entry key ae.drop_rpt_map))) ae.drop_rpt_map,
      ))

pub process_key_lem :
    (key : ℕ) (attack : Attack) (pkt_bytes : ℕ) (w : World) (ae : SimpleAe)
    → let samples = window key pkt_bytes w.now ae in
      let (result, after) = process_key key attack pkt_bytes w ae in
      (result ≡ verdict key w samples ae)
      × (after.requests ≡ ae.requests ++ notices key attack w samples ae)
      × (entry key after.count_map ≡ some samples)
      × (entry key after.drop_rpt_map ≡ some (touched (entry key ae.drop_rpt_map)))
      × (entry key after.attack_map ≡ last_notice key w samples ae)
process_key_lem key attack b w ae = (
  process_key_result key attack b w ae,
  process_key_requests key attack b w ae,
  process_key_samples key attack b w ae,
  process_key_report key attack b w ae,
  process_key_last key attack b w ae,
)

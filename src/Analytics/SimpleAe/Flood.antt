-- ===== src/Analytics/SimpleAe/Flood.antt =====
-- The first packets of a key of `SimpleAE` within the sample interval
-- (trans_sec/analytics/oinc.py).
use native.Mathlib.Nat.{add-zero}
use transparent_security.Prelude.{
  ℕ, ◌+◌, ◌*◌, ◌≤◌, ◌≡◌, refl, ap, suc, ◌∙◌, false, ◌||◌, none, List, [], ◌∷◌, ◌++◌, ltb, arith,
}
use transparent_security.Prelude.Lists.{length, All, length-append}
use transparent_security.Prelude.Result.{ok}
use transparent_security.Analytics.SimpleAe.Sums.{any_expired, byte_sum}
use transparent_security.Analytics.SimpleAe.Detection.{process_key_lem, window, verdict, exceeds}
use transparent_security.Analytics.SimpleAe.{
  SimpleAe, Attack, World, entry, sample_list, process_key,
}
use transparent_security.Analytics.SimpleAe.Feed.{
  Arrival, samples_of, feed, any_expired-append, feed-SameLimits, samples_at, samples_at-feed,
}

abbrev pub bytes_of : List Arrival → ℕ
bytes_of [] = 0
bytes_of ((pkt_bytes, w) ∷ rest) = pkt_bytes + bytes_of rest

count_samples_of : (arrivals : List Arrival) → length (samples_of arrivals) ≡ length arrivals
count_samples_of [] = refl
count_samples_of (a ∷ arrivals) = ap suc (count_samples_of arrivals)

byte_sum-append : (xs ys : List (ℕ × ℕ)) → byte_sum (xs ++ ys) ≡ byte_sum xs + byte_sum ys
byte_sum-append [] ys = omega arith
byte_sum-append ((t, n) ∷ xs) ys = omega (arith, byte_sum-append xs ys)

byte_sum-samples_of : (arrivals : List Arrival) → byte_sum (samples_of arrivals) ≡ bytes_of arrivals
byte_sum-samples_of [] = refl
byte_sum-samples_of ((b, w) ∷ rest) = omega (arith, byte_sum-samples_of rest)

-- No arrival lies more than the sample interval before `now`.
abbrev pub IsRecent : ℕ → ℕ → List Arrival → Type 0
IsRecent sample_interval now = All (λ (a : Arrival). now ≤ sample_interval * 1_000_000 + a.1.now)

any_expired-samples_of :
    (iv now : ℕ) (arrivals : List Arrival)
    → IsRecent iv now arrivals
    → any_expired iv now (samples_of arrivals) ≡ false
any_expired-samples_of iv now [] h = refl
any_expired-samples_of iv now ((b, w) ∷ rest) h =
    ground (arith, any_expired-samples_of iv now rest h.1)

last_fresh : (iv now b : ℕ) → any_expired iv now ((now, b) ∷ []) ≡ false
last_fresh iv now b = ground arith

verdict_replied :
    (key : ℕ) (w : World) (samples : List (ℕ × ℕ)) (ae : SimpleAe)
    → any_expired ae.sample_interval w.now samples ≡ false
    → w.reply ≡ ok tt
    → verdict key w samples ae ≡ ok (exceeds ae samples)
verdict_replied key w samples ae h replied = ground arith

samples_at-first :
    (key : ℕ) (attack : Attack) (arrivals : List Arrival) (ae : SimpleAe)
    → entry key ae.count_map ≡ none
    → samples_at key attack (feed key attack arrivals ae).1 ≡ samples_of arrivals
samples_at-first key attack arrivals ae new =
    samples_at-feed key attack arrivals ae ∙ ap (λ o. sample_list o ++ samples_of arrivals) new

-- The first packets of a key, all within the sample interval of the last of them and with the
-- requests delivered: the last is taken for an attack exactly if, with those before it, there are
-- more packets than the packet count or more bytes than the byte count.
pub flood_detected :
    (key : ℕ) (attack : Attack) (arrivals : List Arrival) (pkt_bytes : ℕ) (w : World)
    (ae : SimpleAe)
    → entry key ae.count_map ≡ none
    → IsRecent ae.sample_interval w.now arrivals
    → w.reply ≡ ok tt
    → (process_key key attack pkt_bytes w (feed key attack arrivals ae).1).0
      ≡ ok (
          ltb ae.packet_count (length arrivals + 1)
          || ltb ae.byte_count (bytes_of arrivals + pkt_bytes))
flood_detected key attack arrivals b w ae new recent replied =
    let before = (feed key attack arrivals ae).1 in
    let last : List (ℕ × ℕ) = (w.now, b) ∷ [] in
    let limits = feed-SameLimits key attack arrivals ae in
    let samples = samples_at-first key attack arrivals ae new in
    let (result, _, _, _, _) = process_key_lem key attack b w before in
    let fresh =
      any_expired-append ae.sample_interval w.now (samples_of arrivals) last
      ∙ ap (λ x. x || any_expired ae.sample_interval w.now last)
          (any_expired-samples_of ae.sample_interval w.now arrivals recent)
      ∙ last_fresh ae.sample_interval w.now b in
    result
    ∙ verdict_replied key w (window key b w.now before) before
        (rw (limits.sample_interval, samples) fresh) replied
    ∙ rw (limits.packet_count, limits.byte_count, samples)
        (rw (length-append, byte_sum-append)
          (rw (count_samples_of, byte_sum-samples_of) (rw add-zero refl)))

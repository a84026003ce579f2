-- ===== src/Analytics/SimpleAe/Feed.antt =====
-- The packets of one key in sequence, as `SimpleAE` of trans_sec/analytics/oinc.py sees them.
use mathlib.Core.List.{append_assoc, append-nil}
use transparent_security.Prelude.{
  ℕ, ◌≤◌, ◌≡◌, refl, sym, ap, ◌∙◌, Bool, true, ◌||◌, List, [], ◌∷◌, ◌++◌, arith,
}
use transparent_security.Prelude.Result.{Result}
use transparent_security.Analytics.SimpleAe.Sums.{any_expired}
use transparent_security.Analytics.SimpleAe.Detection.{process_key_lem, process_key-judged, window}
use transparent_security.Analytics.SimpleAe.{
  SimpleAe, Attack, World, entry, sample_list, notify, send_attack, process_key,
}

-- The number of bytes of a packet, and the world that it meets.
abbrev pub Arrival : Type 0
Arrival = ℕ × World

abbrev pub sample : Arrival → ℕ × ℕ
sample (pkt_bytes, w) = (w.now, pkt_bytes)

abbrev pub samples_of : List Arrival → List (ℕ × ℕ)
samples_of [] = []
samples_of (a ∷ arrivals) = sample a ∷ samples_of arrivals

module _ (key : ℕ) (attack : Attack) where
  -- The results of the packets, one after another, and the engine behind them.
  unfoldable pub feed : List Arrival → SimpleAe → List (Result Bool) × SimpleAe
  feed [] ae = ([], ae)
  feed ((pkt_bytes, w) ∷ rest) ae =
      let (r, next) = process_key key attack pkt_bytes w ae in
      let (rs, last) = feed rest next in (r ∷ rs, last)

pub any_expired-append :
    (iv now : ℕ) (xs ys : List (ℕ × ℕ))
    → any_expired iv now (xs ++ ys) ≡ (any_expired iv now xs || any_expired iv now ys)
any_expired-append iv now [] ys = refl
any_expired-append iv now ((t, n) ∷ xs) ys = ground (arith, any_expired-append iv now xs ys)

pub any_expired_mono :
    (iv t now : ℕ) (xs : List (ℕ × ℕ))
    → t ≤ now
    → any_expired iv t xs ≡ true
    → any_expired iv now xs ≡ true
any_expired_mono iv t now [] h e = cc
any_expired_mono iv t now ((s, n) ∷ xs) h e = ground (arith, any_expired_mono iv t now xs h)

pub record SameLimits (a b : SimpleAe) : Type 0 where
  pub packet_count : a.packet_count ≡ b.packet_count
  pub byte_count : a.byte_count ≡ b.byte_count
  pub sample_interval : a.sample_interval ≡ b.sample_interval

module _ (key : ℕ) (attack : Attack) where
  pub process_key-SameLimits :
      (b : ℕ) (w : World) (ae : SimpleAe) → SameLimits (process_key key attack b w ae).1 ae
  process_key-SameLimits b w ae =
      rw (process_key-judged key attack b w ae) (unfold notify send_attack in ground arith)

  pub feed-SameLimits :
      (arrivals : List Arrival) (ae : SimpleAe) → SameLimits (feed key attack arrivals ae).1 ae
  unfolding feed
  feed-SameLimits [] ae = record { packet_count = refl; byte_count = refl; sample_interval = refl }
  feed-SameLimits ((b, w) ∷ rest) ae =
      let next = (process_key key attack b w ae).1 in
      ground (arith, process_key-SameLimits b w ae, feed-SameLimits rest next)

  abbrev pub samples_at : SimpleAe → List (ℕ × ℕ)
  samples_at ae = sample_list (entry key ae.count_map)

  pub samples_at-process_key :
      (b : ℕ) (w : World) (ae : SimpleAe)
      → samples_at (process_key key attack b w ae).1 ≡ window key b w.now ae
  samples_at-process_key b w ae = ap sample_list (process_key_lem key attack b w ae).2

  pub samples_at-feed :
      (arrivals : List Arrival) (ae : SimpleAe)
      → samples_at (feed key attack arrivals ae).1 ≡ samples_at ae ++ samples_of arrivals
  unfolding feed
  samples_at-feed [] ae = sym (append-nil _)
  samples_at-feed ((b, w) ∷ rest) ae =
      let next = (process_key key attack b w ae).1 in
      samples_at-feed rest next
      ∙ ap (λ l. l ++ samples_of rest) (samples_at-process_key b w ae)
      ∙ append_assoc (samples_at ae) (sample (b, w) ∷ []) (samples_of rest)

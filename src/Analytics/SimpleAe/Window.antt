-- ===== src/Analytics/SimpleAe/Window.antt =====
-- The loop of `SimpleAE.__process` over the samples of a key, in trans_sec/analytics/oinc.py. The
-- loop goes by position over the list that its body removes from. What it asks to remove is the
-- pair of a time and the builtin type `bytes`, not of the time and the number of bytes.
use transparent_security.Prelude.{
  ℕ, zero, suc, ◌+◌, ◌*◌, Bool, true, false, ◌&&◌, none, some, List, [], ◌∷◌, ltb, if◌then◌else◌,
}
use transparent_security.Prelude.Equality.{◌==◌, nat_eq}
use transparent_security.Prelude.Lists.{get_elem?}
use transparent_security.Prelude.Result.{Result, ok, err, value_error}

-- The second part of a tuple that `remove` is called with.
pub data Operand : Type 0 where
  number : ℕ → Operand
  bytes_type : Operand

abbrev equals : ℕ → Operand → Bool
equals n (number m) = n == m
equals n bytes_type = false

-- `samples.remove((time, operand))`
unfoldable pub remove : ℕ → Operand → List (ℕ × ℕ) → Result (List (ℕ × ℕ))
remove time operand [] = err value_error
remove time operand ((t, n) ∷ samples) =
    let rest = remove time operand samples in
    if t == time && equals n operand
    then ok samples
    else elim rest [ ok left ↦ ok ((t, n) ∷ left) | err e ↦ err e ]

-- `(curr_time - eval_time).total_seconds() > sample_interval`
abbrev pub is_expired : ℕ → ℕ → ℕ → Bool
is_expired sample_interval now time = ltb (sample_interval * 1_000_000 + time) now

-- The loop from position `i`: its result, and the list as the loop leaves it.
unfoldable pub scan :
    (fuel : ℕ) (sample_interval now i : ℕ) (samples : List (ℕ × ℕ)) (count total_bytes : ℕ)
    → Result (ℕ × ℕ) × List (ℕ × ℕ)
unfolding remove
scan zero sample_interval now i samples count total_bytes = (ok (count, total_bytes), samples)
scan (suc fuel) sample_interval now i samples count total_bytes = elim (get_elem? samples i) [
  | none ↦ (ok (count, total_bytes), samples)
  | some (time, pkt_bytes) ↦ elim (is_expired sample_interval now time) [
    | true ↦ elim (remove time bytes_type samples) [
      | ok left ↦ scan fuel sample_interval now (suc i) left count total_bytes
      | err e ↦ (err e, samples)
    ]
    | false ↦ scan fuel sample_interval now (suc i) samples (count + 1) (total_bytes + pkt_bytes)
  ]
]

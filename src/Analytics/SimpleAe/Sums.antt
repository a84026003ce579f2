-- ===== src/Analytics/SimpleAe/Sums.antt =====
-- What the loop over the samples of a key computes (`SimpleAE.__process` of
-- trans_sec/analytics/oinc.py).
use mathlib.Core.List.{append_assoc}
use native.Mathlib.Nat.{add-zero, zero-add}
use transparent_security.Prelude.{
  ℕ, zero, suc, ◌+◌, ◌<◌, ◌≡◌, refl, Bool, false, ◌||◌, List, [], ◌∷◌, ◌++◌, if◌then◌else◌, arith,
  Bool-cases, inl, inr, ap, ◌∙◌,
}
use transparent_security.Prelude.Lists.{length, get_elem?}
use transparent_security.Prelude.Result.{Result, ok, err, value_error}
use transparent_security.Analytics.SimpleAe.Window.{remove, bytes_type, is_expired, scan}

abbrev pub any_expired : ℕ → ℕ → List (ℕ × ℕ) → Bool
any_expired sample_interval now [] = false
any_expired sample_interval now ((time, n) ∷ samples) =
    is_expired sample_interval now time || any_expired sample_interval now samples

abbrev pub byte_sum : List (ℕ × ℕ) → ℕ
byte_sum [] = 0
byte_sum ((time, n) ∷ samples) = n + byte_sum samples

-- No sample equals a pair whose second part is the type `bytes`.
pub remove-bytes_type :
    (time : ℕ) (samples : List (ℕ × ℕ)) → remove time bytes_type samples ≡ err value_error
unfolding remove
remove-bytes_type time [] = refl
remove-bytes_type time ((t, n) ∷ samples) = ground (arith, remove-bytes_type time samples)

get_elem?-length :
    (pre post : List (ℕ × ℕ)) → get_elem? (pre ++ post) (length pre) ≡ get_elem? post 0
get_elem?-length [] [] = refl
get_elem?-length [] (x ∷ post) = refl
get_elem?-length (x ∷ pre) post = get_elem?-length pre post

abbrev pub summed : Bool → ℕ → ℕ → Result (ℕ × ℕ)
summed expired count total_bytes = if expired then err value_error else ok (count, total_bytes)

length-snoc : (pre : List (ℕ × ℕ)) (x : ℕ × ℕ) → length (pre ++ x ∷ []) ≡ suc (length pre)
length-snoc [] x = refl
length-snoc (y ∷ pre) x = ap suc (length-snoc pre x)

module _ (sample_interval now : ℕ) where
  scan-append :
      (post pre : List (ℕ × ℕ)) (fuel count total_bytes : ℕ)
      → length post < fuel
      → scan fuel sample_interval now (length pre) (pre ++ post) count total_bytes ≡ (
        summed
            (any_expired sample_interval now post)
            (count + length post)
            (total_bytes + byte_sum post),
        pre ++ post,
      )
  unfolding scan
  scan-append post pre zero c t h = elim h [ ]
  scan-append [] pre (suc f) c t h = rw (get_elem?-length pre [], scan) (simp add-zero)
  scan-append ((time, n) ∷ post) pre (suc f) c t h =
      let here = get_elem?-length pre ((time, n) ∷ post) in
      let moved : (pre ++ (time, n) ∷ []) ++ post ≡ pre ++ (time, n) ∷ post =
        append_assoc pre ((time, n) ∷ []) post in
      let rest = scan-append post (pre ++ (time, n) ∷ []) f (c + 1) (t + n) (omega arith) in
      elim (Bool-cases (is_expired sample_interval now time)) [
        | inl old ↦
            rw (here, scan) (rw old (rw (remove-bytes_type time (pre ++ (time, n) ∷ post)) refl))
        | inr fresh ↦
            rw (here, scan)
              (rw fresh (rw (length-snoc pre (time, n), moved) at rest ∙ ground arith))
      ]

  -- The loop raises a ValueError if a sample has expired, and else gives the number of samples and
  -- their bytes. It removes nothing.
  pub scan_lem :
      (samples : List (ℕ × ℕ))
      → scan (suc (length samples)) sample_interval now 0 samples 0 0 ≡ (
        summed (any_expired sample_interval now samples) (length samples) (byte_sum samples),
        samples,
      )
  scan_lem samples = scan-append samples [] (suc (length samples)) 0 0 (omega arith) ∙ simp zero-add

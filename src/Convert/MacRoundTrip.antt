-- ===== src/Convert/MacRoundTrip.antt =====
-- When `decode_mac` of trans_sec/utils/convert.py gives back a MAC address that `encode_mac` reads.
use mathlib.Core.List.{append_assoc, append-nil}
use transparent_security.Prelude.{
  ℕ, ◌+◌, ◌*◌, ◌/◌, ◌%◌, ◌<◌, ◌≤◌, ◌≡◌, ◌≢◌, refl, ◌∙◌, ap, sym, ◌⊎◌, inl, inr, false, Bool-cases,
  some, List, [], ◌∷◌, ◌++◌, arith,
}
use transparent_security.Prelude.Equality.{◌==◌, nat_eq, contains}
use transparent_security.Prelude.Lists.{All}
use transparent_security.Prelude.Result.{ok}
use transparent_security.Convert.Hex.{hex_char, hex_encode, hex_value-hex_char, unhex}
use transparent_security.Convert.Macs.{
  escaped, escaped_all, bytes_repr, pushed, split_x, join_tokens, behind_first, cleaned, decode_mac,
}
use transparent_security.Convert.{encode_mac, without}

-- A byte that Python prints as `\x` with two digits.
abbrev pub IsEscaped : ℕ → Type 0
IsEscaped c = (c < 256) × (c ≢ 9) × (c ≢ 10) × (c ≢ 13) × ((c < 32) ⊎ (127 ≤ c))

escaped_lem :
    (c : ℕ)
    → IsEscaped c
    → escaped b'\'' c ≡ b'\\' ∷ b'x' ∷ hex_char (c / 16) ∷ hex_char (c % 16) ∷ []
escaped_lem c h = ground (arith, h)

abbrev hexed : List ℕ → List ℕ
hexed [] = b'\'' ∷ []
hexed (c ∷ s) = b'\\' ∷ b'x' ∷ hex_char (c / 16) ∷ hex_char (c % 16) ∷ hexed s

escaped_all_lem : (bs : List ℕ) → All IsEscaped bs → escaped_all b'\'' bs ≡ hexed bs
unfolding escaped_all
escaped_all_lem [] h = refl
escaped_all_lem (c ∷ s) (first, later) =
    rw (escaped_lem c first) (rw (escaped_all_lem s later) refl)

no_quote : (bs : List ℕ) → All IsEscaped bs → contains b'\'' bs ≡ false
no_quote [] h = refl
no_quote (c ∷ s) ((_, _, _, _, range), later) = rw (no_quote s later) (ground (arith, range))

bytes_repr_lem : (bs : List ℕ) → All IsEscaped bs → bytes_repr bs ≡ b'b' ∷ b'\'' ∷ hexed bs
unfolding bytes_repr
bytes_repr_lem bs h = rw (no_quote bs h) (rw (escaped_all_lem bs h) refl)

toks : ℕ → List ℕ → List (List ℕ)
toks c [] = (c ∷ b'\'' ∷ []) ∷ []
toks c (b ∷ bs) = (c ∷ []) ∷ pushed (hex_char (b / 16)) (toks (hex_char (b % 16)) bs)

hex_char_backslash : (d : ℕ) → d < 16 → (hex_char d == b'\\') ≡ false
hex_char_backslash d h = ground arith

split_x_lem :
    (c : ℕ) (bs : List ℕ)
    → (c == b'\\') ≡ false
    → All IsEscaped bs
    → split_x (c ∷ hexed bs) ≡ toks c bs
unfolding split_x toks
split_x_lem c [] h e = rw (h, split_x) refl
split_x_lem c (b ∷ bs) h ((small, _, _, _, _), later) =
    let high = hex_char_backslash (b / 16) (omega arith) in
    let low = hex_char_backslash (b % 16) (omega arith) in
    rw (h, split_x) (rw (high, split_x) (rw (split_x_lem (hex_char (b % 16)) bs low later) refl))

strip : List ℕ → List ℕ
strip s = without b':' (without b'\'' (without b'/' s))

without-append : (c : ℕ) (a b : List ℕ) → without c (a ++ b) ≡ without c a ++ without c b
unfolding without
without-append c [] b = refl
without-append c (x ∷ a) b = elim (Bool-cases (x == c)) [
  | inl same ↦ rw same (without-append c a b)
  | inr other ↦ rw other (ap (λ l. x ∷ l) (without-append c a b))
]

strip-append : (a b : List ℕ) → strip (a ++ b) ≡ strip a ++ strip b
unfolding strip
strip-append a b = simp without-append

strip_all : List (List ℕ) → List ℕ
strip_all [] = []
strip_all (t ∷ ts) = strip t ++ strip_all ts

strip-nil : strip [] ≡ []
unfolding strip without
strip-nil = refl

strip-colon : (t : List ℕ) → strip (b':' ∷ t) ≡ strip t
unfolding strip without
strip-colon t = refl

strip-join_tokens :
    (out : List ℕ) (tokens : List (List ℕ))
    → strip (join_tokens out tokens) ≡ strip out ++ strip_all tokens
unfolding strip_all join_tokens
strip-join_tokens out [] = unfold strip in sym (append-nil (strip out))
strip-join_tokens [] (t ∷ ts) =
    strip-join_tokens t ts ∙ ap (λ l. l ++ (strip t ++ strip_all ts)) (sym strip-nil)
strip-join_tokens (c ∷ out) (t ∷ ts) =
    strip-join_tokens (c ∷ out ++ b':' ∷ t) ts
    ∙ ap (λ l. l ++ strip_all ts)
        (strip-append (c ∷ out) (b':' ∷ t) ∙ ap (λ l. strip (c ∷ out) ++ l) (strip-colon t))
    ∙ append_assoc (strip (c ∷ out)) (strip t) (strip_all ts)

strip-hex_char : (d : ℕ) → d < 16 → strip (hex_char d ∷ []) ≡ hex_char d ∷ []
unfolding strip without
strip-hex_char d h = ground arith

strip_all-pushed :
    (c : ℕ) (ts : List (List ℕ)) → strip_all (pushed c ts) ≡ strip (c ∷ []) ++ strip_all ts
unfolding strip_all
strip_all-pushed c [] = refl
strip_all-pushed c (t ∷ ts) =
    ap (λ l. l ++ strip_all ts) (strip-append (c ∷ []) t)
    ∙ append_assoc (strip (c ∷ [])) (strip t) (strip_all ts)

strip_all-toks :
    (c : ℕ) (bs : List ℕ)
    → All IsEscaped bs
    → strip_all (toks c bs) ≡ strip (c ∷ []) ++ hex_encode bs
unfolding strip_all toks hex_encode
strip_all-toks c [] h =
    append-nil (strip (c ∷ b'\'' ∷ []))
    ∙ strip-append (c ∷ []) (b'\'' ∷ [])
    ∙ unfold strip without in refl
strip_all-toks c (b ∷ bs) ((small, _, _, _, _), later) =
    rw (strip_all-pushed (hex_char (b / 16)) (toks (hex_char (b % 16)) bs)) (
      rw (strip_all-toks (hex_char (b % 16)) bs later) (
        rw (strip-hex_char (b / 16) (omega arith))
          (rw (strip-hex_char (b % 16) (omega arith)) refl)))

cleaned-strip :
    (out : List ℕ) (c : ℕ) (s : List ℕ)
    → strip out ≡ c ∷ s
    → (m : List ℕ) × (cleaned out ≡ some m) × (without b':' m ≡ c ∷ s)
unfolding strip
cleaned-strip [] c s h = absurd (unfold without in cc)
cleaned-strip (x ∷ out) c s h = (without b'\'' (without b'/' (x ∷ out)), refl, h)

unhex-hex_encode : (bs : List ℕ) → All IsEscaped bs → unhex (hex_encode bs) ≡ ok bs
unfolding unhex hex_encode
unhex-hex_encode [] h = refl
unhex-hex_encode (b ∷ bs) ((small, _, _, _, _), later) =
    let e : b / 16 * 16 + b % 16 ≡ b = omega arith in
    rw (hex_value-hex_char (b / 16) (omega arith))
      (rw (hex_value-hex_char (b % 16) (omega arith)) (rw (unhex-hex_encode bs later) (rw e refl)))

-- Where Python prints each byte of an address as two hexadecimal digits behind `\x`, `encode_mac`
-- reads the text that `decode_mac` returns as the same bytes.
pub encode_mac-decode_mac :
    (b : ℕ) (bs : List ℕ)
    → All IsEscaped (b ∷ bs)
    → (m : List ℕ) × (decode_mac (b ∷ bs) ≡ some m) × (encode_mac m ≡ ok (b ∷ bs))
unfolding decode_mac encode_mac hex_encode toks
encode_mac-decode_mac b bs h =
    let low = b % 16 in
    let tokens = pushed (hex_char (b / 16)) (toks (hex_char low) bs) in
    let split = split_x_lem b'\'' (b ∷ bs) refl h in
    let all : strip (join_tokens [] tokens) ≡ hex_encode (b ∷ bs) =
      strip-join_tokens [] tokens
      ∙ ap (λ l. l ++ strip_all tokens) strip-nil
      ∙ strip_all-pushed (hex_char (b / 16)) (toks (hex_char low) bs)
      ∙ ap (λ l. strip (hex_char (b / 16) ∷ []) ++ l) (strip_all-toks (hex_char low) bs h.1)
      ∙ ap (λ l. l ++ (strip (hex_char low ∷ []) ++ hex_encode bs))
          (strip-hex_char (b / 16) (omega (arith, h.0)))
      ∙ ap (λ l. hex_char (b / 16) ∷ (l ++ hex_encode bs)) (strip-hex_char low (omega arith)) in
    let (m, found, same) =
      cleaned-strip (join_tokens [] tokens) (hex_char (b / 16)) (hex_char low ∷ hex_encode bs)
        all in
    let decoded : decode_mac (b ∷ bs) ≡ some m =
      ap (λ s. cleaned (join_tokens [] (behind_first (split_x s)))) (bytes_repr_lem (b ∷ bs) h)
      ∙ ap (λ ts. cleaned (join_tokens [] (behind_first (pushed b'b' ts)))) split
      ∙ found in
    (m, decoded, ap unhex same ∙ unhex-hex_encode (b ∷ bs) h)

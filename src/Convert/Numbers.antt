-- ===== src/Convert/Numbers.antt =====
-- encode_num and decode_num of trans_sec/utils/convert.py.
use mathlib.Core.List.{map-append}
use native.Mathlib.Nat.{pow-suc, pow-le-pow_right, le_trans}
use transparent_security.Prelude.{
  ℕ, zero, suc, ◌+◌, ◌-◌, ◌*◌, ◌/◌, ◌%◌, ◌^◌, ◌≤◌, ◌<◌, ◌≡◌, refl, List, [], ◌∷◌, ◌++◌, map, leb,
  le→leb, arith, Bool-cases, inl, inr, ltb, ltb→lt, ap, false, ◌∙◌,
}
use transparent_security.Prelude.Lists.{
  length, replicate, length-append, length-replicate, All, All-append,
}
use transparent_security.Prelude.Result.{ok, err, syntax_error, value_error, ◌>>=◌, >>=-eq-ok}
use transparent_security.Convert.Hex.{
  hex_digits, hex_char, hex_value, unhex, hex_encode, from_hex, hex_value-hex_char, hex_value-lt,
}
use transparent_security.Convert.{
  pos, negsuc, zero_padded, bitwidth_to_bytes, encode_num, decode_num, int_16,
}

not-le→leb : (a b : ℕ) → b < a → leb a b ≡ false
not-le→leb a b h = ground arith

pow_four : (n : ℕ) → 2 ^ suc (suc (suc (suc n))) ≡ 16 * 2 ^ n
pow_four n =
    omega (
      arith,
      pow-suc 2 n,
      pow-suc 2 (suc n),
      pow-suc 2 (suc (suc n)),
      pow-suc 2 (suc (suc (suc n))),
    )

suc-mul : (k : ℕ) → suc k * 4 ≡ suc (suc (suc (suc (k * 4))))
suc-mul k = omega arith

-- A character that `hex_value` reads.
abbrev IsHex : ℕ → Type 0
IsHex c = (d : ℕ) × (hex_value c ≡ ok d)

unhex-cons :
    (a b : ℕ) (s bs : List ℕ)
    → unhex (a ∷ b ∷ s) ≡ ok bs
    → (x : ℕ) × (y : ℕ) × (rest : List ℕ) × (hex_value a ≡ ok x)
      × (hex_value b ≡ ok y)
      × (unhex s ≡ ok rest)
      × (bs ≡ (x * 16 + y) ∷ rest)
unfolding unhex
unhex-cons a b s bs h =
    let (x, hx, h1) = >>=-eq-ok (hex_value a) _ h in
    let (y, hy, h2) = >>=-eq-ok (hex_value b) _ h1 in
    let (rest, hr, h3) = >>=-eq-ok (unhex s) _ h2 in (x, y, rest, hx, hy, hr, cc)

div_of_digits : (x y : ℕ) → y < 16 → ((x * 16 + y) / 16 ≡ x) × ((x * 16 + y) % 16 ≡ y)
div_of_digits x y h = (omega arith, omega arith)

-- Decoding and encoding again keeps the number that a text of digits stands for.
from_hex-unhex :
    (s : List ℕ) (n : ℕ) (bs : List ℕ) → unhex s ≡ ok bs → from_hex n (hex_encode bs) ≡ from_hex n s
unfolding hex_encode from_hex
from_hex-unhex [] n bs h = let e : bs ≡ [] = unfold unhex in cc in rw e
from_hex-unhex (a ∷ []) n bs h = unfold unhex in cc
from_hex-unhex (a ∷ b ∷ s) n bs h =
    let (x, y, rest, hx, hy, hr, e) = unhex-cons a b s bs h in
    let (dx, dy) = div_of_digits x y (hex_value-lt b y hy) in
    let cx = hex_value-hex_char x (hex_value-lt a x hx) in
    let cy = hex_value-hex_char y (hex_value-lt b y hy) in
    rw e (rw (dx, dy) (rw (hx, hy, cx) (rw (cy) (from_hex-unhex s _ rest hr))))

unhex-IsHex :
    (s : List ℕ) (k : ℕ)
    → length s ≡ k * 2
    → All IsHex s
    → (bs : List ℕ) × (unhex s ≡ ok bs) × (length bs ≡ k) × All (λ b. b < 256) bs
unfolding unhex
unhex-IsHex [] k e h = ([], refl, omega arith, tt)
unhex-IsHex (a ∷ []) k e h = absurd (omega arith)
unhex-IsHex (a ∷ b ∷ s) zero e h = absurd (omega arith)
unhex-IsHex (a ∷ b ∷ s) (suc k) e ((x, hx), ((y, hy), h)) =
    let (bs, r, l, small) = unhex-IsHex s k (omega arith) h in
    (
      (x * 16 + y) ∷ bs,
      rw (hx, hy, r),
      omega arith,
      (omega (arith, hex_value-lt a x hx, hex_value-lt b y hy), small),
    )

from_hex-append :
    (s t : List ℕ) (n : ℕ) → from_hex n (s ++ t) ≡ (from_hex n s >>= λ m. from_hex m t)
unfolding from_hex
from_hex-append [] t n = refl
from_hex-append (c ∷ s) t n =
    elim (hex_value c)
      as (λ r.
        (r >>= λ d. from_hex (n * 16 + d) (s ++ t))
        ≡ ((r >>= λ d. from_hex (n * 16 + d) s) >>= λ m. from_hex m t)) [
          | ok d ↦ from_hex-append s t (n * 16 + d)
          | err e ↦ refl
        ]

pub from_hex-zeros : (k : ℕ) (s : List ℕ) → from_hex 0 (replicate k b'0' ++ s) ≡ from_hex 0 s
unfolding from_hex hex_value
from_hex-zeros zero s = refl
from_hex-zeros (suc k) s = from_hex-zeros k s

pub from_hex-hex_digits : (f n : ℕ) → n < f → from_hex 0 (map hex_char (hex_digits f n)) ≡ ok n
unfolding hex_digits
from_hex-hex_digits zero n h = elim h [ ]
from_hex-hex_digits (suc f) n h = elim (Bool-cases (ltb n 16)) [
  | inl small ↦
      rw small
        (unfold from_hex in rw (hex_value-hex_char n (ltb→lt n 16 small)) (ap ok (omega arith)))
  | inr large ↦ rw large (
      rw (map-append) (
        rw (from_hex-append) (
          rw (from_hex-hex_digits f (n / 16) (ground arith)) (
            unfold from_hex in
            rw (hex_value-hex_char (n % 16) (omega arith)) (ap ok (omega arith))))))
]

hex_digits-lt : (f n : ℕ) → All (λ d. d < 16) (hex_digits f n)
unfolding hex_digits
hex_digits-lt zero n = tt
hex_digits-lt (suc f) n = elim (Bool-cases (ltb n 16)) [
  | inl small ↦ rw small (ltb→lt n 16 small, tt)
  | inr large ↦ rw large (
      All-append (λ d. d < 16) (hex_digits f (n / 16)) ((n % 16) ∷ []) (hex_digits-lt f (n / 16))
        (omega arith, tt))
]

IsHex-hex_char : (ds : List ℕ) → All (λ d. d < 16) ds → All IsHex (map hex_char ds)
IsHex-hex_char [] h = tt
IsHex-hex_char (d ∷ ds) h = ((d, hex_value-hex_char d h.0), IsHex-hex_char ds h.1)

IsHex-zeros : (k : ℕ) → All IsHex (replicate k b'0')
unfolding hex_value
IsHex-zeros zero = tt
IsHex-zeros (suc k) = ((0, refl), IsHex-zeros k)

pub length-hex_digits-le :
    (f n k : ℕ) → n < 16 ^ k → 0 < k → length (map hex_char (hex_digits f n)) ≤ k
unfolding hex_digits
length-hex_digits-le f n zero h p = absurd (omega arith)
length-hex_digits-le zero n (suc k) h p = omega arith
length-hex_digits-le (suc f) n (suc zero) h p = ground arith
length-hex_digits-le (suc f) n (suc (suc k)) h p =
    let smaller : n / 16 < 16 ^ suc k = omega (arith, pow-suc 16 (suc k)) in
    let above = length-hex_digits-le f (n / 16) (suc k) smaller (omega arith) in
    elim (Bool-cases (ltb n 16)) [
      | inl small ↦ rw small (omega arith)
      | inr large ↦ rw large (rw map-append (rw length-append (omega arith)))
    ]

pub pow_16 : (k : ℕ) → 16 ^ k ≡ 2 ^ (k * 4)
pow_16 zero = refl
pow_16 (suc k) = rw (suc-mul k, pow_four (k * 4)) (omega (arith, pow-suc 16 k, pow_16 k))

lt-pow_16 : (n w : ℕ) → n < 2 ^ w → n < 16 ^ (bitwidth_to_bytes w * 2)
unfolding bitwidth_to_bytes
lt-pow_16 n w h = rw pow_16 (le_trans h (pow-le-pow_right {n = 2} (omega arith) (omega arith)))

int_16-hex_encode :
    (bs : List ℕ) → 0 < length bs → int_16 (hex_encode bs) ≡ from_hex 0 (hex_encode bs)
unfolding hex_encode
int_16-hex_encode [] h = elim h [ ]
int_16-hex_encode (b ∷ bs) h = refl

pub length-zero_padded : (k : ℕ) (s : List ℕ) → length s ≤ k → length (zero_padded k s) ≡ k
length-zero_padded k s h =
    rw length-append (omega (arith, length-replicate {A = ℕ} (k - length s) b'0'))

-- A number that fits its bit width is encoded, in exactly as many bytes as the width takes, and
-- decoding gives it back.
pub decode_num-encode_num :
    (n bitwidth : ℕ)
    → 0 < bitwidth
    → n < 2 ^ bitwidth
    → (bs : List ℕ) × (encode_num (pos n) bitwidth ≡ ok bs)
      × (length bs ≡ bitwidth_to_bytes bitwidth)
      × All (λ b. b < 256) bs
      × (decode_num bs ≡ ok n)
unfolding encode_num decode_num bitwidth_to_bytes
decode_num-encode_num n w p h =
    let digits = map hex_char (hex_digits (suc n) n) in
    let k = bitwidth_to_bytes w in
    let fits = length-hex_digits-le (suc n) n (k * 2) (lt-pow_16 n w h) (omega arith) in
    let padded = length-zero_padded (k * 2) digits fits in
    let hex =
      All-append IsHex (replicate (k * 2 - length digits) b'0') digits (IsHex-zeros _)
        (IsHex-hex_char _ (hex_digits-lt (suc n) n)) in
    let (bs, r, l, small) = unhex-IsHex (zero_padded (k * 2) digits) k padded hex in
    (
      bs,
      rw (not-le→leb (2 ^ w) n h) r,
      l,
      small,
      int_16-hex_encode bs (omega arith)
          ∙ from_hex-unhex _ 0 bs r
          ∙ from_hex-zeros _ digits
          ∙ from_hex-hex_digits (suc n) n (omega arith),
    )

unhex-sign : (k : ℕ) (s : List ℕ) → unhex (replicate k b'0' ++ b'-' ∷ s) ≡ err value_error
unfolding unhex hex_value
unhex-sign zero [] = refl
unhex-sign zero (c ∷ s) = refl
unhex-sign (suc zero) s = refl
unhex-sign (suc (suc k)) s = rw (unhex-sign k s)

-- A number that does not fit its width is a SyntaxError, and a negative one a ValueError.
pub encode_num_rejects :
    (bitwidth n d : ℕ)
    → 2 ^ bitwidth ≤ n
    → (encode_num (pos n) bitwidth ≡ err syntax_error)
      × (encode_num (negsuc d) bitwidth ≡ err value_error)
unfolding encode_num
encode_num_rejects w n d h = (rw (le→leb _ _ h), unhex-sign _ _)

-- ===== src/Convert/Hex.antt =====
-- Python's hexadecimal notation: `'%x' % n`, `int(s, 16)` and the `hex` codec.
use transparent_security.Prelude.{
  ℕ, zero, suc, ◌+◌, ◌-◌, ◌*◌, ◌/◌, ◌%◌, ◌<◌, ◌≡◌, ◌&&◌, List, [], ◌∷◌, ◌++◌, ltb, leb,
  if◌then◌else◌, arith,
}
use transparent_security.Prelude.Result.{Result, ok, err, value_error, ◌>>=◌}

-- The digits of `'%x' % n`, most significant first. The fuel `suc n` is enough.
unfoldable pub hex_digits : ℕ → ℕ → List ℕ
hex_digits zero n = []
hex_digits (suc fuel) n =
    let above = hex_digits fuel (n / 16) in if ltb n 16 then n ∷ [] else above ++ (n % 16) ∷ []

abbrev pub hex_char : ℕ → ℕ
hex_char d = if ltb d 10 then d + 48 else d + 87

unfoldable pub hex_value : ℕ → Result ℕ
hex_value c =
    if leb b'0' c && leb c b'9'
    then ok (c - 48)
    else if leb b'a' c && leb c b'f'
    then ok (c - 87)
    else if leb b'A' c && leb c b'F'
    then ok (c - 55)
    else err value_error

-- `codecs.decode(s, 'hex')`: binascii.Error is a ValueError.
unfoldable pub unhex : List ℕ → Result (List ℕ)
unhex [] = ok []
unhex (a ∷ []) = err value_error
unhex (a ∷ b ∷ s) = do x ← hex_value a; y ← hex_value b; rest ← unhex s; ok ((x * 16 + y) ∷ rest)

-- `codecs.encode(bs, 'hex')`
unfoldable pub hex_encode : List ℕ → List ℕ
hex_encode [] = []
hex_encode (b ∷ bs) = hex_char (b / 16) ∷ hex_char (b % 16) ∷ hex_encode bs

-- `int(s, 16)` from the left, for a text of digits alone
unfoldable pub from_hex : ℕ → List ℕ → Result ℕ
from_hex n [] = ok n
from_hex n (c ∷ s) = do d ← hex_value c; from_hex (n * 16 + d) s

pub hex_value-hex_char : (d : ℕ) → d < 16 → hex_value (hex_char d) ≡ ok d
unfolding hex_value
hex_value-hex_char d h = ground arith

pub hex_value-lt : (c d : ℕ) → hex_value c ≡ ok d → d < 16
unfolding hex_value
hex_value-lt c d h = ground arith

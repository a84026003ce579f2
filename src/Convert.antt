-- ===== src/Convert.antt =====
-- trans_sec/utils/convert.py: byte strings for numbers, MAC addresses and IP addresses. A `str` is
-- the list of its code points and a `bytes` the list of its bytes.
mod Hex
pub mod Macs
pub mod MacRoundTrip
pub mod Numbers
mod Patterns
pub mod Lengths
unfoldable pub use Patterns.*
unfoldable pub use Hex.*
use transparent_security.Prelude.{
  ℕ, suc, ◌+◌, ◌-◌, ◌*◌, ◌/◌, ◌^◌, Bool, true, false, List, [], ◌∷◌, ◌++◌, map, not, leb,
  if◌then◌else◌,
}
use transparent_security.Prelude.Equality.{◌==◌, nat_eq}
use transparent_security.Prelude.Lists.{length, replicate}
use transparent_security.Prelude.Result.{
  Result, ok, err, value_error, syntax_error, assertion_error, ◌>>=◌,
}

-- Python's `int`: `negsuc n` is -(n + 1).
pub data ℤ : Type 0 where
  pos : ℕ → ℤ
  negsuc : ℕ → ℤ

-- `int(math.ceil(bitwidth / 8.0))`
unfoldable pub bitwidth_to_bytes : ℕ → ℕ
bitwidth_to_bytes bitwidth = (bitwidth + 7) / 8

-- '0' * k + s, with `'0' * k` empty where k is negative
abbrev pub zero_padded : ℕ → List ℕ → List ℕ
zero_padded k s = replicate (k - length s) b'0' ++ s

-- `'%x' % number` puts a sign before the digits of a negative number.
abbrev pub hex_str : ℤ → List ℕ
hex_str (pos n) = map hex_char (hex_digits (suc n) n)
hex_str (negsuc n) = b'-' ∷ map hex_char (hex_digits (suc (suc n)) (suc n))

abbrev pub does_not_fit : ℤ → ℕ → Bool
does_not_fit (pos n) bitwidth = leb (2 ^ bitwidth) n
does_not_fit (negsuc n) bitwidth = false

unfoldable pub encode_num : ℤ → ℕ → Result (List ℕ)
unfolding bitwidth_to_bytes
encode_num number bitwidth =
    let bitwidth_bytes = bitwidth_to_bytes bitwidth in
    let num_str = hex_str number in
    if does_not_fit number bitwidth
    then err syntax_error
    else unhex (zero_padded (bitwidth_bytes * 2) num_str)

-- `int(s, 16)` of the empty text is an error.
abbrev pub int_16 : List ℕ → Result ℕ
int_16 [] = err value_error
int_16 (c ∷ s) = from_hex 0 (c ∷ s)

unfoldable pub decode_num : List ℕ → Result ℕ
decode_num encoded_number = int_16 (hex_encode encoded_number)

unfoldable pub encode_mac : List ℕ → Result (List ℕ)
encode_mac mac_addr_string = unhex (without b':' mac_addr_string)

-- What `encode` is called with. `one` is a list or tuple with one element; `other` is a value of
-- any other type, None and longer or empty lists among them, with its truth value.
pub data Value : Type 0 where
  str : List ℕ → Value
  int : ℤ → Value
  one : Value → Value
  other : Bool → Value

-- The result is a `bytes`, or the text itself where it is taken for encoded.
pub data Encoded : Type 0 where
  bytes text : List ℕ → Encoded

abbrev pub encoded_length : Encoded → ℕ
encoded_length (bytes bs) = length bs
encoded_length (text s) = length s

-- `x = list(x)[0]` for a list or tuple of length one
abbrev pub unwrap : Value → Value
unwrap (one x) = x
unwrap x = x

-- `socket.inet_aton` and `socket.inet_pton(AF_INET6, …)`, and the `\d` of `re` beyond ASCII
module _ (inet_aton inet_pton : List ℕ → Result (List ℕ)) (unicode_digit : ℕ → Bool) where
  -- the encoded value and `is_ipv6`
  unfoldable pub encode_str : List ℕ → Result (Encoded × Bool)
  encode_str x =
      if matches_mac unicode_digit x
      then (do bs ← encode_mac x; ok (bytes bs, false))
      else if matches_ipv4 unicode_digit x
      then (do bs ← inet_aton x; ok (bytes bs, false))
      else if matches_ipv6 x
      then (do bs ← inet_pton x; ok (bytes bs, true))
      else ok (text x, false)

  unfoldable pub encode_value : Value → ℕ → Result (Encoded × Bool)
  unfolding encode_str
  encode_value (str x) bitwidth = encode_str x
  encode_value (int x) bitwidth = do bs ← encode_num x bitwidth; ok (bytes bs, false)
  encode_value (one x) bitwidth = err syntax_error
  encode_value (other truth) bitwidth = err syntax_error

  abbrev check_length : ℕ → Encoded × Bool → Result Encoded
  check_length bitwidth_bytes (encoded_bytes, is_ipv6) =
      if not is_ipv6
      then (if encoded_length encoded_bytes == bitwidth_bytes
          then ok encoded_bytes
          else err assertion_error)
      else ok encoded_bytes

  unfoldable pub encode : Value → ℕ → Result Encoded
  unfolding encode_value
  encode x bitwidth = do
    encoded ← encode_value (unwrap x) bitwidth
    check_length (bitwidth_to_bytes bitwidth) encoded

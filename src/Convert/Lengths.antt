-- ===== src/Convert/Lengths.antt =====
-- The length of what `encode` of trans_sec/utils/convert.py returns.
use transparent_security.Prelude.{ℕ, ◌≡◌, ◌⊎◌, Bool, true, false, List, arith}
use transparent_security.Prelude.Result.{Result, ok}
use transparent_security.Convert.{
  Value, str, int, one, Encoded, bytes, encoded_length, unwrap, encode, bitwidth_to_bytes,
  matches_mac, matches_ipv4, matches_ipv6,
}

module _ (inet_aton inet_pton : List ℕ → Result (List ℕ)) (unicode_digit : ℕ → Bool) where
  -- The value is a text that is taken for an IPv6 address, and the result is what inet_pton gives.
  pub record IsIpv6 (x : Value) (e : Encoded) : Type 0 where
    pub source : List ℕ
    pub packed : List ℕ
    pub from_source : unwrap x ≡ str source
    pub no_mac : matches_mac unicode_digit source ≡ false
    pub no_ipv4 : matches_ipv4 unicode_digit source ≡ false
    pub is_ipv6 : matches_ipv6 source ≡ true
    pub converts : inet_pton source ≡ ok packed
    pub result : e ≡ bytes packed

  -- What `encode` returns has as many bytes as the bit width takes, but for IPv6 addresses, whose
  -- length is inet_pton's whatever the bit width.
  pub encode_length :
      (x : Value) (bitwidth : ℕ) (e : Encoded)
      → encode inet_aton inet_pton unicode_digit x bitwidth ≡ ok e
      → (encoded_length e ≡ bitwidth_to_bytes bitwidth) ⊎ IsIpv6 x e
  unfolding encode
  encode_length (str s) w e h = ground arith
  encode_length (int x) w e h = ground arith
  encode_length (one (str s)) w e h = ground arith
  encode_length (one (int x)) w e h = ground arith
  encode_length _ w e h = ground arith

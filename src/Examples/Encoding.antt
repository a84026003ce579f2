-- ===== src/Examples/Encoding.antt =====
-- Runs of trans_sec/utils/convert.py and trans_sec/utils/tps_utils.py, with stand-ins for what they
-- call.
use transparent_security.Convert.{encode_mac}
use transparent_security.Convert.Macs.{decode_mac}
use transparent_security.Convert.MacRoundTrip.{encode_mac-decode_mac}
use transparent_security.Prelude.{
  inl, inr, some, ℕ, ◌<◌, ◌^◌, ◌≡◌, refl, Bool, false, String, List, [], ◌∷◌, arith,
}
use transparent_security.Prelude.Lists.{length, All}
use transparent_security.Prelude.Result.{Result, ok, err, value_error}
use transparent_security.External.{IpAddress}
use transparent_security.Convert.{
  pos, encode_num, decode_num, bitwidth_to_bytes, hex_value, from_hex,
}
use transparent_security.Convert.Numbers.{decode_num-encode_num}
use transparent_security.AttackHash.{codes, create_attack_hash}
use transparent_security.AttackHash.Bounds.{create_attack_hash-lt}
use transparent_security.AttackHash.Injective.{hash_str-injective}

decode_num-encode_num_example :
    (bs : List ℕ) × (encode_num (pos 300) 9 ≡ ok bs)
    × (length bs ≡ bitwidth_to_bytes 9)
    × All (λ b. b < 256) bs
    × (decode_num bs ≡ ok 300)
decode_num-encode_num_example = decode_num-encode_num 300 9 (omega arith) (omega arith)

abbrev no_address : List ℕ → Result (List ℕ)
no_address s = err value_error

abbrev no_digit : ℕ → Bool
no_digit c = false

abbrev text_address : IpAddress
text_address = record {
  Address = String;
  ip_address = λ s. ok s;
  version = λ s. 4;
  str = λ s. s;
  exploded = λ s. s;
}

abbrev short_digest : List ℕ → List ℕ
short_digest s = b'2' ∷ b'a' ∷ []

create_attack_hash-lt_example : 42 < 2 ^ 64
unfolding create_attack_hash from_hex hex_value
create_attack_hash-lt_example =
    create_attack_hash-lt text_address short_digest "00:11" 80 "10.0.0.1" "::" 42 refl

hash_str-injective_example :
    (codes "00:11" ≡ codes "00:11")
    × ◌≡◌ {A = ℕ} 80 80
    × (codes "10.0.0.1" ≡ codes "10.0.0.1")
    × (codes "::" ≡ codes "::")
hash_str-injective_example =
    hash_str-injective "00:11" "00:11" 80 80 "10.0.0.1" "10.0.0.1" "::" "::" (ground arith)
      (ground arith) (ground arith) (ground arith) refl

encode_mac-decode_mac_example :
    (m : List ℕ) × (decode_mac (0 ∷ 200 ∷ []) ≡ some m) × (encode_mac m ≡ ok (0 ∷ 200 ∷ []))
encode_mac-decode_mac_example = encode_mac-decode_mac 0 (200 ∷ []) (
  (omega arith, omega arith, omega arith, omega arith, inl (omega arith)),
  ((omega arith, omega arith, omega arith, omega arith, inr (omega arith)), tt),
)

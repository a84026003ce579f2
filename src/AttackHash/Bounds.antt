-- ===== src/AttackHash/Bounds.antt =====
-- The range of the attack hash of trans_sec/utils/tps_utils.py.
use native.Mathlib.Nat.{pow-succ', pow-le-pow_right, le_trans, mul_assoc}
use transparent_security.Prelude.{
  ℕ, suc, zero, ◌+◌, ◌*◌, ◌^◌, ◌≤◌, ◌<◌, ◌≡◌, String, List, [], ◌∷◌, arith,
}
use transparent_security.Prelude.Lists.{length, take}
use transparent_security.Prelude.Result.{ok, >>=-eq-ok}
use transparent_security.Convert.{from_hex, int_16, hex_value, hex_value-lt}
use transparent_security.External.{IpAddress}
use transparent_security.AttackHash.{create_attack_hash, hash_str}

from_hex-lt : (s : List ℕ) (m n b : ℕ) → m < b → from_hex m s ≡ ok n → n < b * 16 ^ length s
unfolding from_hex
from_hex-lt [] m n b h e = let same : m ≡ n = cc in rw (← same) (omega arith)
from_hex-lt (c ∷ s) m n b h e =
    let (d, hd, rest) = >>=-eq-ok (hex_value c) _ e in
    let ih = from_hex-lt s (m * 16 + d) n (b * 16) (omega (arith, hex_value-lt c d hd)) rest in
    rw (pow-succ' 16 (length s)) (omega (arith, ih, mul_assoc b 16 (16 ^ length s)))

int_16-lt : (s : List ℕ) (n : ℕ) → int_16 s ≡ ok n → n < 16 ^ length s
int_16-lt [] n e = cc
int_16-lt (c ∷ s) n e = omega (arith, from_hex-lt (c ∷ s) 0 n 1 (omega arith) e)

length-take-le : (k : ℕ) (s : List ℕ) → length (take k s) ≤ k
length-take-le zero s = omega arith
length-take-le (suc k) [] = omega arith
length-take-le (suc k) (c ∷ s) = omega (arith, length-take-le k s)

-- An attack hash has at most 64 bits, whatever SHA-256 gives, so it fits the field of 128 bits in
-- which a drop report carries it.
pub create_attack_hash-lt :
    (ipaddress : IpAddress) (sha256_hex : List ℕ → List ℕ) (mac : String) (port : ℕ)
    (ip_addr ipv6_addr : String) (key : ℕ)
    → create_attack_hash ipaddress sha256_hex mac port ip_addr ipv6_addr ≡ ok key
    → key < 2 ^ 64
unfolding create_attack_hash
create_attack_hash-lt ip sha mac port v4 v6 key e =
    let (a4, _, e1) = >>=-eq-ok (ip.ip_address v4) _ e in
    let (a6, _, e2) = >>=-eq-ok (ip.ip_address v6) _ e1 in
    let digits = take 16 (sha (hash_str mac port (ip.str a4) (ip.str a6))) in
    le_trans (int_16-lt digits key e2)
      (pow-le-pow_right {n = 16} (omega arith) (length-take-le 16 _))

-- ===== src/AttackHash.antt =====
-- trans_sec/utils/tps_utils.py: the number under which the analytics engine and the SDN controller
-- know an attack.
pub mod Bounds
pub mod Injective
use Prim.Native.Char.{code}
use transparent_security.Prelude.{
  ℕ, zero, suc, ◌+◌, ◌/◌, ◌%◌, String, List, [], ◌∷◌, ◌++◌, ltb, if◌then◌else◌,
}
use transparent_security.Prelude.Lists.{take}
use transparent_security.Prelude.Result.{Result, ◌>>=◌}
use transparent_security.Convert.{int_16}
use transparent_security.External.{IpAddress}

-- The code points of a text.
abbrev pub codes : String → List ℕ
codes String.[] = []
codes (String.◌∷◌ c s) = code c ∷ codes s

-- `str(n)`. The fuel `suc n` is enough.
unfoldable pub decimal_digits : ℕ → ℕ → List ℕ
decimal_digits zero n = []
decimal_digits (suc fuel) n =
    let above = decimal_digits fuel (n / 10) in
    if ltb n 10 then (n + 48) ∷ [] else above ++ (n % 10 + 48) ∷ []

-- `"{}|{}|{}|{}".format(mac, port, ipv4, ipv6)`
unfoldable pub hash_str : String → ℕ → String → String → List ℕ
hash_str mac port ipv4 ipv6 =
    codes mac ++ b'|' ∷ (decimal_digits (suc port) port ++ b'|' ∷ (codes ipv4 ++ b'|' ∷ codes ipv6))

-- `sha256_hex` is `hashlib.sha256(….encode()).hexdigest()`.
module _ (ipaddress : IpAddress) (sha256_hex : List ℕ → List ℕ) where
  open ipaddress use {ip_address, str}

  unfoldable pub create_attack_hash : String → ℕ → String → String → Result ℕ
  create_attack_hash mac port ip_addr ipv6_addr = do
    ipv4 ← ip_address ip_addr
    ipv6 ← ip_address ipv6_addr
    int_16 (take 16 (sha256_hex (hash_str mac port (str ipv4) (str ipv6))))

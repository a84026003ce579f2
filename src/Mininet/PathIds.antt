-- ===== src/Mininet/PathIds.antt =====
-- The data path ids of trans_sec/mininet/exercise.py.
use transparent_security.Prelude.{ℕ, suc, ◌^◌, ◌<◌, ◌≡◌, map, arith, ◌∙◌}
use transparent_security.Prelude.Lists.{length}
use transparent_security.Prelude.Result.{ok}
use transparent_security.Convert.{hex_digits, hex_char, from_hex}
use transparent_security.Convert.Numbers.{
  from_hex-zeros, from_hex-hex_digits, length-hex_digits-le, length-zero_padded,
}
use transparent_security.Mininet.{int_to_dpid}

-- A switch id of at most 64 bits becomes 16 hexadecimal digits, which stand for the id; so switches
-- with different ids have different data path ids.
pub int_to_dpid_lem :
    (id : ℕ) → id < 2 ^ 64 → (length (int_to_dpid id) ≡ 16) × (from_hex 0 (int_to_dpid id) ≡ ok id)
unfolding int_to_dpid
int_to_dpid_lem id small =
    let digits = map hex_char (hex_digits (suc id) id) in
    (
      length-zero_padded 16 digits
          (length-hex_digits-le (suc id) id 16 (omega arith) (omega arith)),
      from_hex-zeros _ digits ∙ from_hex-hex_digits (suc id) id (omega arith),
    )

-- ===== src/P4Runtime/NatPorts.antt =====
-- The ports that a gateway gives to connections (trans_sec/p4runtime_lib/gateway_switch.py).
use transparent_security.Prelude.{
  ℕ, zero, suc, ◌+◌, ◌*◌, ◌-◌, ◌^◌, ◌/◌, ◌%◌, ◌<◌, ◌≤◌, ◌≡◌, refl, List, [], ◌∷◌, ◌++◌, ltb, ltb→lt,
  Bool-cases, inl, inr, arith, ◌∙◌, false, sym,
}
use transparent_security.AttackHash.{decimal_digits}
use transparent_security.AttackHash.Injective.{value, value-append}
use transparent_security.P4Runtime.Gateway.{nat_port}

-- The number behind `n`, by its last digit.
value-small : (f n c : ℕ) → c < 10 → value n (decimal_digits (suc f) c) ≡ n * 10 + c
unfolding decimal_digits value
value-small f n c h = ground arith

value-large :
    (f n c : ℕ)
    → 10 ≤ c
    → value n (decimal_digits (suc f) c) ≡ value n (decimal_digits f (c / 10)) * 10 + c % 10
unfolding decimal_digits
value-large f n c h =
    let e : ltb c 10 ≡ false = ground arith in
    rw e (value-append n (c % 10 + 48) (decimal_digits f (c / 10)) ∙ omega arith)

one_digit : (f n c : ℕ) → c < f → n * 10 ≤ value n (decimal_digits f c)
one_digit zero n c h = elim h [ ]
one_digit (suc f) n c h = elim (Bool-cases (ltb c 10)) [
  | inl small ↦ omega (arith, value-small f n c (ltb→lt c 10 small))
  | inr large ↦
      omega (arith, value-large f n c (ground arith), one_digit f n (c / 10) (ground arith))
]

two_digits : (f n c : ℕ) → c < f → 10 ≤ c → n * 100 ≤ value n (decimal_digits f c)
two_digits zero n c h large = elim h [ ]
two_digits (suc f) n c h large =
    omega (arith, value-large f n c large, one_digit f n (c / 10) (omega arith))

three_digits : (f n c : ℕ) → c < f → 100 ≤ c → n * 1000 ≤ value n (decimal_digits f c)
three_digits zero n c h large = elim h [ ]
three_digits (suc f) n c h large =
    omega
      (arith, value-large f n c (omega arith), two_digits f n (c / 10) (omega arith) (omega arith))

-- Behind a number that is not 0 no two numbers have the same digits.
value_unique :
    (f g n c d : ℕ)
    → 0 < n
    → c < f
    → d < g
    → value n (decimal_digits f c) ≡ value n (decimal_digits g d)
    → c ≡ d
value_unique zero g n c d positive hc hd e = elim hc [ ]
value_unique (suc f) zero n c d positive hc hd e = elim hd [ ]
value_unique (suc f) (suc g) n c d positive hc hd e = elim (Bool-cases (ltb c 10)) [
  | inl few ↦
      let c_small = ltb→lt c 10 few in
      let lc = value-small f n c c_small in
      elim (Bool-cases (ltb d 10)) [
        | inl d_few ↦ omega (arith, lc, value-small g n d (ltb→lt d 10 d_few), e)
        | inr d_many ↦ omega (arith, lc, two_digits (suc g) n d hd (ground arith), e, c_small)
      ]
  | inr many ↦
      let lc = value-large f n c (ground arith) in
      elim (Bool-cases (ltb d 10)) [
        | inl d_few ↦
            let d_small = ltb→lt d 10 d_few in
            let ld = value-small g n d d_small in
            omega (arith, ld, two_digits (suc f) n c hc (ground arith), e, d_small)
        | inr d_many ↦
            let ld = value-large g n d (ground arith) in
            let same =
              value_unique f g n (c / 10) (d / 10) positive (ground arith) (ground arith)
                (omega (arith, lc, ld, e)) in
            omega (arith, lc, ld, e, same)
      ]
]

value-concat : (n : ℕ) (s t : List ℕ) → value n (s ++ t) ≡ value (value n s) t
unfolding value
value-concat n [] t = refl
value-concat n (c ∷ s) t = value-concat (n * 10 + (c - 48)) s t

-- The number before the count's digits
prefix : ℕ → ℕ
prefix device_id = value 50 (decimal_digits (suc device_id) device_id)

nat_port_lem :
    (device_id count : ℕ)
    → nat_port device_id count ≡ value (prefix device_id) (decimal_digits (suc count) count)
unfolding nat_port value prefix
nat_port_lem device_id count =
    value-concat 50 (decimal_digits (suc device_id) device_id) (decimal_digits (suc count) count)

prefix_large : (device_id : ℕ) → 500 ≤ prefix device_id
unfolding prefix
prefix_large device_id = one_digit (suc device_id) 50 device_id (omega arith)

-- A gateway gives different ports for different counts.
pub nat_port-injective : (device_id c d : ℕ) → nat_port device_id c ≡ nat_port device_id d → c ≡ d
nat_port-injective device_id c d e =
    value_unique (suc c) (suc d) (prefix device_id) c d (omega (arith, prefix_large device_id))
      (omega arith) (omega arith) (sym (nat_port_lem device_id c) ∙ e ∙ nat_port_lem device_id d)

pub nat_port_large : (device_id c : ℕ) → 100 ≤ c → 2 ^ 16 ≤ nat_port device_id c
nat_port_large device_id c h = omega (
  arith,
  nat_port_lem device_id c,
  three_digits (suc c) (prefix device_id) c (omega arith) h,
  prefix_large device_id,
)

-- ===== src/AttackHash/Injective.antt =====
-- The text that `create_attack_hash` of trans_sec/utils/tps_utils.py hashes.
use transparent_security.Prelude.{
  ℕ, zero, suc, ◌+◌, ◌-◌, ◌*◌, ◌/◌, ◌%◌, ◌<◌, ◌≡◌, ◌≢◌, refl, sym, ap, ◌∙◌, String, List, [], ◌∷◌,
  ◌++◌, ltb, ltb→lt, Bool-cases, inl, inr, arith,
}
use transparent_security.Prelude.Lists.{All, All-append}
use transparent_security.AttackHash.{codes, decimal_digits, hash_str}

-- The text holds no separator.
abbrev pub IsPart : List ℕ → Type 0
IsPart = All (λ c. c ≢ b'|')

cut :
    (xs ys r s : List ℕ)
    → IsPart xs
    → IsPart ys
    → xs ++ b'|' ∷ r ≡ ys ++ b'|' ∷ s
    → (xs ≡ ys) × (r ≡ s)
cut [] [] r s hx hy e = (refl, cc)
cut [] (y ∷ ys) r s hx hy e = absurd (hy.0 (cc))
cut (x ∷ xs) [] r s hx hy e = absurd (hx.0 (cc))
cut (x ∷ xs) (y ∷ ys) r s hx hy e =
    let (front, back) = cut xs ys r s hx.1 hy.1 (cc) in let head : x ≡ y = cc in (cc, back)

-- The number that a text of digits stands for, behind one that was read before it.
unfoldable pub value : ℕ → List ℕ → ℕ
value n [] = n
value n (c ∷ s) = value (n * 10 + (c - 48)) s

pub value-append : (n c : ℕ) (s : List ℕ) → value n (s ++ c ∷ []) ≡ value n s * 10 + (c - 48)
unfolding value
value-append n c [] = refl
value-append n c (d ∷ s) = value-append (n * 10 + (d - 48)) c s

value-decimal_digits : (f n : ℕ) → n < f → value 0 (decimal_digits f n) ≡ n
unfolding decimal_digits
value-decimal_digits zero n h = elim h [ ]
value-decimal_digits (suc f) n h = elim (Bool-cases (ltb n 10)) [
  | inl small ↦ rw small (unfold value in omega arith)
  | inr large ↦ rw large (
      value-append 0 (n % 10 + 48) (decimal_digits f (n / 10))
      ∙ rw (value-decimal_digits f (n / 10) (ground arith)) (omega arith))
]

IsPart-decimal_digits : (f n : ℕ) → IsPart (decimal_digits f n)
unfolding decimal_digits
IsPart-decimal_digits zero n = tt
IsPart-decimal_digits (suc f) n = elim (Bool-cases (ltb n 10)) [
  | inl small ↦ rw small (omega (arith, ltb→lt n 10 small), tt)
  | inr large ↦ rw large (
      All-append (λ c. c ≢ b'|') (decimal_digits f (n / 10)) _ (IsPart-decimal_digits f (n / 10))
        (omega arith, tt))
]

-- Where no MAC and no IPv4 address holds the separator, two attacks whose texts are the same have
-- the same MAC, port and addresses.
pub hash_str-injective :
    (mac mac' : String) (port port' : ℕ) (ipv4 ipv4' ipv6 ipv6' : String)
    → IsPart (codes mac)
    → IsPart (codes mac')
    → IsPart (codes ipv4)
    → IsPart (codes ipv4')
    → hash_str mac port ipv4 ipv6 ≡ hash_str mac' port' ipv4' ipv6'
    → (codes mac ≡ codes mac')
      × (port ≡ port')
      × (codes ipv4 ≡ codes ipv4')
      × (codes ipv6 ≡ codes ipv6')
unfolding hash_str
hash_str-injective mac mac' port port' v4 v4' v6 v6' m m' i i' e =
    let digits = IsPart-decimal_digits (suc port) port in
    let digits' = IsPart-decimal_digits (suc port') port' in
    let (macs, e1) = cut (codes mac) (codes mac') _ _ m m' e in
    let (ports, e2) = cut _ _ _ _ digits digits' e1 in
    let (ipv4s, ipv6s) = cut (codes v4) (codes v4') _ _ i i' e2 in
    (
      macs,
      sym (value-decimal_digits (suc port) port (omega arith))
          ∙ ap (value 0) ports
          ∙ value-decimal_digits (suc port') port' (omega arith),
      ipv4s,
      ipv6s,
    )

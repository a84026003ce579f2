-- ===== src/Convert/Patterns.antt =====
-- The regular expressions of trans_sec/utils/convert.py. `$` also matches before a last newline,
-- and `\d` also matches the decimal digits beyond ASCII, which `unicode_digit` gives.
use transparent_security.Prelude.{
  ℕ, zero, suc, Bool, true, false, ◌&&◌, ◌||◌, List, [], ◌∷◌, Option, none, some, leb,
  if◌then◌else◌,
}
use transparent_security.Prelude.Equality.{◌==◌, nat_eq}

abbrev pub ascii_digit : ℕ → Bool
ascii_digit c = leb b'0' c && leb c b'9'

abbrev pub hex_letter : ℕ → Bool
hex_letter c = (leb b'a' c && leb c b'f') || (leb b'A' c && leb c b'F')

-- `$`
unfoldable pub at_end : List ℕ → Bool
at_end [] = true
at_end (c ∷ []) = c == 10
at_end _ = false

-- `s.replace(c, '')`
unfoldable pub without : ℕ → List ℕ → List ℕ
without c [] = []
without c (x ∷ s) = let rest = without c s in if x == c then rest else x ∷ rest

-- `n` groups of two hexadecimal digits and a colon, and one more group at the end
unfoldable pub mac_groups : (ℕ → Bool) → ℕ → List ℕ → Bool
unfolding at_end
mac_groups digit zero (a ∷ b ∷ s) =
    (digit a || hex_letter a) && (digit b || hex_letter b) && at_end s
mac_groups digit (suc n) (a ∷ b ∷ c ∷ s) =
    (digit a || hex_letter a) && (digit b || hex_letter b) && c == b':' && mac_groups digit n s
mac_groups digit _ _ = false

-- What is left behind the longest run of at most `max` characters of a class.
skip : (ℕ → Bool) → ℕ → List ℕ → List ℕ
skip class zero s = s
skip class (suc max) [] = []
skip class (suc max) (c ∷ s) = if class c then skip class max s else c ∷ s

-- A run of at least one and at most `max + 1` characters; no separator belongs to the class, so
-- the longest run is the only one that can match.
run : (ℕ → Bool) → ℕ → List ℕ → Option (List ℕ)
unfolding skip
run class max [] = none
run class max (c ∷ s) = if class c then some (skip class max s) else none

unfoldable pub groups : (ℕ → Bool) → ℕ → ℕ → ℕ → List ℕ → Bool
unfolding run at_end
groups class max separator zero s = elim (run class max s) [ none ↦ false | some r ↦ at_end r ]
groups class max separator (suc n) s = elim (run class max s) [
  | some (c ∷ r) ↦ c == separator && groups class max separator n r
  | _ ↦ false
]

module _ (unicode_digit : ℕ → Bool) where
  unfoldable pub matches_mac : List ℕ → Bool
  unfolding mac_groups
  matches_mac = mac_groups (λ c. ascii_digit c || unicode_digit c) 5

  unfoldable pub matches_ipv4 : List ℕ → Bool
  unfolding groups
  matches_ipv4 = groups (λ c. ascii_digit c || unicode_digit c) 2 b'.' 3

unfoldable pub matches_ipv6 : List ℕ → Bool
unfolding groups
matches_ipv6 = groups (λ c. ascii_digit c || hex_letter c) 3 b':' 7

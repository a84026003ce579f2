-- ===== src/Convert/Macs.antt =====
-- `decode_mac` of trans_sec/utils/convert.py, which goes by the text that Python prints for bytes.
use transparent_security.Prelude.{
  ℕ, ◌/◌, ◌%◌, true, false, not, ◌&&◌, ◌||◌, Option, none, some, List, [], ◌∷◌, ◌++◌, ltb, leb,
  if◌then◌else◌,
}
use transparent_security.Prelude.Equality.{◌==◌, nat_eq, contains}
use transparent_security.Convert.Hex.{hex_char}
use transparent_security.Convert.Patterns.{without}

-- `repr` of one byte within quotes
abbrev pub escaped : ℕ → ℕ → List ℕ
escaped quote c =
    if c == quote || c == b'\\'
    then b'\\' ∷ c ∷ []
    else if c == 9
    then b'\\' ∷ b't' ∷ []
    else if c == 10
    then b'\\' ∷ b'n' ∷ []
    else if c == 13
    then b'\\' ∷ b'r' ∷ []
    else if leb 32 c && ltb c 127
    then c ∷ []
    else b'\\' ∷ b'x' ∷ hex_char (c / 16) ∷ hex_char (c % 16) ∷ []

unfoldable pub escaped_all : ℕ → List ℕ → List ℕ
escaped_all quote [] = quote ∷ []
escaped_all quote (c ∷ s) = escaped quote c ++ escaped_all quote s

-- The quotes are double where there are single ones and no double ones within.
abbrev pub quote_of : List ℕ → ℕ
quote_of bs = if contains b'\'' bs && not (contains b'"' bs) then b'"' else b'\''

-- `str(bs)`
unfoldable pub bytes_repr : List ℕ → List ℕ
unfolding escaped_all
bytes_repr bs = let quote = quote_of bs in b'b' ∷ quote ∷ escaped_all quote bs

abbrev pub pushed : ℕ → List (List ℕ) → List (List ℕ)
pushed c [] = (c ∷ []) ∷ []
pushed c (token ∷ tokens) = (c ∷ token) ∷ tokens

-- `s.split('\\x')`
unfoldable pub split_x : List ℕ → List (List ℕ)
split_x [] = [] ∷ []
split_x (a ∷ []) = (a ∷ []) ∷ []
split_x (a ∷ b ∷ s) = elim (a == b'\\' && b == b'x') [
  | true ↦ [] ∷ split_x s
  | false ↦ pushed a (split_x (b ∷ s))
]

-- The loop over the tokens; an empty `out` is None or ''.
unfoldable pub join_tokens : List ℕ → List (List ℕ) → List ℕ
join_tokens out [] = out
join_tokens [] (token ∷ tokens) = join_tokens token tokens
join_tokens (c ∷ out) (token ∷ tokens) = join_tokens (c ∷ out ++ b':' ∷ token) tokens

abbrev pub behind_first : List (List ℕ) → List (List ℕ)
behind_first [] = []
behind_first (t ∷ tokens) = tokens

abbrev pub cleaned : List ℕ → Option (List ℕ)
cleaned [] = none
cleaned (c ∷ out) = some (without b'\'' (without b'/' (c ∷ out)))

unfoldable pub decode_mac : List ℕ → Option (List ℕ)
unfolding bytes_repr split_x join_tokens
decode_mac bs = cleaned (join_tokens [] (behind_first (split_x (bytes_repr bs))))

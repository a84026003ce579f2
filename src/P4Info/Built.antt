-- ===== src/P4Info/Built.antt =====
-- The entries that `P4InfoHelper.build_table_entry` of trans_sec/p4runtime_lib/helper.py does build.
use transparent_security.Prelude.{
  ℕ, ◌<◌, ◌^◌, String, ◌≡◌, refl, ◌⊎◌, inl, inr, Bool-cases, true, false, Option, some, none, List,
  [], ◌∷◌,
}
use transparent_security.Prelude.Equality.{◌==◌, nat_eq, string_eq, beq_refl}
use transparent_security.Prelude.Lists.{length}
use transparent_security.Prelude.Dict.{Dict}
use transparent_security.Prelude.Result.{ok}
use transparent_security.Convert.{
  ℤ, pos, Value, str, int, bytes, encode, encode_str, bitwidth_to_bytes,
}
use transparent_security.Convert.Numbers.{decode_num-encode_num}
use transparent_security.P4Info.{
  P4Info, MatchField, MatchType, exact, lpm, ternary, range, Param, tables, actions, get_id,
  get_match_field, get_action_param,
}
use transparent_security.P4Info.Building.{
  Library, first_item, MatchValue, scalar, items, FieldMatchType, exact_match, lpm_match,
  ternary_match, range_match, FieldMatch, ActionParam, ActionEntry, TableEntry, Arguments, encoded,
  field_match, get_match_field_pb, get_action_param_pb, match_of, params_of_action, action_named,
  action_of, priority_of, build_table_entry,
}

-- A field of bytes takes bytes, and one of 32 bits a number that is small enough.
pub record IsTaking (l : Library) : Type 0 where
  pub takes : (bs : List ℕ) → l.as_bytes (bytes bs) ≡ ok bs
  pub takes_int : (n : ℕ) → n < 2 ^ 31 → l.as_int32 (int (pos n)) ≡ ok (pos n)

-- A value that fits a bit width: a text that is read as a MAC or IPv4 address of as many bytes or as
-- an IPv6 address, or a number.
pub data Fits (l : Library) : Value → ℕ → Type 0 where
  address :
      {s bs : List ℕ} {w : ℕ}
      → encode_str l.inet_aton l.inet_pton l.unicode_digit s ≡ ok (bytes bs, false)
      → length bs ≡ bitwidth_to_bytes w
      → Fits l (str s) w
  ipv6_address :
      {s bs : List ℕ} {w : ℕ}
      → encode_str l.inet_aton l.inet_pton l.unicode_digit s ≡ ok (bytes bs, true)
      → Fits l (str s) w
  number : {n w : ℕ} → 0 < w → n < 2 ^ w → Fits l (int (pos n)) w

-- One value for an exact match, alone or in a list; with a prefix length, a mask or an upper end for
-- the others.
pub data FitsMatch (l : Library) : MatchType → ℕ → MatchValue → Type 0 where
  alone : {v : Value} {w : ℕ} → Fits l v w → FitsMatch l exact w (scalar v)
  listed : {v : Value} {w : ℕ} → Fits l v w → FitsMatch l exact w (items (v ∷ []))
  with_prefix :
      {v : Value} {n w : ℕ}
      → Fits l v w
      → n < 2 ^ 31
      → FitsMatch l lpm w (items (v ∷ int (pos n) ∷ []))
  masked :
      {v mask : Value} {w : ℕ}
      → Fits l v w
      → Fits l mask w
      → FitsMatch l ternary w (items (v ∷ mask ∷ []))
  between :
      {low high : Value} {w : ℕ}
      → Fits l low w
      → Fits l high w
      → FitsMatch l range w (items (low ∷ high ∷ []))

pub data FitPriority : Option Value → Type 0 where
  default_priority : FitPriority none
  small_priority : {n : ℕ} → n < 2 ^ 31 → FitPriority (some (int (pos n)))

module _ (l : Library) (taking : IsTaking l) (info : P4Info) where
  encoded-returns : {v : Value} {w : ℕ} → Fits l v w → (bs : List ℕ) × (encoded l info v w ≡ ok bs)
  unfolding encoded encode
  encoded-returns (address {s} {bs} {w} read sized) =
      (bs, rw (read, sized, beq_refl (bitwidth_to_bytes w), taking.takes bs) refl)
  encoded-returns (ipv6_address {s} {bs} read) = (bs, rw (read, taking.takes bs) refl)
  encoded-returns (number {n} {w} wide small) =
      let (bs, made, sized, _, _) = decode_num-encode_num n w wide small in
      (bs, rw (made, sized, beq_refl (bitwidth_to_bytes w), taking.takes bs) refl)

  -- A value that fits is no list, so it is its own first item.
  first_item-Fits : {v : Value} {w : ℕ} → Fits l v w → first_item (scalar v) ≡ ok v
  first_item-Fits (address read sized) = refl
  first_item-Fits (ipv6_address read) = refl
  first_item-Fits (number wide small) = refl

  field_match-returns :
      {t : MatchType} {w : ℕ} {v : MatchValue}
      → FitsMatch l t w v
      → (f : FieldMatchType) × (field_match l info t w v ≡ ok f)
  field_match-returns (alone fits) =
      let (bs, made) = encoded-returns fits in
      (exact_match bs, rw (first_item-Fits fits, made) refl)
  field_match-returns (listed fits) =
      let (bs, made) = encoded-returns fits in (exact_match bs, rw made refl)
  field_match-returns (with_prefix {v} {n} fits small) =
      let (bs, made) = encoded-returns fits in
      (lpm_match bs (pos n), rw (made, taking.takes_int n small) refl)
  field_match-returns (masked fits also) =
      let (bs, made) = encoded-returns fits in
      let (cs, mask) = encoded-returns also in (ternary_match bs cs, rw (made, mask) refl)
  field_match-returns (between fits also) =
      let (bs, low) = encoded-returns fits in
      let (cs, high) = encoded-returns also in (range_match bs cs, rw (low, high) refl)

  -- The table has a field of each name, and the value fits it.
  abbrev pub FitFields : String → Dict String MatchValue → Type 0
  FitFields table_name [] = Unit
  FitFields table_name ((name, v) ∷ fields) =
      ((mf : MatchField) × (get_match_field info table_name (some name) none ≡ ok mf)
        × FitsMatch l mf.match_type mf.bitwidth v)
      × FitFields table_name fields

  abbrev pub FitParams : String → Dict String Value → Type 0
  FitParams action_name [] = Unit
  FitParams action_name ((name, v) ∷ params) =
      ((param : Param) × (get_action_param info action_name (some name) none ≡ ok param)
        × Fits l v param.bitwidth)
      × FitParams action_name params

  match_of-returns :
      (table_name : String) (fields : Dict String MatchValue)
      → FitFields table_name fields
      → (ms : List FieldMatch) × (match_of l info table_name fields ≡ ok ms)
  unfolding match_of get_match_field_pb
  match_of-returns table_name [] fit = ([], refl)
  match_of-returns table_name ((name, v) ∷ fields) ((mf, found, fits), fit) =
      let (f, made) = field_match-returns fits in
      let (ms, rest) = match_of-returns table_name fields fit in
      (record { field_id = mf.id; field_match_type = f } ∷ ms, rw (found, made, rest) refl)

  params_of_action-returns :
      (action_name : String) (params : Dict String Value)
      → FitParams action_name params
      → (ps : List ActionParam) × (params_of_action l info action_name params ≡ ok ps)
  unfolding params_of_action get_action_param_pb
  params_of_action-returns action_name [] fit = ([], refl)
  params_of_action-returns action_name ((name, v) ∷ params) ((param, found, fits), fit) =
      let (bs, made) = encoded-returns fits in
      let (ps, rest) = params_of_action-returns action_name params fit in
      (record { param_id = param.id; value = bs } ∷ ps, rw (found, made, rest) refl)

  -- No action, an empty name, or that of an action with such parameters.
  abbrev pub FitAction : Option String → Dict String Value → Type 0
  FitAction none params = Unit
  FitAction (some name) params =
      (name ≡ "") ⊎ ((id : ℕ) × (get_id info actions name ≡ ok id) × FitParams name params)

  priority_of-returns :
      {priority : Option Value}
      → FitPriority priority
      → (n : ℤ) × (priority_of l info priority ≡ ok n)
  priority_of-returns default_priority = (pos 0, refl)
  priority_of-returns (small_priority {n} small) = (pos n, taking.takes_int n small)

  action_of-returns :
      (name : Option String) (params : Dict String Value)
      → FitAction name params
      → (o : Option ActionEntry) × (action_of l info name params ≡ ok o)
  unfolding action_of action_named
  action_of-returns none params fit = (none, refl)
  action_of-returns (some name) params (inl empty) = (none, rw empty refl)
  action_of-returns (some name) params (inr (id, found, fit)) =
      let (ps, made) = params_of_action-returns name params fit in
      elim (Bool-cases (name == "")) [
        | inl empty ↦ (none, rw empty refl)
        | inr named ↦ (some (record { action_id = id; params = ps }), rw (found, named, made) refl)
      ]

  -- An entry is built whenever its table and its action are described, with a match field and a
  -- parameter of each name that is given, and each value fits: a number its bit width, which is not
  -- 0, a prefix length or a priority 31 bits, and a text that is read as an address the bytes.
  pub build_table_entry-returns :
      (a : Arguments) (table_id : ℕ)
      → get_id info tables a.table_name ≡ ok table_id
      → FitPriority a.priority
      → FitFields a.table_name a.match_fields
      → FitAction a.action_name a.action_params
      → (e : TableEntry) × (build_table_entry l info a ≡ ok e) × (e.table_id ≡ table_id)
  unfolding build_table_entry
  build_table_entry-returns a table_id found priority fields action =
      let (n, prior) = priority_of-returns priority in
      let (ms, matched) = match_of-returns a.table_name a.match_fields fields in
      let (o, acts) = action_of-returns a.action_name a.action_params action in
      let e : TableEntry = record {
        table_id = table_id;
        priority = n;
        match = ms;
        is_default_action = a.default_action;
        action = o;
      } in
      (e, rw (found, prior, matched, acts) refl, refl)

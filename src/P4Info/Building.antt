-- ===== src/P4Info/Building.antt =====
-- The entries that `P4InfoHelper` of trans_sec/p4runtime_lib/helper.py builds: what `encode` and the
-- protobuf library make of the values is theirs, and a field that is not set has its default.
use transparent_security.Prelude.{ℕ, String, Bool, Option, none, some, List, [], ◌∷◌, if◌then◌else◌}
use transparent_security.Prelude.Equality.{◌==◌, string_eq}
use transparent_security.Prelude.Lists.{get_elem?}
use transparent_security.Prelude.Dict.{Dict}
use transparent_security.Prelude.Result.{Result, ok, err, type_error, index_error, error, ◌>>=◌}
use transparent_security.Convert.{ℤ, pos, Value, str, one, Encoded, encode}
use transparent_security.P4Info.{
  P4Info, tables, actions, MatchType, exact, lpm, ternary, range, unsupported, get_id,
  get_match_field, get_action_param,
}

-- The value of a match field; a list or tuple is `items`.
pub data MatchValue : Type 0 where
  scalar : Value → MatchValue
  items : List Value → MatchValue

-- `value[i]`
abbrev pub item : MatchValue → ℕ → Result Value
item (items values) i = elim (get_elem? values i) [ none ↦ err index_error | some v ↦ ok v ]
item (scalar (one v)) i = elim (get_elem? (v ∷ []) i) [ none ↦ err index_error | some w ↦ ok w ]
item (scalar (str s)) i = elim (get_elem? s i) [
  | none ↦ err index_error
  | some c ↦ ok (str (c ∷ []))
]
item (scalar _) i = err type_error

abbrev pub first_item : MatchValue → Result Value
first_item (items values) = item (items values) 0
first_item (scalar (one v)) = ok v
first_item (scalar v) = ok v

pub data FieldMatchType : Type 0 where
  exact_match : List ℕ → FieldMatchType
  lpm_match : List ℕ → ℤ → FieldMatchType
  ternary_match : List ℕ → List ℕ → FieldMatchType
  range_match : List ℕ → List ℕ → FieldMatchType

pub record FieldMatch : Type 0 where
  pub field_id : ℕ
  pub field_match_type : FieldMatchType

pub record ActionParam : Type 0 where
  pub param_id : ℕ
  pub value : List ℕ

pub record ActionEntry : Type 0 where
  pub action_id : ℕ
  pub params : List ActionParam

pub record TableEntry : Type 0 where
  pub table_id : ℕ
  pub priority : ℤ
  pub match : List FieldMatch
  pub is_default_action : Bool
  pub action : Option ActionEntry

-- The other arguments of `build_table_entry`, with their defaults where they are not given.
pub record Arguments : Type 0 where
  pub table_name : String
  pub match_fields : Dict String MatchValue
  pub default_action : Bool
  pub action_name : Option String
  pub action_params : Dict String Value
  pub priority : Option Value

-- What the libraries do: `socket.inet_aton` and `socket.inet_pton(AF_INET6, …)`, the `\d` of `re`
-- beyond ASCII, and what the protobuf library makes of a value that is assigned to a field of bytes
-- or of 32 bits.
pub record Library : Type 0 where
  pub inet_aton : List ℕ → Result (List ℕ)
  pub inet_pton : List ℕ → Result (List ℕ)
  pub unicode_digit : ℕ → Bool
  pub as_bytes : Encoded → Result (List ℕ)
  pub as_int32 : Value → Result ℤ

module _ (l : Library) (info : P4Info) where
  unfoldable pub encoded : Value → ℕ → Result (List ℕ)
  unfolding encode
  encoded value bit_width = do
    e ← encode l.inet_aton l.inet_pton l.unicode_digit value bit_width
    l.as_bytes e

  abbrev pub field_match : MatchType → ℕ → MatchValue → Result FieldMatchType
  field_match exact bit_width value = do
    v ← first_item value
    bs ← encoded v bit_width
    ok (exact_match bs)
  field_match lpm bit_width value = do
    v ← item value 0
    bs ← encoded v bit_width
    n ← item value 1
    prefix_len ← l.as_int32 n
    ok (lpm_match bs prefix_len)
  field_match ternary bit_width value = do
    v ← item value 0
    bs ← encoded v bit_width
    m ← item value 1
    mask ← encoded m bit_width
    ok (ternary_match bs mask)
  field_match range bit_width value = do
    v ← item value 0
    low ← encoded v bit_width
    h ← item value 1
    high ← encoded h bit_width
    ok (range_match low high)
  field_match unsupported bit_width value = err (error "Unsupported match type")

  unfoldable pub get_match_field_pb : String → String → MatchValue → Result FieldMatch
  unfolding encoded
  get_match_field_pb table_name match_field_name value = do
    mf ← get_match_field info table_name (some match_field_name) none
    matched ← field_match mf.match_type mf.bitwidth value
    ok (record { field_id = mf.id; field_match_type = matched })

  unfoldable pub get_action_param_pb : String → String → Value → Result ActionParam
  unfolding encoded
  get_action_param_pb action_name param_name value = do
    param ← get_action_param info action_name (some param_name) none
    bs ← encoded value param.bitwidth
    ok (record { param_id = param.id; value = bs })

  unfoldable pub match_of : String → Dict String MatchValue → Result (List FieldMatch)
  unfolding get_match_field_pb
  match_of table_name [] = ok []
  match_of table_name ((name, value) ∷ fields) = do
    m ← get_match_field_pb table_name name value
    ms ← match_of table_name fields
    ok (m ∷ ms)

  unfoldable pub params_of_action : String → Dict String Value → Result (List ActionParam)
  unfolding get_action_param_pb
  params_of_action action_name [] = ok []
  params_of_action action_name ((name, value) ∷ params) = do
    p ← get_action_param_pb action_name name value
    ps ← params_of_action action_name params
    ok (p ∷ ps)

  abbrev pub priority_of : Option Value → Result ℤ
  priority_of none = ok (pos 0)
  priority_of (some priority) = l.as_int32 priority

  unfoldable pub action_named : String → Dict String Value → Result (Option ActionEntry)
  unfolding params_of_action get_id
  action_named action_name action_params = do
    action_id ← get_id info actions action_name
    params ← params_of_action action_name action_params
    ok (some (record { action_id = action_id; params = params }))

  -- `if action_name:`
  unfoldable pub action_of : Option String → Dict String Value → Result (Option ActionEntry)
  unfolding action_named
  action_of none action_params = ok none
  action_of (some action_name) action_params =
      if action_name == "" then ok none else action_named action_name action_params

  unfoldable pub build_table_entry : Arguments → Result TableEntry
  unfolding match_of action_of get_id
  build_table_entry a = do
    table_id ← get_id info tables a.table_name
    priority ← priority_of a.priority
    match ← match_of a.table_name a.match_fields
    action ← action_of a.action_name a.action_params
    ok (record {
      table_id = table_id;
      priority = priority;
      match = match;
      is_default_action = a.default_action;
      action = action;
    })

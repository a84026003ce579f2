-- ===== src/P4Info.antt =====
-- `P4InfoHelper` of trans_sec/p4runtime_lib/helper.py: the look-ups in the description of a P4
-- program. The description is the message that the protobuf library has read from a file.
pub mod Building
pub mod Engine
pub mod Lookups
pub mod Shape
pub mod Entries
pub mod Built
pub mod Parameters
use transparent_security.Prelude.{
  ℕ, String, Bool, true, false, ◌||◌, not, Option, none, some, List, [], ◌∷◌, ◌++◌, map,
  if◌then◌else◌,
}
use transparent_security.Prelude.Equality.{◌==◌, nat_eq, string_eq}
use transparent_security.Prelude.Result.{Result, ok, err, attribute_error, assertion_error, ◌>>=◌}

pub record Preamble : Type 0 where
  pub id : ℕ
  pub name : String
  pub alias : String

pub data MatchType : Type 0 where
  exact lpm ternary range unsupported : MatchType

pub record MatchField : Type 0 where
  pub id : ℕ
  pub name : String
  pub bitwidth : ℕ
  pub match_type : MatchType

pub record Table : Type 0 where
  pub preamble : Preamble
  pub match_fields : List MatchField

pub record Param : Type 0 where
  pub id : ℕ
  pub name : String
  pub bitwidth : ℕ

pub record Action : Type 0 where
  pub preamble : Preamble
  pub params : List Param

pub record P4Info : Type 0 where
  pub tables : List Table
  pub actions : List Action
  pub digests : List Preamble

-- The lists of the message that the code reads by their names.
pub data EntityType : Type 0 where
  tables actions digests : EntityType

abbrev pub preambles : P4Info → EntityType → List Preamble
preambles info tables = map (λ t. t.preamble) info.tables
preambles info actions = map (λ a. a.preamble) info.actions
preambles info digests = info.digests

-- `if name:`
abbrev pub given : Option String → Option String
given none = none
given (some name) = if name == "" then none else some name

abbrev pub is_entity : Option String → Option ℕ → Preamble → Bool
is_entity (some name) entity_id pre = pre.name == name || pre.alias == name
is_entity none (some entity_id) pre = pre.id == entity_id
is_entity none none pre = false

unfoldable pub first {ℓ} : {A : Type ℓ} → (A → Bool) → List A → Option A
first p [] = none
first p (x ∷ xs) = if p x then some x else first p xs

abbrev pub or_attribute_error {ℓ} : {A : Type ℓ} → Option A → Result A
or_attribute_error none = err attribute_error
or_attribute_error (some a) = ok a

-- Of the object that is found only the preamble is read.
unfoldable pub get : P4Info → EntityType → Option String → Option ℕ → Result Preamble
unfolding first
get info entity_type (some name) (some entity_id) = err assertion_error
get info entity_type name entity_id =
    or_attribute_error (first (is_entity (given name) entity_id) (preambles info entity_type))

unfoldable pub get_id : P4Info → EntityType → String → Result ℕ
unfolding get
get_id info entity_type name = do pre ← get info entity_type (some name) none; ok pre.id

unfoldable pub get_name : P4Info → EntityType → ℕ → Result String
unfolding get
get_name info entity_type entity_id = do
  pre ← get info entity_type none (some entity_id)
  ok pre.name

unfoldable pub get_alias : P4Info → EntityType → ℕ → Result String
unfolding get
get_alias info entity_type entity_id = do
  pre ← get info entity_type none (some entity_id)
  ok pre.alias

-- Every table of the name is searched, and its alias does not count.
abbrev is_match_field : Option String → Option ℕ → MatchField → Bool
is_match_field (some name) field_id mf = mf.name == name
is_match_field none (some field_id) mf = mf.id == field_id
is_match_field none none mf = false

unfoldable pub fields_of : String → List Table → List MatchField
fields_of table_name [] = []
fields_of table_name (t ∷ ts) =
    let rest = fields_of table_name ts in
    if t.preamble.name == table_name then t.match_fields ++ rest else rest

unfoldable pub get_match_field : P4Info → String → Option String → Option ℕ → Result MatchField
unfolding fields_of first
get_match_field info table_name name field_id =
    or_attribute_error (first (is_match_field name field_id) (fields_of table_name info.tables))

unfoldable pub get_match_field_id : P4Info → String → String → Result ℕ
unfolding get_match_field
get_match_field_id info table_name match_field_name = do
  mf ← get_match_field info table_name (some match_field_name) none
  ok mf.id

unfoldable pub get_match_field_name : P4Info → String → ℕ → Result String
unfolding get_match_field
get_match_field_name info table_name match_field_id = do
  mf ← get_match_field info table_name none (some match_field_id)
  ok mf.name

abbrev is_param : Option String → Option ℕ → Param → Bool
is_param (some name) action_id param = param.name == name
is_param none (some action_id) param = param.id == action_id
is_param none none param = false

unfoldable pub params_of : String → List Action → List Param
params_of action_name [] = []
params_of action_name (a ∷ rest_of) =
    let rest = params_of action_name rest_of in
    if a.preamble.name == action_name then a.params ++ rest else rest

unfoldable pub get_action_param : P4Info → String → Option String → Option ℕ → Result Param
unfolding params_of first
get_action_param info action_name name action_id =
    or_attribute_error (first (is_param name action_id) (params_of action_name info.actions))

unfoldable pub get_action_param_id : P4Info → String → String → Result ℕ
unfolding get_action_param
get_action_param_id info action_name param_name = do
  param ← get_action_param info action_name (some param_name) none
  ok param.id

unfoldable pub get_action_param_name : P4Info → String → ℕ → Result String
unfolding get_action_param
get_action_param_name info action_name param_id = do
  param ← get_action_param info action_name none (some param_id)
  ok param.name

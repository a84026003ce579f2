-- ===== src/P4Switch.antt =====
-- The attack and inspection tables of the P4Runtime switches: trans_sec/p4runtime_lib/p4rt_switch.py,
-- aggregate_switch.py and gateway_switch.py of the same directory, and parse_attack of
-- trans_sec/switch.py. An entry is what `build_table_entry` is called with.
pub mod Aggregate
pub mod Gateway
pub mod Reverts
use Prim.Native.String.append
use Prim.Native.String.{◌++◌ as str_append}
use transparent_security.Prelude.{
  ℕ, String, Bool, true, false, Option, none, some, List, [], ◌∷◌, ◌++◌, if◌then◌else◌, ◌≢◌, ◌≡◌,
}
use transparent_security.Prelude.Equality.{◌==◌, nat_eq}
use transparent_security.Prelude.Dict.{Dict}
use transparent_security.Prelude.Result.{Result, ok, err, value_error, type_error}
use transparent_security.Prelude.Exec.{Exec, lift, ◌>>=◌, ◌>>◌}
use transparent_security.Convert.{ℤ, pos}
use transparent_security.External.{IpAddress}
use transparent_security.Controller.Switches.{AttackRequest}

-- The value of a match field or of an action parameter: a text, None or a number.
pub data FieldValue : Type 0 where
  text : String → FieldValue
  missing : FieldValue
  number : ℤ → FieldValue

pub record Entry : Type 0 where
  pub table_name : String
  pub match_fields : Dict String FieldValue
  pub action_name : String
  pub action_params : Option (Dict String FieldValue)

pub data Update : Type 0 where
  insert delete : Entry → Update

-- What the methods below read of a switch, and the updates that were written to it.
pub record P4Switch : Type 0 where
  pub device_id : ℤ
  pub int_device_id : ℤ
  pub p4_ingress : String
  pub writes : List Update

abbrev pub dotted : String → String → String
dotted tbl_class name = str_append tbl_class (str_append "." name)

pub dotted-nonempty : (tbl_class name : String) → dotted tbl_class name ≢ ""
dotted-nonempty String.[] name e =
    let whole : str_append "" (str_append "." name) ≡ str_append "." name = append.nil _ in
    let dot : str_append "." name ≡ String.◌∷◌ _ (str_append "" name) = append.cons _ "" name in
    absurd (cc (whole, dot, e))
dotted-nonempty (String.◌∷◌ c s) name e =
    let first : str_append (String.◌∷◌ c s) (str_append "." name)
        ≡ String.◌∷◌ c (str_append s (str_append "." name)) =
      append.cons c s _ in
    absurd (cc (first, e))

abbrev pub text_of : Option String → FieldValue
text_of none = missing
text_of (some s) = text s

-- `ipaddress.ip_address` of None is a ValueError, and `int` of None a TypeError.
module _ (ipaddress : IpAddress) where
  open ipaddress use {Address, ip_address}

  unfoldable pub ip_of : Option String → Result Address
  ip_of none = err value_error
  ip_of (some s) = ip_address s

unfoldable pub int_of : (String → Result ℤ) → Option String → Result ℤ
int_of int none = err type_error
int_of int (some s) = int s

module _ (write : Update → Result (Unit {0})) where
  -- `__write_to_table`, with the building of the entry
  unfoldable pub write_to_table : Update → Exec P4Switch (Unit {0})
  write_to_table u s = elim (write u) [
    | ok _ ↦ (ok tt, record s { writes = s.writes ++ u ∷ [] })
    | err e ↦ (err e, s)
  ]

  unfoldable pub get_table_entry :
      String → String → Dict String FieldValue → Option (Dict String FieldValue) → P4Switch → Entry
  get_table_entry table_name action_name match_fields action_params s = record {
    table_name = dotted s.p4_ingress table_name;
    match_fields = match_fields;
    action_name = dotted s.p4_ingress action_name;
    action_params = action_params;
  }

  unfoldable pub insert_p4_table_entry :
      String
      → String
      → Dict String FieldValue
      → Option (Dict String FieldValue)
      → Exec P4Switch (Unit {0})
  unfolding write_to_table get_table_entry
  insert_p4_table_entry table_name action_name match_fields action_params s =
      write_to_table (insert (get_table_entry table_name action_name match_fields action_params s))
        s

  unfoldable pub delete_p4_table_entry :
      String → String → Dict String FieldValue → Exec P4Switch (Unit {0})
  unfolding write_to_table get_table_entry
  delete_p4_table_entry table_name action_name match_fields s =
      write_to_table (delete (get_table_entry table_name action_name match_fields none s)) s

-- ===== src/Examples/Programs.antt =====
-- Runs of trans_sec/p4runtime_lib/helper.py on a program with two tables and one action.
use mathlib.Core.List.{Memᴰ}
use transparent_security.Prelude.{
  ℕ, ◌≡◌, refl, sym, Bool, false, none, some, List, [], ◌∷◌, arith, inr,
}
use transparent_security.Prelude.Equality.{nat_eq, string_eq, ne_of_beq}
use transparent_security.Prelude.Lists.{replicate}
use transparent_security.Prelude.Result.{Result, ok, err, value_error, type_error}
use transparent_security.Convert.{
  ℤ, pos, Value, int, Encoded, bytes, text, encode, encode_num, unhex, hex_digits, hex_value,
}
use transparent_security.P4Info.{
  P4Info, Preamble, tables, preambles, exact, get_id, get_name, get_alias, get_match_field,
  get_action_param,
}
use transparent_security.P4Info.Building.{
  Library, scalar, Arguments, TableEntry, exact_match, build_table_entry,
}
use transparent_security.P4Info.Shape.{IsLibrary, AreFields}
use transparent_security.P4Info.Entries.{IsAction, build_table_entry_lem}
use transparent_security.P4Info.Lookups.{IsUnambiguous, get_id-get_name}
use transparent_security.P4Info.Built.{
  IsTaking, default_priority, alone, number, build_table_entry-returns,
}

abbrev forward_t : Preamble
forward_t = record { id = 33; name = "Ingress.forward_t"; alias = "forward_t" }

abbrev drop_t : Preamble
drop_t = record { id = 34; name = "Ingress.drop_t"; alias = "drop_t" }

abbrev program : P4Info
program = record {
  tables =
      record {
        preamble = forward_t;
        match_fields = record { id = 1; name = "port"; bitwidth = 9; match_type = exact } ∷ [];
      }
      ∷ record { preamble = drop_t; match_fields = [] }
      ∷ [];
  actions =
      record {
        preamble = record { id = 17; name = "Ingress.forward"; alias = "forward" };
        params = record { id = 1; name = "out"; bitwidth = 16 } ∷ [];
      }
      ∷ [];
  digests = [];
}

program-IsUnambiguous : IsUnambiguous (preambles program tables)
program-IsUnambiguous = (
  ne_of_beq "Ingress.forward_t" "" refl,
  ne_of_beq "forward_t" "" refl,
  (
    record {
      ids = ne_of_beq 33 34 refl;
      names = ne_of_beq "Ingress.forward_t" "Ingress.drop_t" refl;
      aliases = ne_of_beq "forward_t" "drop_t" refl;
      name_alias = ne_of_beq "Ingress.forward_t" "drop_t" refl;
      alias_name = ne_of_beq "forward_t" "Ingress.drop_t" refl;
    },
    tt,
  ),
  (ne_of_beq "Ingress.drop_t" "" refl, ne_of_beq "drop_t" "" refl, tt, tt),
)

get_id-get_name_example :
    (get_id program tables "Ingress.drop_t" ≡ ok 34)
    × (get_id program tables "drop_t" ≡ ok 34)
    × (get_name program tables 34 ≡ ok "Ingress.drop_t")
    × (get_alias program tables 34 ≡ ok "drop_t")
get_id-get_name_example =
    get_id-get_name program tables drop_t (Memᴰ.tail (Memᴰ.head refl)) program-IsUnambiguous

abbrev taken : Encoded → Result (List ℕ)
taken (bytes bs) = ok bs
taken (text s) = err type_error

abbrev small : Value → Result ℤ
small (int n) = ok n
small _ = err type_error

abbrev zeros : List ℕ → Result (List ℕ)
zeros s = ok (replicate 16 0)

abbrev pub library : Library
library = record {
  inet_aton = λ s. err value_error;
  inet_pton = zeros;
  unicode_digit = λ c. false;
  as_bytes = taken;
  as_int32 = small;
}

taken-bytes : (e : Encoded) (bs : List ℕ) → taken e ≡ ok bs → e ≡ bytes bs
taken-bytes (bytes cs) bs h = cc
taken-bytes (text s) bs h = absurd (cc)

library-IsLibrary : IsLibrary library
library-IsLibrary = record {
  packed = λ s bs e. (let same : replicate 16 0 ≡ bs = cc in rw (sym same) refl);
  taken = taken-bytes;
}

abbrev arguments : Arguments
arguments = record {
  table_name = "Ingress.forward_t";
  match_fields = ("port", scalar (int (pos 300))) ∷ [];
  default_action = false;
  action_name = some "Ingress.forward";
  action_params = ("out", int (pos 7)) ∷ [];
  priority = none;
}

abbrev built : TableEntry
built = record {
  table_id = 33;
  priority = pos 0;
  match = record { field_id = 1; field_match_type = exact_match (1 ∷ 44 ∷ []) } ∷ [];
  is_default_action = false;
  action =
      some (record { action_id = 17; params = record { param_id = 1; value = 0 ∷ 7 ∷ [] } ∷ [] });
}

build_table_entry_lem_example :
    (get_id program tables "Ingress.forward_t" ≡ ok 33)
    × AreFields library library-IsLibrary program "Ingress.forward_t" arguments.match_fields
        built.match
    × ◌≡◌ {A = Bool} false false
    × IsAction library library-IsLibrary program
        (some "Ingress.forward")
        arguments.action_params
        built.action
unfolding build_table_entry get_id encode encode_num unhex hex_digits hex_value get_match_field
    get_action_param
build_table_entry_lem_example =
    build_table_entry_lem library library-IsLibrary program arguments built refl

library-IsTaking : IsTaking library
library-IsTaking = record { takes = λ bs. refl; takes_int = λ n small. refl }

build_table_entry-returns_example :
    (e : TableEntry) × (build_table_entry library program arguments ≡ ok e) × (e.table_id ≡ 33)
unfolding get_id get_match_field get_action_param
build_table_entry-returns_example =
    build_table_entry-returns library library-IsTaking program arguments 33 refl default_priority
      ((_, refl, alone (number (omega arith) (omega arith))), tt)
      (inr (_, refl, ((_, refl, number (omega arith) (omega arith)), tt)))

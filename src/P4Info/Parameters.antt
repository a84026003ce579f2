-- ===== src/P4Info/Parameters.antt =====
-- Entries that `P4InfoHelper.build_table_entry` of trans_sec/p4runtime_lib/helper.py cannot build,
-- for a parameter of their action.
use transparent_security.Prelude.{
  ℕ, ◌^◌, ◌≤◌, String, ◌≡◌, sym, ap, ◌∙◌, ◌≢◌, Bool, false, Option, some, none, List, ◌∷◌, inl, inr,
  Bool-cases, if◌then◌else◌,
}
use transparent_security.Prelude.Equality.{◌==◌, string_eq}
use transparent_security.Prelude.Dict.{Dict}
use transparent_security.Prelude.Result.{Exception, Result, ok, err, ◌>>=◌, >>=-eq-ok, Result-cases}
use transparent_security.Convert.{ℤ, pos, Value, int, other, encode}
use transparent_security.Convert.Numbers.{encode_num_rejects}
use transparent_security.P4Info.{P4Info, Param, tables, actions, get_id, get_action_param}
use transparent_security.P4Info.Building.{
  Library, FieldMatch, ActionParam, ActionEntry, TableEntry, Arguments, encoded,
  get_action_param_pb, match_of, params_of_action, action_named, action_of, build_table_entry,
  MatchValue,
}

module _ (l : Library) (info : P4Info) where
  abbrev pub Encodes : Value → ℕ → Type 0
  Encodes v w = (bs : List ℕ) × (encoded l info v w ≡ ok bs)

  first_param-Encodes :
      (action_name name : String) (v : Value) (params : Dict String Value) (ps : List ActionParam)
      → params_of_action l info action_name ((name, v) ∷ params) ≡ ok ps
      → (param : Param) × (get_action_param info action_name (some name) none ≡ ok param)
        × Encodes v param.bitwidth
  unfolding params_of_action get_action_param_pb
  first_param-Encodes action_name name v params ps returns =
      let rest = params_of_action l info action_name params in
      let all : ActionParam → List ActionParam → Result (List ActionParam) = λ p ps. ok (p ∷ ps) in
      let one = get_action_param_pb l info action_name name v in
      let (p, first, _) = >>=-eq-ok one (λ p. rest >>= all p) returns in
      let build : Param → List ℕ → Result ActionParam =
        λ param bs. ok (record { param_id = param.id; value = bs }) in
      let (param, found, e) =
        >>=-eq-ok (get_action_param info action_name (some name) none)
          (λ param. encoded l info v param.bitwidth >>= build param) first in
      let (bs, fits, _) = >>=-eq-ok (encoded l info v param.bitwidth) (build param) e in
      (param, found, (bs, fits))

  action-params :
      (name : String) (params : Dict String Value) (action : Option ActionEntry)
      → name ≢ ""
      → action_of l info (some name) params ≡ ok action
      → (ps : List ActionParam) × (params_of_action l info name params ≡ ok ps)
  unfolding action_of action_named
  action-params name params action named returns =
      let by : Bool → Result (Option ActionEntry) =
        λ empty. if empty then ok none else action_named l info name params in
      let build : ℕ → List ActionParam → Result (Option ActionEntry) =
        λ id ps. ok (some (record { action_id = id; params = ps })) in
      let made = params_of_action l info name params in
      elim (Bool-cases (name == "")) [
        | inl empty ↦ absurd (named ((string_eq.beq_iff name "").0 empty))
        | inr filled ↦
            let (id, _, e) =
              >>=-eq-ok (get_id info actions name) (λ id. made >>= build id)
                (sym (ap by filled) ∙ returns) in
            let (ps, all, _) = >>=-eq-ok made (build id) e in (ps, all)
      ]

  -- The entry for a table and an action with these parameters
  abbrev pub entry_for : String → Dict String MatchValue → String → Dict String Value → Arguments
  entry_for table_name match_fields action_name action_params = record {
    table_name = table_name;
    match_fields = match_fields;
    default_action = false;
    action_name = some action_name;
    action_params = action_params;
    priority = none;
  }

  -- An entry is not built where its action's first parameter has no encoding.
  pub build_table_entry-fails :
      (t : String) (m : Dict String MatchValue) (name k : String) (v : Value)
      (params : Dict String Value)
      → name ≢ ""
      → ((param : Param)
          → get_action_param info name (some k) none ≡ ok param
          → ¬ Encodes v param.bitwidth)
      → (e : Exception) × (build_table_entry l info (entry_for t m name ((k, v) ∷ params)) ≡ err e)
  unfolding build_table_entry
  build_table_entry-fails t m name k v params named unfit =
      let a = entry_for t m name ((k, v) ∷ params) in
      let act = action_of l info (some name) ((k, v) ∷ params) in
      let fields = match_of l info t m in
      let build : ℕ → ℤ → List FieldMatch → Option ActionEntry → Result TableEntry = λ id p m o.
        ok (record {
          table_id = id;
          priority = p;
          match = m;
          is_default_action = false;
          action = o;
        }) in
      elim (Result-cases (build_table_entry l info a)) [
        | inl failed ↦ failed
        | inr (e, returns) ↦
            let (id, _, r0) =
              >>=-eq-ok (get_id info tables t) (λ id. fields >>= λ m. act >>= build id (pos 0) m)
                returns in
            let (ms, _, r1) = >>=-eq-ok fields (λ m. act >>= build id (pos 0) m) r0 in
            let (o, acts, _) = >>=-eq-ok act (build id (pos 0) ms) r1 in
            let (ps, all) = action-params name ((k, v) ∷ params) o named acts in
            let (param, found, fits) = first_param-Encodes name k v params ps all in
            absurd (unfit param found fits)
      ]

  -- A value that is neither a text nor a number, None for one, is not encoded.
  pub other_unfit : (b : Bool) (w : ℕ) → ¬ Encodes (other b) w
  unfolding encoded encode
  other_unfit b w (bs, e) = cc

  -- Nor is a number that does not fit.
  pub large_unfit : (n w : ℕ) → 2 ^ w ≤ n → ¬ Encodes (int (pos n)) w
  unfolding encoded encode
  large_unfit n w h (bs, e) =
      let (rejected, _) = encode_num_rejects w n 0 h in absurd (cc (rw rejected at e))

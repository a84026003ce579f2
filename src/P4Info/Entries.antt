-- ===== src/P4Info/Entries.antt =====
-- What an entry that `P4InfoHelper.build_table_entry` of trans_sec/p4runtime_lib/helper.py returns
-- looks like, with the lengths of its values.
use transparent_security.Prelude.{
  ℕ, String, Bool, true, if◌then◌else◌, ◌≡◌, refl, sym, inl, inr, ◌∙◌, ap, Option, none, some, List,
  [], ◌∷◌, Bool-cases,
}
use transparent_security.Prelude.Equality.{◌==◌, string_eq}
use transparent_security.Prelude.Dict.{Dict}
use transparent_security.Prelude.Result.{Result, ok, ◌>>=◌, >>=-eq-ok}
use transparent_security.Convert.{ℤ, Value}
use transparent_security.P4Info.{P4Info, tables, actions, Param, get_id, get_action_param}
use transparent_security.P4Info.Building.{
  Library, FieldMatch, ActionParam, ActionEntry, TableEntry, Arguments, get_action_param_pb,
  match_of, params_of_action, action_named, action_of, priority_of, build_table_entry,
}
use transparent_security.P4Info.Shape.{
  IsSized, IsLibrary, encodes, encoded-IsSized, AreFields, match_of-AreFields,
}

module _ (l : Library) (lib : IsLibrary l) (info : P4Info) where
  pub record IsParam (action_name name : String) (p : ActionParam) : Type 0 where
    pub described : Param
    pub found : get_action_param info action_name (some name) none ≡ ok described
    pub id_is : p.param_id ≡ described.id
    pub shape : IsSized described.bitwidth p.value

  get_action_param_pb-IsParam :
      (action_name name : String) (v : Value) (p : ActionParam)
      → get_action_param_pb l info action_name name v ≡ ok p
      → IsParam action_name name p
  unfolding get_action_param_pb
  get_action_param_pb-IsParam action_name name v p returns =
      let build : Param → List ℕ → Result ActionParam =
        λ param bs. ok (record { param_id = param.id; value = bs }) in
      let (param, found, e) =
        >>=-eq-ok (get_action_param info action_name (some name) none)
          (λ param. encodes l lib info v param.bitwidth >>= build param) returns in
      let (bs, fits, e1) = >>=-eq-ok (encodes l lib info v param.bitwidth) (build param) e in
      let same : ◌≡◌ {A = ActionParam} (record { param_id = param.id; value = bs }) p = cc in
      record {
        described = param;
        found = found;
        id_is = ap (λ x. x.param_id) (sym same);
        shape = rw (sym same) (encoded-IsSized l lib info v param.bitwidth bs fits);
      }

  abbrev pub AreParams : String → Dict String Value → List ActionParam → Type 0
  AreParams action_name [] [] = Unit
  AreParams action_name ((name, v) ∷ params) (p ∷ ps) =
      IsParam action_name name p × AreParams action_name params ps
  AreParams action_name _ _ = ⊥

  params_of_action-AreParams :
      (action_name : String) (params : Dict String Value) (ps : List ActionParam)
      → params_of_action l info action_name params ≡ ok ps
      → AreParams action_name params ps
  unfolding params_of_action
  params_of_action-AreParams action_name [] [] returns = tt
  params_of_action-AreParams action_name [] (p ∷ ps) returns = absurd (cc)
  params_of_action-AreParams action_name ((name, v) ∷ params) ps returns =
      let rest = params_of_action l info action_name params in
      let build : ActionParam → List ActionParam → Result (List ActionParam) =
        λ p ps. ok (p ∷ ps) in
      let one = get_action_param_pb l info action_name name v in
      let (p, first, e) = >>=-eq-ok one (λ p. rest >>= build p) returns in
      let (others, later, e1) = >>=-eq-ok rest (build p) e in
      let same : p ∷ others ≡ ps = cc in
      rw (sym same) (
        get_action_param_pb-IsParam action_name name v p first,
        params_of_action-AreParams action_name params others later,
      )

  -- The action of an entry, by its name; no action where there is no name.
  abbrev pub IsAction : Option String → Dict String Value → Option ActionEntry → Type 0
  IsAction none params none = Unit
  IsAction none params (some action) = ⊥
  IsAction (some name) params none = name ≡ ""
  IsAction (some name) params (some action) =
      (get_id info actions name ≡ ok action.action_id) × AreParams name params action.params

  action_named-IsAction :
      (name : String) (params : Dict String Value) (action : Option ActionEntry)
      → action_named l info name params ≡ ok action
      → IsAction (some name) params action
  unfolding action_named
  action_named-IsAction name params action returns =
      let build : ℕ → List ActionParam → Result (Option ActionEntry) =
        λ id ps. ok (some (record { action_id = id; params = ps })) in
      let made = params_of_action l info name params in
      let (id, found, e) = >>=-eq-ok (get_id info actions name) (λ id. made >>= build id) returns in
      let (ps, all, e1) = >>=-eq-ok made (build id) e in
      let same : some (record { action_id = id; params = ps }) ≡ action = cc in
      rw (sym same) (found, params_of_action-AreParams name params ps all)

  action_of-IsAction :
      (name : Option String) (params : Dict String Value) (action : Option ActionEntry)
      → action_of l info name params ≡ ok action
      → IsAction name params action
  unfolding action_of
  action_of-IsAction none params none returns = tt
  action_of-IsAction none params (some action) returns = absurd (cc)
  action_of-IsAction (some name) params action returns =
      let by : Bool → Result (Option ActionEntry) =
        λ empty. if empty then ok none else action_named l info name params in
      elim (Bool-cases (name == "")) [
        | inl empty ↦
            let returned : by true ≡ ok action = sym (ap by empty) ∙ returns in
            let same : none ≡ action = cc in rw (sym same) ((string_eq.beq_iff name "").0 empty)
        | inr named ↦ action_named-IsAction name params action (sym (ap by named) ∙ returns)
      ]

  -- An entry that is built has the id of its table, one match field for each that is given, in
  -- order, with the id, the kind and the length in bytes that the description gives the field of
  -- that name (or the 16 bytes of an IPv6 address), and the action with its parameters likewise.
  pub build_table_entry_lem :
      (a : Arguments) (e : TableEntry)
      → build_table_entry l info a ≡ ok e
      → (get_id info tables a.table_name ≡ ok e.table_id)
        × AreFields l lib info a.table_name a.match_fields e.match
        × (e.is_default_action ≡ a.default_action)
        × IsAction a.action_name a.action_params e.action
  unfolding build_table_entry
  build_table_entry_lem a e returns =
      let act = action_of l info a.action_name a.action_params in
      let fields = match_of l info a.table_name a.match_fields in
      let prio = priority_of l info a.priority in
      let build : ℕ → ℤ → List FieldMatch → Option ActionEntry → Result TableEntry = λ id p m o.
        ok (record {
          table_id = id;
          priority = p;
          match = m;
          is_default_action = a.default_action;
          action = o;
        }) in
      let (id, e0, r0) =
        >>=-eq-ok (get_id info tables a.table_name)
          (λ id. prio >>= λ p. fields >>= λ m. act >>= build id p m) returns in
      let (p, e1, r1) = >>=-eq-ok prio (λ p. fields >>= λ m. act >>= build id p m) r0 in
      let (m, e2, r2) = >>=-eq-ok fields (λ m. act >>= build id p m) r1 in
      let (o, e3, r3) = >>=-eq-ok act (build id p m) r2 in
      let same : ◌≡◌ {A = TableEntry}
          (record {
            table_id = id;
            priority = p;
            match = m;
            is_default_action = a.default_action;
            action = o;
          })
          e =
        cc in
      rw (sym same) (
        e0,
        match_of-AreFields l lib info a.table_name a.match_fields m e2,
        refl,
        action_of-IsAction a.action_name a.action_params o e3,
      )

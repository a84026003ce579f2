-- ===== src/P4Info/Shape.antt =====
-- The match fields that `P4InfoHelper` of trans_sec/p4runtime_lib/helper.py builds.
use transparent_security.Prelude.{
  ℕ, String, ◌≡◌, sym, ◌⊎◌, inl, inr, ◌∙◌, ap, none, some, List, [], ◌∷◌,
}
use transparent_security.Prelude.Equality.{string_eq}
use transparent_security.Prelude.Lists.{length}
use transparent_security.Prelude.Dict.{Dict}
use transparent_security.Prelude.Result.{Result, ok, ◌>>=◌, >>=-eq-ok}
use transparent_security.Convert.{
  ℤ, Value, Encoded, bytes, encode, encoded_length, bitwidth_to_bytes,
}
use transparent_security.Convert.Lengths.{encode_length}
use transparent_security.P4Info.{
  P4Info, MatchField, MatchType, exact, lpm, ternary, range, unsupported, get_match_field,
}
use transparent_security.P4Info.Building.{
  Library, MatchValue, item, first_item, FieldMatchType, exact_match, lpm_match, ternary_match,
  range_match, FieldMatch, encoded, field_match, get_match_field_pb, match_of,
}

-- As many bytes as the bit width takes, or those of an IPv6 address.
abbrev pub IsSized : ℕ → List ℕ → Type 0
IsSized bitwidth bs = (length bs ≡ bitwidth_to_bytes bitwidth) ⊎ (length bs ≡ 16)

abbrev pub FieldShape : MatchType → ℕ → FieldMatchType → Type 0
FieldShape exact w (exact_match bs) = IsSized w bs
FieldShape lpm w (lpm_match bs prefix_len) = IsSized w bs
FieldShape ternary w (ternary_match bs mask) = IsSized w bs × IsSized w mask
FieldShape range w (range_match low high) = IsSized w low × IsSized w high
FieldShape _ w _ = ⊥

-- An IPv6 address has 16 bytes, and a field of bytes takes bytes as they are, and nothing else.
pub record IsLibrary (l : Library) : Type 0 where
  pub packed : (s bs : List ℕ) → l.inet_pton s ≡ ok bs → length bs ≡ 16
  pub taken : (e : Encoded) (bs : List ℕ) → l.as_bytes e ≡ ok bs → e ≡ bytes bs

module _ (l : Library) (lib : IsLibrary l) (info : P4Info) where
  abbrev pub encodes : Value → ℕ → Result (List ℕ)
  encodes v w = encoded l info v w

  pub encoded-IsSized : (v : Value) (w : ℕ) (bs : List ℕ) → encodes v w ≡ ok bs → IsSized w bs
  unfolding encoded
  encoded-IsSized v w bs returns =
      let (e, encodes, assigned) =
        >>=-eq-ok (encode l.inet_aton l.inet_pton l.unicode_digit v w) l.as_bytes returns in
      let same = lib.taken e bs assigned in
      elim (encode_length l.inet_aton l.inet_pton l.unicode_digit v w e encodes) [
        | inl sized ↦ inl (ap encoded_length (sym same) ∙ sized)
        | inr six ↦ inr (
            ap encoded_length (sym same ∙ six.result)
            ∙ lib.packed six.source six.packed six.converts)
      ]

  abbrev matched : MatchType → ℕ → MatchValue → Result FieldMatchType
  matched t w v = field_match l info t w v

  -- A first item that is encoded, behind which another step returns.
  encoded_item-IsSized :
      (r : Result Value) (w : ℕ) (k : List ℕ → Result FieldMatchType) (f : FieldMatchType)
      → (r >>= λ v. encodes v w >>= k) ≡ ok f
      → (bs : List ℕ) × IsSized w bs × (k bs ≡ ok f)
  encoded_item-IsSized r w k f returns =
      let (v, _, later) = >>=-eq-ok r (λ v. encodes v w >>= k) returns in
      let (bs, sized, last) = >>=-eq-ok (encodes v w) k later in
      (bs, encoded-IsSized v w bs sized, last)

  matched-FieldShape :
      (t : MatchType) (w : ℕ) (v : MatchValue) (f : FieldMatchType)
      → matched t w v ≡ ok f
      → FieldShape t w f
  matched-FieldShape exact w v f returns =
      let (bs, sized, e) =
        encoded_item-IsSized (first_item v) w (λ bs. ok (exact_match bs)) f returns in
      let same : exact_match bs ≡ f = cc in rw (sym same) sized
  matched-FieldShape lpm w v f returns =
      let last : List ℕ → ℤ → Result FieldMatchType = λ bs n. ok (lpm_match bs n) in
      let (bs, sized, e) =
        encoded_item-IsSized (item v 0) w (λ bs. item v 1 >>= λ n. l.as_int32 n >>= last bs) f
          returns in
      let (n, _, e1) = >>=-eq-ok (item v 1) (λ n. l.as_int32 n >>= last bs) e in
      let (prefix_len, _, e2) = >>=-eq-ok (l.as_int32 n) (last bs) e1 in
      let same : lpm_match bs prefix_len ≡ f = cc in rw (sym same) sized
  matched-FieldShape ternary w v f returns =
      let last : List ℕ → List ℕ → Result FieldMatchType = λ bs m. ok (ternary_match bs m) in
      let (bs, sized, e) =
        encoded_item-IsSized (item v 0) w (λ bs. item v 1 >>= λ m. encodes m w >>= last bs) f
          returns in
      let (mask, sized_mask, e1) = encoded_item-IsSized (item v 1) w (last bs) f e in
      let same : ternary_match bs mask ≡ f = cc in rw (sym same) (sized, sized_mask)
  matched-FieldShape range w v f returns =
      let last : List ℕ → List ℕ → Result FieldMatchType = λ bs m. ok (range_match bs m) in
      let (bs, sized, e) =
        encoded_item-IsSized (item v 0) w (λ bs. item v 1 >>= λ m. encodes m w >>= last bs) f
          returns in
      let (high, sized_high, e1) = encoded_item-IsSized (item v 1) w (last bs) f e in
      let same : range_match bs high ≡ f = cc in rw (sym same) (sized, sized_high)
  matched-FieldShape unsupported w v f returns = absurd (cc)

  -- A field of an entry and the name and value it was built from.
  pub record IsField (table_name name : String) (m : FieldMatch) : Type 0 where
    pub described : MatchField
    pub found : get_match_field info table_name (some name) none ≡ ok described
    pub id_is : m.field_id ≡ described.id
    pub shape : FieldShape described.match_type described.bitwidth m.field_match_type

  get_match_field_pb-IsField :
      (table_name name : String) (v : MatchValue) (m : FieldMatch)
      → get_match_field_pb l info table_name name v ≡ ok m
      → IsField table_name name m
  unfolding get_match_field_pb
  get_match_field_pb-IsField table_name name v m returns =
      let build : MatchField → FieldMatchType → Result FieldMatch =
        λ mf f. ok (record { field_id = mf.id; field_match_type = f }) in
      let (mf, found, e) =
        >>=-eq-ok (get_match_field info table_name (some name) none)
          (λ mf. matched mf.match_type mf.bitwidth v >>= build mf) returns in
      let (f, shape, e1) = >>=-eq-ok (matched mf.match_type mf.bitwidth v) (build mf) e in
      let same : ◌≡◌ {A = FieldMatch} (record { field_id = mf.id; field_match_type = f }) m = cc in
      record {
        described = mf;
        found = found;
        id_is = ap (λ x. x.field_id) (sym same);
        shape = rw (sym same) (matched-FieldShape mf.match_type mf.bitwidth v f shape);
      }

  -- One field for each pair of the dict, in order
  abbrev pub AreFields : String → Dict String MatchValue → List FieldMatch → Type 0
  AreFields table_name [] [] = Unit
  AreFields table_name ((name, v) ∷ fields) (m ∷ ms) =
      IsField table_name name m × AreFields table_name fields ms
  AreFields table_name _ _ = ⊥

  pub match_of-AreFields :
      (table_name : String) (fields : Dict String MatchValue) (ms : List FieldMatch)
      → match_of l info table_name fields ≡ ok ms
      → AreFields table_name fields ms
  unfolding match_of
  match_of-AreFields table_name [] [] returns = tt
  match_of-AreFields table_name [] (m ∷ ms) returns = absurd (cc)
  match_of-AreFields table_name ((name, v) ∷ fields) ms returns =
      let rest = match_of l info table_name fields in
      let build : FieldMatch → List FieldMatch → Result (List FieldMatch) = λ m ms. ok (m ∷ ms) in
      let one = get_match_field_pb l info table_name name v in
      let (m, first, e) = >>=-eq-ok one (λ m. rest >>= build m) returns in
      let (others, later, e1) = >>=-eq-ok rest (build m) e in
      let same : m ∷ others ≡ ms = cc in
      rw (sym same) (
        get_match_field_pb-IsField table_name name v m first,
        match_of-AreFields table_name fields others later,
      )

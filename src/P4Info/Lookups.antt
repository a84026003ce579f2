-- ===== src/P4Info/Lookups.antt =====
-- The look-ups by name and by id of `P4InfoHelper` (trans_sec/p4runtime_lib/helper.py) agree.
use transparent_security.Prelude.{
  ◌≡◌, refl, ◌≢◌, sym, Bool, inl, inr, ◌||◌, true, false, some, List, [], ◌∷◌, arith,
}
use transparent_security.Prelude.Equality.{◌==◌, nat_eq, string_eq, beq_refl, beq_ne}
use transparent_security.Prelude.Lists.{All}
use transparent_security.Prelude.Result.{ok}
use mathlib.Core.List.{Memᴰ}
use mathlib.Core.List.Memᴰ
use transparent_security.P4Info.{
  P4Info, Preamble, EntityType, preambles, first, get, get_id, get_name, get_alias,
}

-- Two entities that share neither the id nor a name.
pub record Apart (p q : Preamble) : Type 0 where
  pub ids : p.id ≢ q.id
  pub names : p.name ≢ q.name
  pub aliases : p.alias ≢ q.alias
  pub name_alias : p.name ≢ q.alias
  pub alias_name : p.alias ≢ q.name

abbrev pub IsUnambiguous : List Preamble → Type 0
IsUnambiguous [] = Unit
IsUnambiguous (p ∷ ps) = (p.name ≢ "") × (p.alias ≢ "") × All (Apart p) ps × IsUnambiguous ps

All-Memᴰ : (P : Preamble → Type 0) (q : Preamble) (l : List Preamble) → Memᴰ q l → All P l → P q
All-Memᴰ P q [] m h = absurd (Memᴰ.not-nil m)
All-Memᴰ P q (p ∷ ps) m h = elim (Memᴰ.cases_cons m) [
  | inl same ↦ rw same h.0
  | inr later ↦ All-Memᴰ P q ps later h.1
]

first-only :
    (test : Preamble → Bool) (p : Preamble) (l : List Preamble)
    → Memᴰ p l
    → IsUnambiguous l
    → test p ≡ true
    → ((q : Preamble) → Apart q p → test q ≡ false)
    → first test l ≡ some p
unfolding first
first-only test p [] m h passes fails = absurd (Memᴰ.not-nil m)
first-only test p (q ∷ qs) m (_, _, apart, h) passes fails = elim (Memᴰ.cases_cons m) [
  | inl same ↦ rw (sym same) (rw passes refl)
  | inr later ↦
      rw (fails q (All-Memᴰ (Apart q) p qs later apart)) (first-only test p qs later h passes fails)
]

named :
    (p : Preamble) (l : List Preamble) → Memᴰ p l → IsUnambiguous l → (p.name ≢ "") × (p.alias ≢ "")
named p [] m h = absurd (Memᴰ.not-nil m)
named p (q ∷ qs) m (name, alias, _, h) = elim (Memᴰ.cases_cons m) [
  | inl same ↦ rw same (name, alias)
  | inr later ↦ named p qs later h
]

-- Where no two entities of a type share an id, a name or an alias, and none has an empty one, each
-- is found by its name and by its alias, with its id, and by its id, with its name and its alias.
pub get_id-get_name :
    (info : P4Info) (entity_type : EntityType) (p : Preamble)
    → Memᴰ p (preambles info entity_type)
    → IsUnambiguous (preambles info entity_type)
    → (get_id info entity_type p.name ≡ ok p.id)
      × (get_id info entity_type p.alias ≡ ok p.id)
      × (get_name info entity_type p.id ≡ ok p.name)
      × (get_alias info entity_type p.id ≡ ok p.alias)
unfolding get_id get_name get_alias get
get_id-get_name info entity_type p m h =
    let l = preambles info entity_type in
    let (name, alias) = named p l m h in
    let by_name =
      first-only (λ q. q.name == p.name || q.alias == p.name) p l m h (rw (beq_refl p.name) refl)
        (λ q apart.
          rw (beq_ne q.name p.name apart.names) (beq_ne q.alias p.name apart.alias_name)) in
    let by_alias =
      first-only (λ q. q.name == p.alias || q.alias == p.alias) p l m h
        (ground (arith, beq_refl p.alias))
        (λ q apart.
          rw (beq_ne q.name p.alias apart.name_alias) (beq_ne q.alias p.alias apart.aliases)) in
    let by_id =
      first-only (λ q. q.id == p.id) p l m h (beq_refl p.id)
        (λ q apart. beq_ne q.id p.id apart.ids) in
    (
      rw (beq_ne p.name "" name) (rw by_name refl),
      rw (beq_ne p.alias "" alias) (rw by_alias refl),
      rw by_id refl,
      rw by_id refl,
    )

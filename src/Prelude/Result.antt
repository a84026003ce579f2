-- ===== src/Prelude/Result.antt =====
-- Python's exceptions, and calls that may raise and change nothing.
use Prim.Native.String.{String}
use mathlib.Core.Path.{◌≡◌, refl}
use mathlib.Core.Option.{Option}
use mathlib.Core.Logic.{◌⊎◌, inl, inr}

-- The exceptions that the modelled code raises or lets through; the two with a key and a message are
-- those of trans_sec/exceptions.py. `error` is one of a called library,
-- with its `str(e)`.
pub data Exception : Type 0 where
  value_error type_error key_error index_error attribute_error : Exception
  syntax_error assertion_error stop_iteration : Exception
  not_found_error already_exists_error : Option String → String → Exception
  error : String → Exception

pub data Result {ℓ} (A : Type ℓ) : Type ℓ where
  ok : A → Result A
  err : Exception → Result A

pub Result-cases {ℓ} :
    {A : Type ℓ} → (r : Result A) → ((e : Exception) × (r ≡ err e)) ⊎ ((a : A) × (r ≡ ok a))
Result-cases (err e) = inl (e, refl)
Result-cases (ok a) = inr (a, refl)

module _ {ℓ κ} {A : Type ℓ} {B : Type κ} where
  infixl 10 ◌>>=◌ ◌>>◌
  abbrev pub ◌>>=◌ : Result A → (A → Result B) → Result B
  err e >>= f = err e
  ok a >>= f = f a

  abbrev pub ◌>>◌ : Result A → Result B → Result B
  m >> n = m >>= λ _. n

  -- A call that returns behind another one: both return.
  pub >>=-eq-ok :
      (m : Result A) (k : A → Result B) {last : B}
      → (m >>= k) ≡ ok last
      → (first : A) × (m ≡ ok first) × (k first ≡ ok last)
  >>=-eq-ok (err e) k returns = cc
  >>=-eq-ok (ok first) k returns = (first, refl, returns)

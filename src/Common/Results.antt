-- ===== src/Common/Results.antt =====
-- The exceptions that the modelled code raises, and computations that may raise one.
use Prim.Native.Nat.{ℕ}
use Prim.Native.String.{String}
use mathlib.Core.Path.{◌≡◌, refl}
use mathlib.Core.Logic.{◌⊎◌, inl, inr}
use mathlib.Core.Bool.{Bool, true, false}
use mathlib.Core.Option.{Option, none, some}

pub data Error : Type 0 where
  -- `ValueError` of `load_tiers`, a constructor for each message
  invalid_json not_array : Error
  not_object : ℕ → Error
  missing_field : ℕ → String → Error
  bad_capacity : ℕ → Error
  -- `OverflowError` of `int` and `ceil` at an infinity, `ZeroDivisionError`, `IndexError`
  overflow zero_division index_error : Error
  -- `ValueError` of `max` over an empty set
  empty_max : Error
  -- an exception of a system outside, with its text
  outside : String → Error

-- A computation of Python: the exception that ends it, or what it returns.
pub data Outcome {ℓ} (A : Type ℓ) : Type ℓ where
  raises : Error → Outcome A
  returns : A → Outcome A

module _ {ℓ κ} {A : Type ℓ} {B : Type κ} where
  infixl 5 ◌>>=◌ ◌>>◌
  abbrev pub ◌>>=◌ : Outcome A → (A → Outcome B) → Outcome B
  raises exc >>= next = raises exc
  returns value >>= next = next value

  abbrev pub ◌>>◌ : Outcome A → Outcome B → Outcome B
  first >> second = first >>= λ _. second

  -- A sequence that returns got a value from its first part.
  pub >>=-eq-returns :
      (first : Outcome A) (next : A → Outcome B) {b : B}
      → (first >>= next) ≡ returns b
      → (a : A) × (first ≡ returns a) × (next a ≡ returns b)
  >>=-eq-returns (raises exc) next h = cc
  >>=-eq-returns (returns a) next h = (a, refl, h)

-- `raise` under a test, and the value that a `try` block hands on.
abbrev pub raise_if : Bool → Error → Outcome (Unit {0})
raise_if b exc = elim b [ true ↦ raises exc | false ↦ returns tt ]

module _ {ℓ} {A : Type ℓ} where
  abbrev pub or_raise : Option A → Error → Outcome A
  or_raise o exc = elim o [ none ↦ raises exc | some value ↦ returns value ]

  pub returns-injective : {a b : A} → returns a ≡ returns b → a ≡ b
  returns-injective h = cc

  pub Outcome-cases :
      (m : Outcome A) → ((exc : Error) × (m ≡ raises exc)) ⊎ ((value : A) × (m ≡ returns value))
  Outcome-cases (raises exc) = inl (exc, refl)
  Outcome-cases (returns value) = inr (value, refl)

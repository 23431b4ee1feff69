-- ===== src/Axeos/Errors.antt =====
-- axeos/errors.py: the errors of the device boundary, with the built-in exceptions beside them that
-- the code raises and catches; a fallible function returns a `Result`.
use bitaxe_fleet.Prelude.{ℕ, ◌≡◌, refl, Bool, true, false, Option, none, some, ◌++◌}
use bitaxe_fleet.Python.Text.{Text, codes}
use mathlib.Core.Path.{subst}

-- An operation is named by the text that the source passes, such as "system info".
pub data Error : Type 0 where
  connection : Text → Error
  http : Text → ℕ → Error
  authentication : Text → ℕ → Error
  invalid_endpoint : Error
  invalid_response : Text → Text → Error
  timeout : Text → Error
  unsupported : Text → ℕ → Error
  mutation_uncertain : Text → Error
  value_error overflow_error key_error : Error

-- `except AxeOSError`
abbrev pub is_axeos_error : Error → Bool
is_axeos_error value_error = false
is_axeos_error overflow_error = false
is_axeos_error key_error = false
is_axeos_error _ = true

-- `except AxeOSError, ValueError`
abbrev pub is_axeos_or_value_error : Error → Bool
is_axeos_or_value_error overflow_error = false
is_axeos_or_value_error key_error = false
is_axeos_or_value_error _ = true

pub data Result {ℓ} (A : Type ℓ) : Type ℓ where
  err : Error → Result A
  ok : A → Result A

-- An exception passes by everything that follows.
infixl 5 ◌>>=◌ ◌>>◌
abbrev pub ◌>>=◌ {ℓ κ} : {A : Type ℓ} {B : Type κ} → Result A → (A → Result B) → Result B
err raised >>= next = err raised
ok value >>= next = next value

abbrev pub ◌>>◌ {ℓ} : {B : Type ℓ} → Result (Unit {0}) → Result B → Result B
check >> next = check >>= λ _. next

-- `if test: raise error`
abbrev pub raise_if : Bool → Error → Result (Unit {0})
raise_if true e = err e
raise_if false e = ok tt

abbrev pub or_raise {ℓ} : {A : Type ℓ} → Option A → Error → Result A
or_raise none e = err e
or_raise (some a) e = ok a

-- f"invalid {key} field", f"missing {key} field"
pub invalid_field : Text → Text
invalid_field key = codes "invalid " ++ key ++ codes " field"

pub missing_field : Text → Text
missing_field key = codes "missing " ++ key ++ codes " field"

-- Inversion of a successful chain.
pub >>=-eq-ok {ℓ κ} :
    {V : Type ℓ} {W : Type κ} (first : Result V) (next : V → Result W) {result : W}
    → (first >>= next) ≡ ok result
    → (v : V) × (first ≡ ok v) × (next v ≡ ok result)
>>=-eq-ok (err raised) next returned = cc
>>=-eq-ok (ok v) next returned = (v, refl, returned)

pub raise_if-eq-ok : (b : Bool) (e : Error) {u : Unit {0}} → raise_if b e ≡ ok u → b ≡ false
raise_if-eq-ok true e h = cc
raise_if-eq-ok false e h = refl

pub ok-injective {ℓ} : {A : Type ℓ} {a b : A} → ok a ≡ ok b → a ≡ b
ok-injective h = cc

-- What holds of the value that a fallible step returns, carried through a chain.
pub record Ensures {ℓ κ} {A : Type ℓ} (P : A → Type κ) (r : Result A) : Type (ℓ ⊔ κ) where
  pub of_ok : (a : A) → r ≡ ok a → P a

pub Ensures-bind {ℓ κ μ ν} :
    {A : Type ℓ} {B : Type κ} {P : A → Type μ} {Q : B → Type ν} {m : Result A} {f : A → Result B}
    → Ensures P m
    → ((a : A) → P a → Ensures Q (f a))
    → Ensures Q (m >>= f)
Ensures-bind {m} {f} h k = record {
  of_ok =
      λ b e. let (a, returned, rest) = >>=-eq-ok m f e in (k a (h.of_ok a returned)).of_ok b rest;
}

pub Ensures-ok {ℓ κ} : {A : Type ℓ} {P : A → Type κ} (a : A) → P a → Ensures P (ok a)
Ensures-ok {P} a p = record { of_ok = λ b e. subst P (ok-injective e) p }

-- ===== src/Axeos/Parser/Fields/Ranges.antt =====
-- About the bounds of what the readers of numbers return.
use bitaxe_fleet.Prelude.{
  ◌≡◌, Bool, true, false, ◌&&◌, Option, none, some, arith, if◌then◌else◌, ℤ, pos, negsuc, ◌≤ℤ◌,
}
use mathlib.Core.Path.{subst}
use bitaxe_fleet.Python.Text.{Text, strip}
use bitaxe_fleet.Python.Float.{Float, is_finite, float_lt, float_le, float_eq, of_ℤ, float_of_int}
use bitaxe_fleet.Python.Value.{Value, null, int, float, str}
use bitaxe_fleet.Python.Dict.{Dict}
use bitaxe_fleet.Python.Library.{Library}
use bitaxe_fleet.Axeos.Errors.{ok, ◌>>=◌, ◌>>◌, or_raise, >>=-eq-ok}
use bitaxe_fleet.Axeos.Parser.MinerId.{system_info_operation}
use bitaxe_fleet.Axeos.Parser.Fields.{
  get, validate_number_range, parse_number, finite_or_raise, read_number, optional_number, read_int,
  whole_in_range, optional_int, read_temperature, optional_temperature,
}

abbrev pub AtMost : Option ℤ → Float → Type 0
AtMost none x = Unit
AtMost (some hi) x = float_le x (of_ℤ hi) ≡ true

-- A number that is absent, or finite and within the bounds.
abbrev pub NumberIn : ℤ → Option ℤ → Option Float → Type 0
NumberIn lo hi none = Unit
NumberIn lo hi (some x) = (is_finite x ≡ true) × (float_le (of_ℤ lo) x ≡ true) × AtMost hi x

abbrev pub AtMostInt : Option ℤ → ℤ → Type 0
AtMostInt none n = Unit
AtMostInt (some hi) n = n ≤ℤ hi

-- A whole number that is absent or within the bounds.
abbrev pub IntIn : ℤ → Option ℤ → Option ℤ → Type 0
IntIn lo hi none = Unit
IntIn lo hi (some n) = (lo ≤ℤ n) × AtMostInt hi n

abbrev bound : Option ℤ → Option Float
bound none = none
bound (some n) = some (of_ℤ n)

absent_of {ℓ} : {A : Type ℓ} {o : Option A} → ok none ≡ ok o → none ≡ o
absent_of h = cc

not_below :
    (x : Float) (lo : ℤ)
    → is_finite x ≡ true
    → float_lt x (of_ℤ lo) ≡ false
    → float_le (of_ℤ lo) x ≡ true
unfolding float_lt float_le of_ℤ
not_below x lo h k = ground arith

not_above :
    (x : Float) (hi : ℤ)
    → is_finite x ≡ true
    → float_lt (of_ℤ hi) x ≡ false
    → float_le x (of_ℤ hi) ≡ true
unfolding float_lt float_le of_ℤ
not_above x hi h k = ground arith

finite_or_raise-finite :
    (lib : Library) (x : Float) (key operation : Text) {y : Float}
    → finite_or_raise lib x key operation ≡ ok y
    → is_finite y ≡ true
unfolding finite_or_raise
finite_or_raise-finite lib x key operation h = ground arith

module _ (lib : Library) (key operation : Text) where
  pub parse_number-finite :
      (v : Value) {y : Float} → parse_number lib v key operation ≡ ok y → is_finite y ≡ true
  unfolding parse_number
  parse_number-finite (int n) h =
      let (x, _, e) = >>=-eq-ok (or_raise (float_of_int n) _) _ h in
      finite_or_raise-finite lib x key operation e
  parse_number-finite (float x) h = finite_or_raise-finite lib x key operation h
  parse_number-finite (str s) h =
      let (x, _, e) = >>=-eq-ok (or_raise (lib.float_of_text (strip s)) _) _ h in
      finite_or_raise-finite lib x key operation e
  parse_number-finite _ h = cc

  pub validate_number_range-NumberIn :
      (x : Float) (lo : ℤ) (hi : Option ℤ) {u : Unit {0}}
      → is_finite x ≡ true
      → validate_number_range x key operation (some (of_ℤ lo)) (bound hi) ≡ ok u
      → NumberIn lo hi (some x)
  unfolding validate_number_range
  validate_number_range-NumberIn x lo none h e = (h, ground (arith, not_below x lo h), tt)
  validate_number_range-NumberIn x lo (some hi) h e =
      (h, ground (arith, not_below x lo h), ground (arith, not_above x hi h))

  -- The two steps behind `value is None`.
  parsed-NumberIn :
      (v : Value) (lo : ℤ) (hi : Option ℤ) {o : Option Float}
      → (parse_number lib v key operation >>= λ x.
          validate_number_range x key operation (some (of_ℤ lo)) (bound hi) >> ok (some x))
        ≡ ok o
      → NumberIn lo hi o
  parsed-NumberIn v lo hi {o} h =
      let (x, parsed, e) = >>=-eq-ok (parse_number lib v key operation) _ h in
      let (u, valid, same) =
        >>=-eq-ok (validate_number_range x key operation (some (of_ℤ lo)) (bound hi)) _ e in
      let q : some x ≡ o = cc in
      subst (NumberIn lo hi) q
        (validate_number_range-NumberIn x lo hi (parse_number-finite v parsed) valid)

  read_number-NumberIn :
      (v : Value) (lo : ℤ) (hi : Option ℤ) {o : Option Float}
      → read_number lib v key operation (some (of_ℤ lo)) (bound hi) ≡ ok o
      → NumberIn lo hi o
  unfolding read_number
  read_number-NumberIn null lo hi h = subst (NumberIn lo hi) (absent_of h) tt
  read_number-NumberIn v lo hi h = parsed-NumberIn v lo hi h

  whole_in_range-IntIn :
      (x : Float) (lo : ℤ) (hi : Option ℤ) {o : Option ℤ}
      → whole_in_range lib x key operation (some lo) hi ≡ ok o
      → IntIn lo hi o
  unfolding whole_in_range
  whole_in_range-IntIn x lo none h = ground arith
  whole_in_range-IntIn x lo (some hi) h = ground arith

  read_int-IntIn :
      (v : Value) (lo : ℤ) (hi : Option ℤ) {o : Option ℤ}
      → read_int lib v key operation (some lo) hi ≡ ok o
      → IntIn lo hi o
  unfolding read_int
  read_int-IntIn null lo hi h = subst (IntIn lo hi) (absent_of h) tt
  read_int-IntIn v lo hi h =
      let (x, _, e) = >>=-eq-ok (parse_number lib v key operation) _ h in
      whole_in_range-IntIn x lo hi e

module _ (lib : Library) (info : Dict Value) (key operation : Text) where
  -- What `_optional_number` returns is absent, or finite and within its bounds.
  pub optional_number-NumberIn :
      (lo hi : ℤ) {o : Option Float}
      → optional_number lib info key operation (some (of_ℤ lo)) (some (of_ℤ hi)) ≡ ok o
      → NumberIn lo (some hi) o
  unfolding optional_number
  optional_number-NumberIn lo hi h =
      read_number-NumberIn lib key operation (get key info) lo (some hi) h

  pub optional_number-NumberIn_least :
      (lo : ℤ) {o : Option Float}
      → optional_number lib info key operation (some (of_ℤ lo)) none ≡ ok o
      → NumberIn lo none o
  unfolding optional_number
  optional_number-NumberIn_least lo h =
      read_number-NumberIn lib key operation (get key info) lo none h

  pub optional_int-IntIn :
      (lo : ℤ) (hi : Option ℤ) {o : Option ℤ}
      → optional_int lib info key operation (some lo) hi ≡ ok o
      → IntIn lo hi o
  unfolding optional_int
  optional_int-IntIn lo hi h = read_int-IntIn lib key operation (get key info) lo hi h

read_temperature-NumberIn :
    (lib : Library) (v : Value) (key : Text) (sentinel : Bool) {o : Option Float}
    → read_temperature lib v key sentinel ≡ ok o
    → NumberIn (pos 0) (some (pos 200)) o
unfolding read_temperature
read_temperature-NumberIn lib null key sentinel h =
    subst (NumberIn (pos 0) (some (pos 200))) (absent_of h) tt
read_temperature-NumberIn lib v key sentinel h =
    let (x, parsed, e) = >>=-eq-ok (parse_number lib v key system_info_operation) _ h in
    go x (parse_number-finite lib key system_info_operation v parsed)
      (sentinel && float_eq x (of_ℤ (negsuc 0))) e
  where
    go :
        (x : Float) {o : Option Float}
        → is_finite x ≡ true
        → (b : Bool)
        → (if b
            then ok none
            else (validate_number_range x key system_info_operation
                  (some (of_ℤ (pos 0)))
                  (some (of_ℤ (pos 200)))
                >> ok (some x)))
          ≡ ok o
        → NumberIn (pos 0) (some (pos 200)) o
    go x f true e = subst (NumberIn (pos 0) (some (pos 200))) (absent_of e) tt
    go x {o} f false e =
        let (u, valid, same) =
          >>=-eq-ok
            (validate_number_range x key system_info_operation (some (of_ℤ (pos 0)))
              (some (of_ℤ (pos 200))))
            (λ _. ok (some x)) e in
        let q : some x ≡ o = cc in
        subst (NumberIn (pos 0) (some (pos 200))) q (
          validate_number_range-NumberIn lib key system_info_operation x (pos 0) (some (pos 200)) f
            valid)

-- A temperature is absent or between 0 and 200.
pub optional_temperature-NumberIn :
    (lib : Library) (info : Dict Value) (key : Text) (sentinel : Bool) {o : Option Float}
    → optional_temperature lib info key sentinel ≡ ok o
    → NumberIn (pos 0) (some (pos 200)) o
unfolding optional_temperature
optional_temperature-NumberIn lib info key sentinel h =
    read_temperature-NumberIn lib (get key info) key sentinel h

-- ===== src/Axeos/Parser/Fields.antt =====
-- axeos/parser.py: the readers of single fields of an untrusted JSON object.
pub mod Ranges
use bitaxe_fleet.Prelude.{
  ℕ, ◌≡◌, refl, Bool, true, false, not, ◌&&◌, ◌||◌, Option, none, some, List, [], ◌∷◌, ◌++◌, arith,
  ltb, leb, ◌==◌, if◌then◌else◌, length, all, ℤ, pos, negsuc, ltb_ℤ, leb_ℤ, eq_ℤ,
}
use bitaxe_fleet.Python.Text.{Text, codes, text_eq, strip, is_empty}
use bitaxe_fleet.Python.Float.{
  Float, is_finite, float_lt, float_eq, of_ℤ, float_of_int, is_integer, to_int,
}
use bitaxe_fleet.Python.Value.{
  Value, null, boolean, int, float, str, array, dict, foreign, list_of, string_entries,
}
use bitaxe_fleet.Python.Dict.{Dict, lookup}
use bitaxe_fleet.Python.Library.{Library}
use bitaxe_fleet.Axeos.Errors.{
  Error, invalid_response, Result, ok, err, ◌>>=◌, ◌>>◌, raise_if, or_raise, invalid_field,
  missing_field,
}
use bitaxe_fleet.Axeos.Models.{contains_float, contains_int}
use bitaxe_fleet.Axeos.Parser.MinerId.{system_info_operation}

or_null : Option Value → Value
or_null none = null
or_null (some v) = v

-- `info.get(key)`
unfoldable pub get : Text → Dict Value → Value
unfolding lookup or_null
get key info = or_null (lookup key info)

abbrev pub invalid {ℓ} : {A : Type ℓ} → Text → Text → Result A
invalid key operation = err (invalid_response operation (invalid_field key))

-- `_as_string_keyed_mapping`
unfoldable pub as_string_keyed_mapping : Value → Text → Result (Dict Value)
as_string_keyed_mapping (dict fs) operation =
    or_raise (string_entries fs) (invalid_response operation (codes "expected string keys"))
as_string_keyed_mapping _ operation =
    err (invalid_response operation (codes "expected a JSON object"))

-- `_validate_number_range`: a bound may be `None`
below : Option Float → Float → Bool
below none x = false
below (some minimum) x = float_lt x minimum

above : Option Float → Float → Bool
above none x = false
above (some maximum) x = float_lt maximum x

pub validate_number_range : Float → Text → Text → Option Float → Option Float → Result (Unit {0})
unfolding below above
validate_number_range x key operation minimum maximum =
    raise_if (below minimum x || above maximum x) (invalid_response operation (invalid_field key))

int_below : Option ℤ → ℤ → Bool
int_below none n = false
int_below (some minimum) n = ltb_ℤ n minimum

int_above : Option ℤ → ℤ → Bool
int_above none n = false
int_above (some maximum) n = ltb_ℤ maximum n

-- `_optional_bool`
pub read_bool : Value → Text → Text → Result (Option Bool)
read_bool null key operation = ok none
read_bool (boolean b) key operation = ok (some b)
read_bool (int n) key operation =
    if eq_ℤ n (pos 0)
    then ok (some false)
    else if eq_ℤ n (pos 1)
    then ok (some true)
    else invalid key operation
read_bool (float x) key operation =
    if float_eq x (of_ℤ (pos 0))
    then ok (some false)
    else if float_eq x (of_ℤ (pos 1))
    then ok (some true)
    else invalid key operation
read_bool (str s) key operation =
    if text_eq (strip s) (codes "0")
    then ok (some false)
    else if text_eq (strip s) (codes "1")
    then ok (some true)
    else invalid key operation
read_bool _ key operation = invalid key operation

unfoldable pub optional_bool : Dict Value → Text → Text → Result (Option Bool)
unfolding read_bool
optional_bool info key operation = read_bool (get key info) key operation

module _ (lib : Library) where
  -- `_optional_text`
  pub read_text : Value → Text → Text → Result (Option Text)
  read_text null key operation = ok none
  read_text (str s) key operation =
      if is_empty (strip s)
      then ok none
      else if ltb 128 (length (strip s)) || not (all lib.printable (strip s))
      then invalid key operation
      else ok (some (strip s))
  read_text _ key operation = invalid key operation

  unfoldable pub optional_text : Dict Value → Text → Text → Result (Option Text)
  unfolding read_text
  optional_text info key operation = read_text (get key info) key operation

  -- `_required_text`
  unfoldable pub required_text : Dict Value → Text → Text → Result Text
  required_text info key operation = optional_text info key operation >>= λ value.
      or_raise value (invalid_response operation (missing_field key))

  -- `_parse_number`
  finite_or_raise : Float → Text → Text → Result Float
  finite_or_raise x key operation = if not (is_finite x) then invalid key operation else ok x

  unfoldable pub parse_number : Value → Text → Text → Result Float
  unfolding finite_or_raise
  parse_number (int n) key operation =
      or_raise (float_of_int n) (invalid_response operation (invalid_field key)) >>= λ x.
      finite_or_raise x key operation
  parse_number (float x) key operation = finite_or_raise x key operation
  parse_number (str s) key operation =
      or_raise (lib.float_of_text (strip s)) (invalid_response operation (invalid_field key))
      >>= λ x. finite_or_raise x key operation
  parse_number _ key operation = invalid key operation

  -- `_optional_number`
  pub read_number : Value → Text → Text → Option Float → Option Float → Result (Option Float)
  read_number null key operation minimum maximum = ok none
  read_number v key operation minimum maximum = do
    x ← parse_number v key operation
    validate_number_range x key operation minimum maximum
    ok (some x)

  unfoldable pub optional_number :
      Dict Value → Text → Text → Option Float → Option Float → Result (Option Float)
  unfolding read_number parse_number validate_number_range
  optional_number info key operation minimum maximum =
      read_number (get key info) key operation minimum maximum

  -- `_optional_int`
  pub whole_in_range : Float → Text → Text → Option ℤ → Option ℤ → Result (Option ℤ)
  unfolding int_below int_above
  whole_in_range x key operation minimum maximum =
      if not (is_integer x)
      then invalid key operation
      else if int_below minimum (to_int x) || int_above maximum (to_int x)
      then invalid key operation
      else ok (some (to_int x))

  pub read_int : Value → Text → Text → Option ℤ → Option ℤ → Result (Option ℤ)
  read_int null key operation minimum maximum = ok none
  read_int v key operation minimum maximum =
      parse_number v key operation >>= λ x. whole_in_range x key operation minimum maximum

  unfoldable pub optional_int : Dict Value → Text → Text → Option ℤ → Option ℤ → Result (Option ℤ)
  unfolding read_int whole_in_range parse_number
  optional_int info key operation minimum maximum =
      read_int (get key info) key operation minimum maximum

  -- `_required_int`, which is called for fields of system info only
  unfoldable pub required_int : Dict Value → Text → ℤ → Result ℤ
  required_int info key minimum =
      optional_int info key system_info_operation (some minimum) none >>= λ value.
      or_raise value (invalid_response system_info_operation (missing_field key))

  -- `_optional_temperature`: -1 stands for a missing sensor where `missing_sentinel` says so
  pub read_temperature : Value → Text → Bool → Result (Option Float)
  read_temperature null key missing_sentinel = ok none
  read_temperature v key missing_sentinel = parse_number v key system_info_operation >>= λ x.
      if missing_sentinel && float_eq x (of_ℤ (negsuc 0)) then ok none else (do
        validate_number_range x key system_info_operation (some (of_ℤ (pos 0)))
            (some (of_ℤ (pos 200)))
        ok (some x))

  unfoldable pub optional_temperature : Dict Value → Text → Bool → Result (Option Float)
  unfolding read_temperature parse_number validate_number_range
  optional_temperature info key missing_sentinel =
      read_temperature (get key info) key missing_sentinel

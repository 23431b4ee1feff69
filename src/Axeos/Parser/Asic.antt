-- ===== src/Axeos/Parser/Asic.antt =====
-- axeos/parser.py: `parse_system_asic` and the readers of capability lists.
pub mod Options
pub mod Tests
use bitaxe_fleet.Prelude.{
  Bool, false, ◌&&◌, ◌||◌, not, Option, none, some, List, [], ◌∷◌, ◌++◌, ℤ, pos, leb_ℤ,
}
use bitaxe_fleet.Python.Text.{Text, codes}
use bitaxe_fleet.Python.Float.{Float, of_ℤ, is_integer, to_int}
use bitaxe_fleet.Python.Value.{Value, null, array, Items, nil, cons}
use bitaxe_fleet.Python.Dict.{Dict}
use bitaxe_fleet.Python.Library.{Library}
use bitaxe_fleet.Axeos.Errors.{invalid_response, Result, ok, ◌>>=◌, ◌>>◌, raise_if, invalid_field}
use bitaxe_fleet.Axeos.Models.{AsicCapabilities, contains_float, contains_int}
use bitaxe_fleet.Axeos.Parser.Fields.{
  get, invalid, as_string_keyed_mapping, optional_text, required_text, optional_number,
  optional_int, parse_number, validate_number_range,
}

abbrev pub system_asic_operation : Text
system_asic_operation = codes "system ASIC"

module _ (lib : Library) (key : Text) where
  -- the loop of `_optional_number_tuple`: `values` holds what was read so far
  pub read_numbers : Float → Float → Items → List Float → Result (List Float)
  read_numbers minimum maximum nil values = ok values
  read_numbers minimum maximum (cons item rest) values = do
    number ← parse_number lib item key system_asic_operation
    validate_number_range number key system_asic_operation (some minimum) (some maximum)
    raise_if (contains_float number values)
        (invalid_response system_asic_operation (invalid_field key))
    read_numbers minimum maximum rest (values ++ number ∷ [])

  pub number_tuple : Float → Float → Value → Result (Option (List Float))
  unfolding read_numbers
  number_tuple minimum maximum null = ok none
  number_tuple minimum maximum (array (cons item rest)) =
      read_numbers minimum maximum (cons item rest) [] >>= λ values. ok (some values)
  number_tuple minimum maximum _ = invalid key system_asic_operation

  -- the loop of `_optional_int_tuple`
  pub read_ints : ℤ → ℤ → Items → List ℤ → Result (List ℤ)
  read_ints minimum maximum nil values = ok values
  read_ints minimum maximum (cons item rest) values = do
    number ← parse_number lib item key system_asic_operation
    raise_if (not (is_integer number)) (invalid_response system_asic_operation (invalid_field key))
    raise_if
        (not (leb_ℤ minimum (to_int number) && leb_ℤ (to_int number) maximum)
          || contains_int (to_int number) values)
        (invalid_response system_asic_operation (invalid_field key))
    read_ints minimum maximum rest (values ++ to_int number ∷ [])

  pub int_tuple : ℤ → ℤ → Value → Result (Option (List ℤ))
  unfolding read_ints
  int_tuple minimum maximum null = ok none
  int_tuple minimum maximum (array (cons item rest)) =
      read_ints minimum maximum (cons item rest) [] >>= λ values. ok (some values)
  int_tuple minimum maximum _ = invalid key system_asic_operation

-- `options is not None and (default is not None and default not in options)`
pub foreign_number : Option (List Float) → Option Float → Bool
foreign_number (some options) (some default) = not (contains_float default options)
foreign_number _ _ = false

pub foreign_int : Option (List ℤ) → Option ℤ → Bool
foreign_int (some options) (some default) = not (contains_int default options)
foreign_int _ _ = false

module _ (lib : Library) where
  -- `_optional_number_tuple`, `_optional_int_tuple`
  pub optional_number_tuple : Dict Value → Text → Float → Float → Result (Option (List Float))
  unfolding number_tuple
  optional_number_tuple asic key minimum maximum =
      number_tuple lib key minimum maximum (get key asic)

  pub optional_int_tuple : Dict Value → Text → ℤ → ℤ → Result (Option (List ℤ))
  unfolding int_tuple
  optional_int_tuple asic key minimum maximum = int_tuple lib key minimum maximum (get key asic)

  pub parse_system_asic : Value → Result AsicCapabilities
  parse_system_asic payload = do
    asic ← as_string_keyed_mapping payload system_asic_operation
    asic_model ← required_text lib asic (codes "ASICModel") system_asic_operation
    frequency_options ←
        optional_number_tuple asic (codes "frequencyOptions") (of_ℤ (pos 1)) (of_ℤ (pos 10000))
    voltage_options ← optional_int_tuple asic (codes "voltageOptions") (pos 1) (pos 10000)
    default_frequency ←
        optional_number lib asic (codes "defaultFrequency") system_asic_operation
          (some (of_ℤ (pos 1))) (some (of_ℤ (pos 10000)))
    default_voltage ←
        optional_int lib asic (codes "defaultVoltage") system_asic_operation (some (pos 1))
          (some (pos 10000))
    raise_if (foreign_number frequency_options default_frequency)
        (invalid_response system_asic_operation (codes "invalid defaultFrequency field"))
    raise_if (foreign_int voltage_options default_voltage)
        (invalid_response system_asic_operation (codes "invalid defaultVoltage field"))
    device_model ← optional_text lib asic (codes "deviceModel") system_asic_operation
    swarm_color ← optional_text lib asic (codes "swarmColor") system_asic_operation
    asic_count ←
        optional_int lib asic (codes "asicCount") system_asic_operation (some (pos 0))
          (some (pos 256))
    ok (record {
      asic_model = asic_model;
      device_model = device_model;
      swarm_color = swarm_color;
      asic_count = asic_count;
      default_frequency_mhz = default_frequency;
      frequency_options_mhz = frequency_options;
      default_voltage_mv = default_voltage;
      voltage_options_mv = voltage_options;
    })

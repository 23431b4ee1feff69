-- ===== src/Axeos/Parser/Asic/Tests.antt =====
-- A capability payload, and the theorem of its parser at it.
use bitaxe_fleet.Prelude.{◌≡◌, refl, none, some, [], ◌∷◌, pos, all}
use bitaxe_fleet.Python.Text.{codes, text_eq, strip}
use bitaxe_fleet.Python.Dict.{lookup}
use bitaxe_fleet.Python.Float.{float_of_int, of_ℤ, scale, unit, to_int, is_integer}
use bitaxe_fleet.Axeos.Parser.Fields.{
  as_string_keyed_mapping, required_text, optional_text, get, parse_number, optional_number,
  optional_int,
}
use bitaxe_fleet.Python.Value.{
  string_entries, Value, int, str, array, dict, name, field, end, cons, nil,
}
use bitaxe_fleet.Python.Tests.{plain_library}
use bitaxe_fleet.Axeos.Errors.{ok}
use bitaxe_fleet.Axeos.Models.{AsicCapabilities, contains_int}
use bitaxe_fleet.Axeos.Parser.Asic.{
  parse_system_asic, optional_number_tuple, optional_int_tuple, number_tuple, int_tuple, read_ints,
  foreign_int, foreign_number,
}
use bitaxe_fleet.Axeos.Parser.Asic.Options.{
  IsValidCapabilities, parse_system_asic-IsValidCapabilities,
}

abbrev asic_payload : Value
asic_payload = dict (
    field (name (codes "ASICModel")) (str (codes "BM1370")) (
      field (name (codes "voltageOptions"))
        (array (cons (int (pos 1100)) (cons (int (pos 1150)) nil)))
        (field (name (codes "defaultVoltage")) (int (pos 1150)) end)))

abbrev capabilities : AsicCapabilities
capabilities = record {
  asic_model = codes "BM1370";
  device_model = none;
  swarm_color = none;
  asic_count = none;
  default_frequency_mhz = none;
  frequency_options_mhz = none;
  default_voltage_mv = some (pos 1150);
  voltage_options_mv = some (pos 1100 ∷ pos 1150 ∷ []);
}

asic_parsed : parse_system_asic plain_library asic_payload ≡ ok capabilities
unfolding parse_system_asic as_string_keyed_mapping string_entries required_text optional_text get
    text_eq strip all optional_number_tuple optional_int_tuple parse_number float_of_int of_ℤ scale
    unit to_int is_integer contains_int optional_number optional_int lookup number_tuple int_tuple
    read_ints foreign_int foreign_number
asic_parsed = refl

parse_system_asic-IsValidCapabilities_example : IsValidCapabilities capabilities
parse_system_asic-IsValidCapabilities_example =
    parse_system_asic-IsValidCapabilities plain_library asic_payload asic_parsed

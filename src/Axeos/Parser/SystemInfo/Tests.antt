-- ===== src/Axeos/Parser/SystemInfo/Tests.antt =====
-- A payload of AxeOS, and the theorems of the parser and of its models at concrete inputs.
use bitaxe_fleet.Prelude.{
  ℕ, ◌≡◌, ◌+◌, ◌*◌, ◌^◌, refl, true, false, none, some, arith, pos, inr, all, keep,
}
use bitaxe_fleet.Python.Text.{Text, codes, strip, text_eq, lower_char}
use bitaxe_fleet.Python.Float.{of_ℤ, scale, float_le, unit}
use bitaxe_fleet.Python.Value.{Value, str, dict, name, field, end, string_entries}
use bitaxe_fleet.Python.Tests.{plain_library}
use bitaxe_fleet.Axeos.Errors.{ok}
use bitaxe_fleet.Axeos.Models.{
  MinerEndpoint, MinerSnapshot, RecoveryProfile, default_policy, IsBoundedPolicy, IsBoundedProfile,
}
use bitaxe_fleet.Axeos.Parser.Address.RoundTrip.{IsPrivate}
use bitaxe_fleet.Axeos.Parser.MinerId.{normalize_miner_id}
use bitaxe_fleet.Axeos.Parser.MinerId.Canonical.{IsMac, normalize_miner_id-IsMac}
use bitaxe_fleet.Python.Dict.{lookup}
use bitaxe_fleet.Axeos.Parser.Fields.{
  as_string_keyed_mapping, optional_text, get, optional_number, optional_temperature, optional_int,
  optional_bool,
}
use bitaxe_fleet.Axeos.Parser.SystemInfo.{
  parse_system_info, parse_identity, parse_telemetry, optional_share_rejection_reasons,
  parse_configuration, parse_health, optional_hostname, firmware_version_or, hostname_or_none,
  read_rejection_reasons,
}
use bitaxe_fleet.Axeos.Parser.SystemInfo.Bounds.{IsValidSnapshot, parse_system_info-IsValidSnapshot}

abbrev gateway : ℕ
gateway = 192 * 2 ^ 24 + 168 * 2 ^ 16 + 10

abbrev pub endpoint : MinerEndpoint
endpoint = record { host = gateway; port = 80 }

abbrev payload : Value
payload = dict (
    field (name (codes "ASICModel")) (str (codes "BM1370"))
      (field (name (codes "macAddr")) (str (codes "A4-CF-12-00-00-01")) end))

abbrev pub miner_a : Text
miner_a = codes "a4:cf:12:00:00:01"

abbrev pub bare_snapshot : MinerSnapshot
bare_snapshot = record {
  endpoint = endpoint;
  identity = record {
    miner_id = miner_a;
    hostname = none;
    asic_model = some (codes "BM1370");
    board_version = none;
    firmware_version = none;
  };
  telemetry = record {
    hashrate_gh_s = none;
    power_w = none;
    temperature_c = none;
    hashrate_1m_gh_s = none;
    hashrate_10m_gh_s = none;
    hashrate_1h_gh_s = none;
    expected_hashrate_gh_s = none;
    error_percentage = none;
    input_voltage_mv = none;
    current_ma = none;
    core_voltage_actual_mv = none;
    actual_frequency_mhz = none;
    secondary_temperature_c = none;
    vr_temperature_c = none;
    fan_speed_percent = none;
    fan_rpm = none;
    fan_2_rpm = none;
    shares_accepted = none;
    shares_rejected = none;
    share_rejection_reasons = none;
    best_difficulty = none;
    best_session_difficulty = none;
    pool_difficulty = none;
    pool_response_time_ms = none;
    wifi_rssi_dbm = none;
    uptime_seconds = none;
    block_height = none;
    network_difficulty = none;
    blocks_found = none;
  };
  observed_at = 7;
  configuration = record {
    frequency_mhz = none;
    core_voltage_mv = none;
    overclock_enabled = none;
    automatic_fan_speed = none;
    target_temperature_c = none;
    minimum_fan_speed_percent = none;
    manual_fan_speed_percent = none;
  };
  health = record {
    mining_paused = none;
    using_fallback_pool = none;
    overheat_mode = none;
    power_fault = none;
    hardware_fault = none;
    reset_reason = none;
    wifi_status = none;
  };
}

parsed : parse_system_info plain_library payload endpoint 7 ≡ ok bare_snapshot
unfolding parse_system_info as_string_keyed_mapping string_entries optional_text get text_eq strip
    all parse_identity normalize_miner_id keep lower_char parse_telemetry optional_number
    optional_temperature optional_int optional_share_rejection_reasons parse_configuration
    optional_bool parse_health optional_hostname firmware_version_or hostname_or_none
    read_rejection_reasons lookup
parsed = refl

pub normalized : normalize_miner_id (str (codes "A4-CF-12-00-00-01")) ≡ ok miner_a
unfolding normalize_miner_id keep strip all text_eq lower_char
normalized = refl

pub gateway-IsPrivate : IsPrivate gateway
gateway-IsPrivate = inr (inr (omega arith, omega arith))

pub default_policy-IsBounded : IsBoundedPolicy default_policy
default_policy-IsBounded = record {
  grace_high = omega arith;
  unhealthy_low = omega arith;
  unhealthy_high = omega arith;
  cooldown_high = omega arith;
  attempts_low = omega arith;
  attempts_high = omega arith;
  window_low = omega arith;
  window_high = omega arith;
  restart_low = omega arith;
  restart_high = omega arith;
  verification_low = omega arith;
  verification_high = omega arith;
}

parse_system_info-IsValidSnapshot_example : IsValidSnapshot bare_snapshot
parse_system_info-IsValidSnapshot_example =
    parse_system_info-IsValidSnapshot plain_library payload endpoint 7 parsed

normalize_miner_id-IsMac_example : IsMac miner_a
normalize_miner_id-IsMac_example =
    normalize_miner_id-IsMac (str (codes "A4-CF-12-00-00-01")) normalized

abbrev pub profile : RecoveryProfile
profile = record {
  frequency_mhz = of_ℤ (pos 525);
  core_voltage_mv = pos 1150;
  overclock_enabled = false;
  automatic_fan_speed = true;
  target_temperature_c = pos 60;
  minimum_fan_speed_percent = pos 25;
}

profile-IsBounded : IsBoundedProfile profile
unfolding of_ℤ scale float_le unit
profile-IsBounded = record {
  is_number = refl;
  frequency_low = refl;
  frequency_high = refl;
  voltage_low = omega arith;
  voltage_high = omega arith;
  temperature_low = omega arith;
  temperature_high = omega arith;
  fan_low = omega arith;
  fan_high = omega arith;
}

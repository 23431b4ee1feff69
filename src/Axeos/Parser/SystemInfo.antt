-- ===== src/Axeos/Parser/SystemInfo.antt =====
-- axeos/parser.py: `parse_system_info`, in the order in which the source reads the fields.
pub mod Bounds
pub mod Rejections
pub mod Tests
use bitaxe_fleet.Prelude.{
  ℕ, Bool, true, false, ◌&&◌, not, Option, none, some, List, [], ◌∷◌, ◌-◌, leb, ◌||◌, ◌==◌,
  if◌then◌else◌, length, all, ℤ, pos, negsuc,
}
use bitaxe_fleet.Python.Text.{Text, codes}
use bitaxe_fleet.Python.Float.{Float, of_ℤ}
use bitaxe_fleet.Python.Value.{
  Value, null, boolean, int, float, str, array, dict, foreign, Items, nil, cons,
}
use bitaxe_fleet.Python.Dict.{Dict}
use bitaxe_fleet.Python.Library.{Library}
use bitaxe_fleet.Axeos.Errors.{
  Error, invalid_response, Result, ok, err, ◌>>=◌, or_raise, invalid_field,
}
use bitaxe_fleet.Axeos.Models.{
  Time, MinerEndpoint, MinerIdentity, ShareRejectionReason, MinerTelemetry, MinerConfiguration,
  MinerHealth, MinerSnapshot,
}
use bitaxe_fleet.Axeos.Parser.MinerId.{normalize_miner_id, system_info_operation}
use bitaxe_fleet.Axeos.Parser.Fields.{
  get, invalid, as_string_keyed_mapping, optional_text, required_text, optional_number,
  optional_int, required_int, optional_bool, optional_temperature,
}

-- `_HOSTNAME_PATTERN.fullmatch`
alphanumeric : ℕ → Bool
alphanumeric c = (leb 48 c && leb c 57) || (leb 65 c && leb c 90) || (leb 97 c && leb c 122)

unfoldable pub is_hostname : Text → Bool
unfolding alphanumeric
is_hostname [] = false
is_hostname (c ∷ s) =
    alphanumeric c && all (λ d. alphanumeric d || d == 46 || d == 45) s && leb (length s) 62

abbrev op : Text
op = system_info_operation

abbrev at_least : ℤ → Option Float
at_least n = some (of_ℤ n)

module _ (lib : Library) where
  -- `_optional_hostname`
  hostname_or_none : Option Text → Option Text
  hostname_or_none none = none
  hostname_or_none (some h) = if is_hostname h then some h else none

  pub optional_hostname : Dict Value → Result (Option Text)
  unfolding hostname_or_none
  optional_hostname info =
      optional_text lib info (codes "hostname") op >>= λ h. ok (hostname_or_none h)

  -- one item of `_optional_share_rejection_reasons`
  rejection_reason : Value → Result ShareRejectionReason
  rejection_reason item = do
    reason ← as_string_keyed_mapping item op
    message ← required_text lib reason (codes "message") op
    count ← required_int lib reason (codes "count") (pos 0)
    ok (record { message = message; count = count })

  rejection_reasons : Items → Result (List ShareRejectionReason)
  unfolding rejection_reason
  rejection_reasons nil = ok []
  rejection_reasons (cons item rest) = do
    reason ← rejection_reason item
    reasons ← rejection_reasons rest
    ok (reason ∷ reasons)

  read_rejection_reasons : Value → Result (Option (List ShareRejectionReason))
  unfolding rejection_reasons
  read_rejection_reasons null = ok none
  read_rejection_reasons (array items) = rejection_reasons items >>= λ reasons. ok (some reasons)
  read_rejection_reasons _ = invalid (codes "sharesRejectedReasons") op

  pub optional_share_rejection_reasons : Dict Value → Result (Option (List ShareRejectionReason))
  unfolding read_rejection_reasons
  optional_share_rejection_reasons info =
      read_rejection_reasons (get (codes "sharesRejectedReasons") info)

  -- `version or axeOSVersion`
  firmware_version_or : Option Text → Dict Value → Result (Option Text)
  firmware_version_or (some v) info = ok (some v)
  firmware_version_or none info = optional_text lib info (codes "axeOSVersion") op

  pub parse_identity : Dict Value → Text → Result MinerIdentity
  unfolding optional_hostname firmware_version_or
  parse_identity info asic_model = do
    miner_id ← normalize_miner_id (get (codes "macAddr") info)
    hostname ← optional_hostname info
    board_version ← optional_text lib info (codes "boardVersion") op
    version ← optional_text lib info (codes "version") op
    firmware_version ← firmware_version_or version info
    ok (record {
      miner_id = miner_id;
      hostname = hostname;
      asic_model = some asic_model;
      board_version = board_version;
      firmware_version = firmware_version;
    })

  -- `_optional_number(info, key, _SYSTEM_INFO_OPERATION, minimum=0.0)`, and with `maximum=100.0`
  abbrev pub number : Dict Value → Text → Result (Option Float)
  number info key = optional_number lib info key op (at_least (pos 0)) none

  abbrev pub percentage : Dict Value → Text → Result (Option Float)
  percentage info key = optional_number lib info key op (at_least (pos 0)) (some (of_ℤ (pos 100)))

  -- `_optional_int(info, key, _SYSTEM_INFO_OPERATION, minimum=0)`
  abbrev pub counter : Dict Value → Text → Result (Option ℤ)
  counter info key = optional_int lib info key op (some (pos 0)) none

  pub parse_telemetry : Dict Value → Result MinerTelemetry
  parse_telemetry info = do
    hashrate ← number info (codes "hashRate")
    power ← number info (codes "power")
    temperature ← optional_temperature lib info (codes "temp") false
    hashrate_1m ← number info (codes "hashRate_1m")
    hashrate_10m ← number info (codes "hashRate_10m")
    hashrate_1h ← number info (codes "hashRate_1h")
    expected ← number info (codes "expectedHashrate")
    error_rate ← percentage info (codes "errorPercentage")
    voltage ← number info (codes "voltage")
    current ← number info (codes "current")
    core_voltage ← number info (codes "coreVoltageActual")
    frequency ←
        optional_number lib info (codes "actualFrequency") op (at_least (pos 0))
          (some (of_ℤ (pos 10000)))
    secondary ← optional_temperature lib info (codes "temp2") true
    vr ← optional_temperature lib info (codes "vrTemp") true
    fan ← percentage info (codes "fanspeed")
    rpm ← counter info (codes "fanrpm")
    rpm_2 ← counter info (codes "fan2rpm")
    accepted ← counter info (codes "sharesAccepted")
    rejected ← counter info (codes "sharesRejected")
    reasons ← optional_share_rejection_reasons info
    best ← number info (codes "bestDiff")
    best_session ← number info (codes "bestSessionDiff")
    pool ← number info (codes "poolDifficulty")
    response ← number info (codes "responseTime")
    rssi ← optional_int lib info (codes "wifiRSSI") op (some (negsuc 199)) (some (pos 0))
    uptime ← counter info (codes "uptimeSeconds")
    height ← counter info (codes "blockHeight")
    network ← number info (codes "networkDifficulty")
    blocks ← counter info (codes "blockFound")
    ok (record {
      hashrate_gh_s = hashrate;
      power_w = power;
      temperature_c = temperature;
      hashrate_1m_gh_s = hashrate_1m;
      hashrate_10m_gh_s = hashrate_10m;
      hashrate_1h_gh_s = hashrate_1h;
      expected_hashrate_gh_s = expected;
      error_percentage = error_rate;
      input_voltage_mv = voltage;
      current_ma = current;
      core_voltage_actual_mv = core_voltage;
      actual_frequency_mhz = frequency;
      secondary_temperature_c = secondary;
      vr_temperature_c = vr;
      fan_speed_percent = fan;
      fan_rpm = rpm;
      fan_2_rpm = rpm_2;
      shares_accepted = accepted;
      shares_rejected = rejected;
      share_rejection_reasons = reasons;
      best_difficulty = best;
      best_session_difficulty = best_session;
      pool_difficulty = pool;
      pool_response_time_ms = response;
      wifi_rssi_dbm = rssi;
      uptime_seconds = uptime;
      block_height = height;
      network_difficulty = network;
      blocks_found = blocks;
    })

  -- `_optional_int(..., minimum=0, maximum=100)`
  abbrev pub whole_percentage : Dict Value → Text → Result (Option ℤ)
  whole_percentage info key = optional_int lib info key op (some (pos 0)) (some (pos 100))

  pub parse_configuration : Dict Value → Result MinerConfiguration
  parse_configuration info = do
    frequency ←
        optional_number lib info (codes "frequency") op (at_least (pos 1)) (some (of_ℤ (pos 10000)))
    voltage ← optional_int lib info (codes "coreVoltage") op (some (pos 1)) (some (pos 10000))
    overclock ← optional_bool info (codes "overclockEnabled") op
    fan ← optional_bool info (codes "autofanspeed") op
    target ← whole_percentage info (codes "temptarget")
    minimum ← whole_percentage info (codes "minFanSpeed")
    manual ← whole_percentage info (codes "manualFanSpeed")
    ok (record {
      frequency_mhz = frequency;
      core_voltage_mv = voltage;
      overclock_enabled = overclock;
      automatic_fan_speed = fan;
      target_temperature_c = target;
      minimum_fan_speed_percent = minimum;
      manual_fan_speed_percent = manual;
    })

  pub parse_health : Dict Value → Result MinerHealth
  parse_health info = do
    paused ← optional_bool info (codes "miningPaused") op
    fallback ← optional_bool info (codes "isUsingFallbackStratum") op
    overheat ← optional_int lib info (codes "overheat_mode") op (some (pos 0)) (some (pos 255))
    power_fault ← optional_text lib info (codes "power_fault") op
    hardware_fault ← optional_text lib info (codes "hardware_fault") op
    reset_reason ← optional_text lib info (codes "resetReason") op
    wifi_status ← optional_text lib info (codes "wifiStatus") op
    ok (record {
      mining_paused = paused;
      using_fallback_pool = fallback;
      overheat_mode = overheat;
      power_fault = power_fault;
      hardware_fault = hardware_fault;
      reset_reason = reset_reason;
      wifi_status = wifi_status;
    })

  -- `now` is `datetime.now(UTC)`.
  pub parse_system_info : Value → MinerEndpoint → Time → Result MinerSnapshot
  parse_system_info payload endpoint now = do
    info ← as_string_keyed_mapping payload op
    model ← optional_text lib info (codes "ASICModel") op
    asic_model ← or_raise model (invalid_response op (codes "missing AxeOS identity fields"))
    identity ← parse_identity info asic_model
    telemetry ← parse_telemetry info
    configuration ← parse_configuration info
    health ← parse_health info
    ok (record {
      endpoint = endpoint;
      identity = identity;
      telemetry = telemetry;
      observed_at = now;
      configuration = configuration;
      health = health;
    })

-- ===== src/Axeos/Parser/SystemInfo/Bounds.antt =====
-- About the bounds of a parsed snapshot.
use bitaxe_fleet.Prelude.{◌≡◌, refl, Bool, true, false, Option, none, some, [], ℤ, pos, negsuc}
use bitaxe_fleet.Python.Text.{Text, codes}
use bitaxe_fleet.Python.Float.{Float, of_ℤ}
use bitaxe_fleet.Python.Value.{Value}
use bitaxe_fleet.Python.Dict.{Dict}
use bitaxe_fleet.Python.Library.{Library}
use bitaxe_fleet.Axeos.Errors.{
  Result, ok, Ensures, Ensures-bind, Ensures-ok, or_raise, invalid_response,
}
use bitaxe_fleet.Axeos.Models.{
  Time, MinerEndpoint, MinerTelemetry, MinerConfiguration, MinerHealth, MinerSnapshot,
  IsBoundedProfile, complete, to_recovery_profile, RecoveryProfile,
}
use bitaxe_fleet.Axeos.Parser.Fields.{
  optional_number, optional_int, optional_bool, optional_temperature, optional_text,
  as_string_keyed_mapping, get,
}
use bitaxe_fleet.Axeos.Parser.Fields.Ranges.{
  NumberIn, IntIn, optional_number-NumberIn, optional_number-NumberIn_least, optional_int-IntIn,
  optional_temperature-NumberIn,
}
use bitaxe_fleet.Axeos.Parser.SystemInfo.{
  op, number, counter, parse_telemetry, parse_configuration, parse_health, parse_system_info,
  parse_identity, optional_hostname, firmware_version_or,
}
use bitaxe_fleet.Axeos.Parser.SystemInfo.Rejections.{
  HasCounts, optional_share_rejection_reasons-HasCounts,
}
use bitaxe_fleet.Axeos.Parser.MinerId.Canonical.{IsMac, normalize_miner_id-IsMac}
use bitaxe_fleet.Axeos.Models.Bounds.{recovery_profile_accepts}

pub record IsBoundedConfiguration (c : MinerConfiguration) : Type 0 where
  pub frequency : NumberIn (pos 1) (some (pos 10000)) c.frequency_mhz
  pub voltage : IntIn (pos 1) (some (pos 10000)) c.core_voltage_mv
  pub target : IntIn (pos 0) (some (pos 100)) c.target_temperature_c
  pub minimum : IntIn (pos 0) (some (pos 100)) c.minimum_fan_speed_percent
  pub manual : IntIn (pos 0) (some (pos 100)) c.manual_fan_speed_percent

pub record IsBoundedTelemetry (t : MinerTelemetry) : Type 0 where
  pub hashrate_gh_s_in : NumberIn (pos 0) none t.hashrate_gh_s
  pub power_w_in : NumberIn (pos 0) none t.power_w
  pub temperature_c_in : NumberIn (pos 0) (some (pos 200)) t.temperature_c
  pub hashrate_1m_gh_s_in : NumberIn (pos 0) none t.hashrate_1m_gh_s
  pub hashrate_10m_gh_s_in : NumberIn (pos 0) none t.hashrate_10m_gh_s
  pub hashrate_1h_gh_s_in : NumberIn (pos 0) none t.hashrate_1h_gh_s
  pub expected_hashrate_gh_s_in : NumberIn (pos 0) none t.expected_hashrate_gh_s
  pub error_percentage_in : NumberIn (pos 0) (some (pos 100)) t.error_percentage
  pub input_voltage_mv_in : NumberIn (pos 0) none t.input_voltage_mv
  pub current_ma_in : NumberIn (pos 0) none t.current_ma
  pub core_voltage_actual_mv_in : NumberIn (pos 0) none t.core_voltage_actual_mv
  pub actual_frequency_mhz_in : NumberIn (pos 0) (some (pos 10000)) t.actual_frequency_mhz
  pub secondary_temperature_c_in : NumberIn (pos 0) (some (pos 200)) t.secondary_temperature_c
  pub vr_temperature_c_in : NumberIn (pos 0) (some (pos 200)) t.vr_temperature_c
  pub fan_speed_percent_in : NumberIn (pos 0) (some (pos 100)) t.fan_speed_percent
  pub fan_rpm_in : IntIn (pos 0) none t.fan_rpm
  pub fan_2_rpm_in : IntIn (pos 0) none t.fan_2_rpm
  pub shares_accepted_in : IntIn (pos 0) none t.shares_accepted
  pub shares_rejected_in : IntIn (pos 0) none t.shares_rejected
  pub share_rejection_reasons_in : HasCounts t.share_rejection_reasons
  pub best_difficulty_in : NumberIn (pos 0) none t.best_difficulty
  pub best_session_difficulty_in : NumberIn (pos 0) none t.best_session_difficulty
  pub pool_difficulty_in : NumberIn (pos 0) none t.pool_difficulty
  pub pool_response_time_ms_in : NumberIn (pos 0) none t.pool_response_time_ms
  pub wifi_rssi_dbm_in : IntIn (negsuc 199) (some (pos 0)) t.wifi_rssi_dbm
  pub uptime_seconds_in : IntIn (pos 0) none t.uptime_seconds
  pub block_height_in : IntIn (pos 0) none t.block_height
  pub network_difficulty_in : NumberIn (pos 0) none t.network_difficulty
  pub blocks_found_in : IntIn (pos 0) none t.blocks_found

pub record IsBoundedHealth (h : MinerHealth) : Type 0 where
  pub overheat_in : IntIn (pos 0) (some (pos 255)) h.overheat_mode

-- What the rest of the integration relies on in a parsed snapshot.
pub record IsValidSnapshot (s : MinerSnapshot) : Type 0 where
  pub identified : IsMac s.identity.miner_id
  pub telemetry_bounds : IsBoundedTelemetry s.telemetry
  pub configuration_bounds : IsBoundedConfiguration s.configuration
  pub health_bounds : IsBoundedHealth s.health

module _ (lib : Library) (info : Dict Value) where
  in_range :
      (key : Text) (lo hi : ℤ)
      → Ensures
          (NumberIn lo (some hi))
          (optional_number lib info key op (some (of_ℤ lo)) (some (of_ℤ hi)))
  in_range key lo hi = record { of_ok = λ o. optional_number-NumberIn lib info key op lo hi }

  whole_in :
      (key : Text) (lo : ℤ) (hi : Option ℤ)
      → Ensures (IntIn lo hi) (optional_int lib info key op (some lo) hi)
  whole_in key lo hi = record { of_ok = λ o. optional_int-IntIn lib info key op lo hi }

  any : {A : Type 0} (r : Result A) → Ensures (λ _. Unit {0}) r
  any r = record { of_ok = λ _ _. tt }

  parse_configuration-IsBounded : Ensures IsBoundedConfiguration (parse_configuration lib info)
  unfolding parse_configuration
  parse_configuration-IsBounded =
      Ensures-bind (in_range (codes "frequency") (pos 1) (pos 10000)) λ f hf.
        Ensures-bind (whole_in (codes "coreVoltage") (pos 1) (some (pos 10000))) λ v hv.
          Ensures-bind (any (optional_bool info (codes "overclockEnabled") op)) λ o _.
            Ensures-bind (any (optional_bool info (codes "autofanspeed") op)) λ a _.
              Ensures-bind (whole_in (codes "temptarget") (pos 0) (some (pos 100))) λ t ht.
                Ensures-bind (whole_in (codes "minFanSpeed") (pos 0) (some (pos 100))) λ m hm.
                  Ensures-bind (whole_in (codes "manualFanSpeed") (pos 0) (some (pos 100))) λ n hn.
                    Ensures-ok _ (record {
                      frequency = hf;
                      voltage = hv;
                      target = ht;
                      minimum = hm;
                      manual = hn;
                    })

  least : (key : Text) → Ensures (NumberIn (pos 0) none) (number lib info key)
  least key = record { of_ok = λ o. optional_number-NumberIn_least lib info key op (pos 0) }

  counted : (key : Text) → Ensures (IntIn (pos 0) none) (counter lib info key)
  counted key = whole_in key (pos 0) none

  warm :
      (key : Text) (sentinel : Bool)
      → Ensures (NumberIn (pos 0) (some (pos 200))) (optional_temperature lib info key sentinel)
  warm key sentinel = record { of_ok = λ o. optional_temperature-NumberIn lib info key sentinel }

  parse_telemetry-IsBounded : Ensures IsBoundedTelemetry (parse_telemetry lib info)
  unfolding parse_telemetry
  parse_telemetry-IsBounded = Ensures-bind (least (codes "hashRate")) λ _ h0.
      Ensures-bind (least (codes "power")) λ _ h1. Ensures-bind (warm (codes "temp") false) λ _ h2.
        Ensures-bind (least (codes "hashRate_1m")) λ _ h3.
          Ensures-bind (least (codes "hashRate_10m")) λ _ h4.
            Ensures-bind (least (codes "hashRate_1h")) λ _ h5.
              Ensures-bind (least (codes "expectedHashrate")) λ _ h6.
                Ensures-bind (in_range (codes "errorPercentage") (pos 0) (pos 100)) λ _ h7.
                  Ensures-bind (least (codes "voltage")) λ _ h8.
                    Ensures-bind (least (codes "current")) λ _ h9.
                      Ensures-bind (least (codes "coreVoltageActual")) λ _ h10.
                        Ensures-bind (in_range (codes "actualFrequency") (pos 0) (pos 10000))
                          λ _ h11. Ensures-bind (warm (codes "temp2") true) λ _ h12.
                            Ensures-bind (warm (codes "vrTemp") true) λ _ h13.
                              Ensures-bind (in_range (codes "fanspeed") (pos 0) (pos 100)) λ _ h14.
                                Ensures-bind (counted (codes "fanrpm")) λ _ h15.
                                  Ensures-bind (counted (codes "fan2rpm")) λ _ h16.
                                    Ensures-bind (counted (codes "sharesAccepted")) λ _ h17.
                                      Ensures-bind (counted (codes "sharesRejected")) λ _ h18.
                                        Ensures-bind
                                          (optional_share_rejection_reasons-HasCounts lib info)
                                          λ _ h19. Ensures-bind (least (codes "bestDiff")) λ _ h20.
                                            Ensures-bind (least (codes "bestSessionDiff")) λ _ h21.
                                              Ensures-bind (least (codes "poolDifficulty")) λ _ h22.
                                                Ensures-bind (least (codes "responseTime")) λ _ h23.
                                                  Ensures-bind
                                                    (whole_in (codes "wifiRSSI") (negsuc 199)
                                                      (some (pos 0)))
                                                    λ _ h24.
                                                      Ensures-bind (counted (codes "uptimeSeconds"))
                                                        λ _ h25.
                                                          Ensures-bind
                                                            (counted (codes "blockHeight"))
                                                            λ _ h26.
                                                            Ensures-bind
                                                            (least (codes "networkDifficulty"))
                                                            λ _ h27.
                                                            Ensures-bind
                                                            (counted (codes "blockFound"))
                                                            λ _ h28. Ensures-ok _ (record {
                                                            hashrate_gh_s_in = h0;
                                                            power_w_in = h1;
                                                            temperature_c_in = h2;
                                                            hashrate_1m_gh_s_in = h3;
                                                            hashrate_10m_gh_s_in = h4;
                                                            hashrate_1h_gh_s_in = h5;
                                                            expected_hashrate_gh_s_in = h6;
                                                            error_percentage_in = h7;
                                                            input_voltage_mv_in = h8;
                                                            current_ma_in = h9;
                                                            core_voltage_actual_mv_in = h10;
                                                            actual_frequency_mhz_in = h11;
                                                            secondary_temperature_c_in = h12;
                                                            vr_temperature_c_in = h13;
                                                            fan_speed_percent_in = h14;
                                                            fan_rpm_in = h15;
                                                            fan_2_rpm_in = h16;
                                                            shares_accepted_in = h17;
                                                            shares_rejected_in = h18;
                                                            share_rejection_reasons_in = h19;
                                                            best_difficulty_in = h20;
                                                            best_session_difficulty_in = h21;
                                                            pool_difficulty_in = h22;
                                                            pool_response_time_ms_in = h23;
                                                            wifi_rssi_dbm_in = h24;
                                                            uptime_seconds_in = h25;
                                                            block_height_in = h26;
                                                            network_difficulty_in = h27;
                                                            blocks_found_in = h28;
                                                            })

  parse_health-IsBounded : Ensures IsBoundedHealth (parse_health lib info)
  unfolding parse_health
  parse_health-IsBounded = Ensures-bind (any (optional_bool info (codes "miningPaused") op)) λ _ _.
      Ensures-bind (any (optional_bool info (codes "isUsingFallbackStratum") op)) λ _ _.
        Ensures-bind (whole_in (codes "overheat_mode") (pos 0) (some (pos 255))) λ _ h.
          Ensures-bind (any (optional_text lib info (codes "power_fault") op)) λ _ _.
            Ensures-bind (any (optional_text lib info (codes "hardware_fault") op)) λ _ _.
              Ensures-bind (any (optional_text lib info (codes "resetReason") op)) λ _ _.
                Ensures-bind (any (optional_text lib info (codes "wifiStatus") op))
                  λ _ _. Ensures-ok _ (record { overheat_in = h })

  parse_identity-IsMac :
      (model : Text) → Ensures (λ i. IsMac i.miner_id) (parse_identity lib info model)
  unfolding parse_identity
  parse_identity-IsMac model =
      Ensures-bind (record { of_ok = λ m. normalize_miner_id-IsMac (get (codes "macAddr") info) })
        λ _ mac. Ensures-bind (any (optional_hostname lib info)) λ _ _.
          Ensures-bind (any (optional_text lib info (codes "boardVersion") op)) λ _ _.
            Ensures-bind (any (optional_text lib info (codes "version") op)) λ version _.
              Ensures-bind (any (firmware_version_or lib version info)) λ _ _. Ensures-ok _ mac

parsed-IsValidSnapshot :
    (lib : Library) (payload : Value) (endpoint : MinerEndpoint) (now : Time)
    → Ensures IsValidSnapshot (parse_system_info lib payload endpoint now)
unfolding parse_system_info
parsed-IsValidSnapshot lib payload endpoint now =
    Ensures-bind (any lib [] (as_string_keyed_mapping payload op)) λ info _.
      Ensures-bind (any lib info (optional_text lib info (codes "ASICModel") op)) λ model _.
        Ensures-bind
          (any lib info
            (or_raise model (invalid_response op (codes "missing AxeOS identity fields"))))
          λ asic _. Ensures-bind (parse_identity-IsMac lib info asic) λ _ mac.
            Ensures-bind (parse_telemetry-IsBounded lib info) λ _ t.
              Ensures-bind (parse_configuration-IsBounded lib info) λ _ c.
                Ensures-bind (parse_health-IsBounded lib info) λ _ health. Ensures-ok _ (record {
                  identified = mac;
                  telemetry_bounds = t;
                  configuration_bounds = c;
                  health_bounds = health;
                })

-- A payload that parses gives a snapshot with a normal miner id, and every number of it is absent or
-- finite and within the range that the parser passes for its field.
pub parse_system_info-IsValidSnapshot :
    (lib : Library) (payload : Value) (endpoint : MinerEndpoint) (now : Time) {s : MinerSnapshot}
    → parse_system_info lib payload endpoint now ≡ ok s
    → IsValidSnapshot s
parse_system_info-IsValidSnapshot lib payload endpoint now {s} h =
    (parsed-IsValidSnapshot lib payload endpoint now).of_ok s h

profile_of :
    (f : Float) (v t m : ℤ) (o a : Bool)
    → NumberIn (pos 1) (some (pos 10000)) (some f)
    → IntIn (pos 1) (some (pos 10000)) (some v)
    → IntIn (pos 0) (some (pos 100)) (some t)
    → IntIn (pos 0) (some (pos 100)) (some m)
    → IsBoundedProfile (record {
      frequency_mhz = f;
      core_voltage_mv = v;
      overclock_enabled = o;
      automatic_fan_speed = a;
      target_temperature_c = t;
      minimum_fan_speed_percent = m;
    })
profile_of f v t m o a hf hv ht hm = record {
  is_number = hf.0;
  frequency_low = hf.1;
  frequency_high = hf.2;
  voltage_low = hv.0;
  voltage_high = hv.1;
  temperature_low = ht.0;
  temperature_high = ht.1;
  fan_low = hm.0;
  fan_high = hm.1;
}

complete_total :
    (f : Option Float) (v : Option ℤ) (o a : Option Bool) (t m : Option ℤ)
    → NumberIn (pos 1) (some (pos 10000)) f
    → IntIn (pos 1) (some (pos 10000)) v
    → IntIn (pos 0) (some (pos 100)) t
    → IntIn (pos 0) (some (pos 100)) m
    → (p : Option RecoveryProfile) × (complete f v o a t m ≡ ok p)
unfolding complete
complete_total (some f) (some v) (some o) (some a) (some t) (some m) hf hv ht hm =
    let p : RecoveryProfile = record {
      frequency_mhz = f;
      core_voltage_mv = v;
      overclock_enabled = o;
      automatic_fan_speed = a;
      target_temperature_c = t;
      minimum_fan_speed_percent = m;
    } in
    let accepted = recovery_profile_accepts p (profile_of f v t m o a hf hv ht hm) in
    (some p, rw accepted)
complete_total _ _ _ _ _ _ hf hv ht hm = (none, refl)

-- Taking the recovery profile of a parsed configuration never raises: the parser's ranges lie within
-- those of the profile's constructor.
pub to_recovery_profile_total :
    (c : MinerConfiguration)
    → IsBoundedConfiguration c
    → (p : Option RecoveryProfile) × (to_recovery_profile c ≡ ok p)
unfolding to_recovery_profile
to_recovery_profile_total c h =
    complete_total c.frequency_mhz c.core_voltage_mv c.overclock_enabled c.automatic_fan_speed
      c.target_temperature_c c.minimum_fan_speed_percent h.frequency h.voltage h.target h.minimum

-- ===== src/Axeos/Models.antt =====
-- axeos/models.py: the immutable domain records. Timestamps are whole microseconds since the
-- earliest `datetime`; a `MinerId` is its text; an IPv4 address is its 32-bit number.
pub mod Profile
pub mod Policy
pub mod Bounds
pub mod Equality
unfoldable pub use Profile.*
unfoldable pub use Policy.*
use bitaxe_fleet.Prelude.{
  ℕ, ◌≡◌, refl, Bool, true, false, Option, none, some, List, [], ◌∷◌, ◌&&◌, ◌||◌, ◌*◌, ℤ, eq_ℤ,
}
use bitaxe_fleet.Python.Text.{Text}
use bitaxe_fleet.Python.Float.{Float, float_eq}
use bitaxe_fleet.Python.Value.{int, float, boolean}
use bitaxe_fleet.Axeos.Errors.{Result, ok, ◌>>=◌}

abbrev pub MinerId : Type 0
MinerId = Text

abbrev pub Time : Type 0
Time = ℕ

-- `timedelta(seconds=n)`
abbrev pub seconds : ℕ → ℕ
seconds n = n * 1000000

abbrev pub default_http_port : ℕ
default_http_port = 80

pub record MinerEndpoint : Type 0 where
  pub host : ℕ
  pub port : ℕ

pub record MinerIdentity : Type 0 where
  pub miner_id : MinerId
  pub hostname : Option Text
  pub asic_model : Option Text
  pub board_version : Option Text
  pub firmware_version : Option Text

pub record ShareRejectionReason : Type 0 where
  pub message : Text
  pub count : ℤ

pub record MinerTelemetry : Type 0 where
  pub hashrate_gh_s : Option Float
  pub power_w : Option Float
  pub temperature_c : Option Float
  pub hashrate_1m_gh_s : Option Float
  pub hashrate_10m_gh_s : Option Float
  pub hashrate_1h_gh_s : Option Float
  pub expected_hashrate_gh_s : Option Float
  pub error_percentage : Option Float
  pub input_voltage_mv : Option Float
  pub current_ma : Option Float
  pub core_voltage_actual_mv : Option Float
  pub actual_frequency_mhz : Option Float
  pub secondary_temperature_c : Option Float
  pub vr_temperature_c : Option Float
  pub fan_speed_percent : Option Float
  pub fan_rpm : Option ℤ
  pub fan_2_rpm : Option ℤ
  pub shares_accepted : Option ℤ
  pub shares_rejected : Option ℤ
  pub share_rejection_reasons : Option (List ShareRejectionReason)
  pub best_difficulty : Option Float
  pub best_session_difficulty : Option Float
  pub pool_difficulty : Option Float
  pub pool_response_time_ms : Option Float
  pub wifi_rssi_dbm : Option ℤ
  pub uptime_seconds : Option ℤ
  pub block_height : Option ℤ
  pub network_difficulty : Option Float
  pub blocks_found : Option ℤ

pub record MinerConfiguration : Type 0 where
  pub frequency_mhz : Option Float
  pub core_voltage_mv : Option ℤ
  pub overclock_enabled : Option Bool
  pub automatic_fan_speed : Option Bool
  pub target_temperature_c : Option ℤ
  pub minimum_fan_speed_percent : Option ℤ
  pub manual_fan_speed_percent : Option ℤ

pub record MinerHealth : Type 0 where
  pub mining_paused : Option Bool
  pub using_fallback_pool : Option Bool
  pub overheat_mode : Option ℤ
  pub power_fault : Option Text
  pub hardware_fault : Option Text
  pub reset_reason : Option Text
  pub wifi_status : Option Text

pub record AsicCapabilities : Type 0 where
  pub asic_model : Text
  pub device_model : Option Text
  pub swarm_color : Option Text
  pub asic_count : Option ℤ
  pub default_frequency_mhz : Option Float
  pub frequency_options_mhz : Option (List Float)
  pub default_voltage_mv : Option ℤ
  pub voltage_options_mv : Option (List ℤ)

pub record MinerLogs : Type 0 where
  pub text : Text

pub record MinerSnapshot : Type 0 where
  pub endpoint : MinerEndpoint
  pub identity : MinerIdentity
  pub telemetry : MinerTelemetry
  pub observed_at : Time
  pub configuration : MinerConfiguration
  pub health : MinerHealth

pub record EnrolledMiner : Type 0 where
  pub endpoint : MinerEndpoint
  pub identity : MinerIdentity
  pub display_name : Option Text
  pub enabled : Bool
  pub recovery_profile : Option RecoveryProfile
  pub recovery_policy : RecoveryPolicy

-- `x in xs` of a tuple.
unfoldable pub contains_float : Float → List Float → Bool
contains_float x [] = false
contains_float x (y ∷ ys) = float_eq x y || contains_float x ys

unfoldable pub contains_int : ℤ → List ℤ → Bool
contains_int n [] = false
contains_int n (m ∷ ms) = eq_ℤ n m || contains_int n ms

supports : Option (List Float) → Option (List ℤ) → RecoveryProfile → Bool
unfolding contains_float contains_int
supports (some frequencies) (some voltages) p =
    contains_float p.frequency_mhz frequencies && contains_int p.core_voltage_mv voltages
supports _ _ p = false

-- `AsicCapabilities.supports_profile`
unfoldable pub supports_profile : AsicCapabilities → RecoveryProfile → Bool
unfolding supports
supports_profile c p = supports c.frequency_options_mhz c.voltage_options_mv p

-- Every approved setting is present, and the constructor may still raise.
unfoldable pub complete :
    Option Float
    → Option ℤ
    → Option Bool
    → Option Bool
    → Option ℤ
    → Option ℤ
    → Result (Option RecoveryProfile)
complete (some f) (some v) (some o) (some a) (some t) (some m) =
    recovery_profile (float f) (int v) (boolean o) (boolean a) (int t) (int m) >>= λ p. ok (some p)
complete _ _ _ _ _ _ = ok none

-- `MinerConfiguration.to_recovery_profile`
unfoldable pub to_recovery_profile : MinerConfiguration → Result (Option RecoveryProfile)
unfolding complete
to_recovery_profile c =
    complete c.frequency_mhz c.core_voltage_mv c.overclock_enabled c.automatic_fan_speed
      c.target_temperature_c c.minimum_fan_speed_percent

-- ===== src/Storage/Deserialize.antt =====
-- storage.py: the validation of stored documents and the migration of the first schema.
use bitaxe_fleet.Prelude.{Bool, true, false, not, Option, none, some, List, [], if◌then◌else◌, ℤ}
use bitaxe_fleet.Python.Text.{Text, codes, text_eq}
use bitaxe_fleet.Python.Float.{Float, is_finite, float_of_int}
use bitaxe_fleet.Python.Value.{Value, null, boolean, int, float, str, dict, string_entries}
use bitaxe_fleet.Python.Dict.{Dict, lookup}
use bitaxe_fleet.Axeos.Errors.{
  value_error, overflow_error, is_axeos_or_value_error, Result, ok, err, ◌>>=◌, or_raise,
}
use bitaxe_fleet.Axeos.Models.{
  EnrolledMiner, RecoveryProfile, RecoveryPolicy, default_policy, OverheatPolicy, keep_safe_values,
  restore_after_cooldown, log_only, recovery_profile, recovery_policy,
}
use bitaxe_fleet.Axeos.Parser.Fields.{get}
use bitaxe_fleet.Storage.State.{FleetIncident, IdSet}

-- `_LoadedState`
pub record LoadedState : Type 0 where
  pub miners : Dict EnrolledMiner
  pub rejected_candidates : IdSet
  pub incidents : List FleetIncident
  pub needs_migration_save : Bool

abbrev pub nothing_loaded : LoadedState
nothing_loaded = record {
  miners = [];
  rejected_candidates = [];
  incidents = [];
  needs_migration_save = false;
}

-- `_as_string_mapping`
unfoldable pub as_string_mapping : Value → Option (Dict Value)
as_string_mapping (dict fs) = string_entries fs
as_string_mapping _ = none

-- `_stored_bool` without a default, and with `default=True` for an absent key
bool_value : Value → Result Bool
bool_value (boolean b) = ok b
bool_value _ = err value_error

unfoldable pub stored_bool : Dict Value → Text → Result Bool
unfolding bool_value
stored_bool record' key = bool_value (get key record')

or_true : Option Value → Value
or_true none = boolean true
or_true (some v) = v

unfoldable pub stored_bool_or_true : Dict Value → Text → Result Bool
unfolding bool_value or_true
stored_bool_or_true record' key = bool_value (or_true (lookup key record'))

-- `_stored_int`: a `bool` is no integer here
int_value : Value → Result ℤ
int_value (int n) = ok n
int_value _ = err value_error

unfoldable pub stored_int : Dict Value → Text → Result ℤ
unfolding int_value
stored_int record' key = int_value (get key record')

-- `_stored_float`: `float(value)` of a huge integer raises an OverflowError
finite_value : Float → Result Float
finite_value x = if not (is_finite x) then err value_error else ok x

float_value : Value → Result Float
unfolding finite_value
float_value (int n) = or_raise (float_of_int n) overflow_error >>= λ x. finite_value x
float_value (float x) = finite_value x
float_value _ = err value_error

unfoldable pub stored_float : Dict Value → Text → Result Float
unfolding float_value
stored_float record' key = float_value (get key record')

-- `OverheatPolicy(value)`
unfoldable pub overheat_policy_of : Text → Result OverheatPolicy
overheat_policy_of s =
    if text_eq s (codes "keep_safe_values")
    then ok keep_safe_values
    else if text_eq s (codes "restore_after_cooldown")
    then ok restore_after_cooldown
    else if text_eq s (codes "log_only")
    then ok log_only
    else err value_error

-- `_deserialize_profile`
profile_fields : Option (Dict Value) → Result RecoveryProfile
profile_fields none = err value_error
profile_fields (some r) = do
  frequency ← stored_float r (codes "frequency_mhz")
  voltage ← stored_int r (codes "core_voltage_mv")
  overclock ← stored_bool r (codes "overclock_enabled")
  fan ← stored_bool r (codes "automatic_fan_speed")
  target ← stored_int r (codes "target_temperature_c")
  minimum ← stored_int r (codes "minimum_fan_speed_percent")
  recovery_profile (float frequency) (int voltage) (boolean overclock) (boolean fan) (int target)
      (int minimum)

unfoldable pub deserialize_profile : Value → Result (Option RecoveryProfile)
unfolding profile_fields
deserialize_profile null = ok none
deserialize_profile v = profile_fields (as_string_mapping v) >>= λ p. ok (some p)

-- `_deserialize_policy`
text_value : Value → Result Text
text_value (str s) = ok s
text_value _ = err value_error

policy_fields : Option (Dict Value) → Result RecoveryPolicy
unfolding text_value
policy_fields none = err value_error
policy_fields (some r) = do
  overheat_text ← text_value (get (codes "overheat_policy") r)
  recovery ← stored_bool r (codes "automatic_recovery_enabled")
  restore ← stored_bool r (codes "automatic_profile_restore_enabled")
  grace ← stored_int r (codes "startup_grace_seconds")
  unhealthy ← stored_int r (codes "consecutive_unhealthy_required")
  cooldown ← stored_int r (codes "cooldown_seconds")
  attempts ← stored_int r (codes "max_attempts")
  window ← stored_int r (codes "rolling_window_seconds")
  restart ← stored_int r (codes "post_restart_timeout_seconds")
  verification ← stored_int r (codes "verification_timeout_seconds")
  overheat ← overheat_policy_of overheat_text
  recovery_policy (record {
    recovery = boolean recovery;
    profile_restore = boolean restore;
    grace = int grace;
    unhealthy = int unhealthy;
    cooldown = int cooldown;
    attempts = int attempts;
    window = int window;
    restart_timeout = int restart;
    verification_timeout = int verification;
    overheat = overheat;
  })

unfoldable pub deserialize_policy : Value → Result RecoveryPolicy
unfolding policy_fields
deserialize_policy null = ok default_policy
deserialize_policy v = policy_fields (as_string_mapping v)

-- `except AxeOSError, ValueError: return None`
unfoldable pub none_on_error {ℓ} : {A : Type ℓ} → Result A → Result (Option A)
none_on_error (ok a) = ok (some a)
none_on_error (err e) = if is_axeos_or_value_error e then ok none else err e

-- ===== src/Axeos/Models/Profile.antt =====
-- axeos/models.py: `RecoveryProfile` and the validators that its constructor runs.
use bitaxe_fleet.Prelude.{
  ◌≡◌, Bool, true, not, ◌&&◌, ◌||◌, ℤ, pos, leb_ℤ, ◌≤ℤ◌, eq_ℤ, if◌then◌else◌, bool_eq,
}
use bitaxe_fleet.Python.Float.{Float, is_finite, float_le, float_eq, of_ℤ, float_of_int}
use bitaxe_fleet.Python.Value.{Value, boolean, int, float}
use bitaxe_fleet.Axeos.Errors.{value_error, Result, ok, err, ◌>>=◌, or_raise}

-- A record as its constructor leaves it.
pub record RecoveryProfile : Type 0 where
  pub frequency_mhz : Float
  pub core_voltage_mv : ℤ
  pub overclock_enabled : Bool
  pub automatic_fan_speed : Bool
  pub target_temperature_c : ℤ
  pub minimum_fan_speed_percent : ℤ

-- the checks behind `float(value)`
unfoldable pub in_profile_range : Float → Float → Float → Result Float
in_profile_range number minimum maximum =
    if not (is_finite number) || not (float_le minimum number && float_le number maximum)
    then err value_error
    else ok number

unfoldable pub validated_profile_float : Value → Float → Float → Result Float
unfolding in_profile_range
validated_profile_float (int n) minimum maximum =
    or_raise (float_of_int n) value_error >>= λ number. in_profile_range number minimum maximum
validated_profile_float (float x) minimum maximum = in_profile_range x minimum maximum
validated_profile_float _ minimum maximum = err value_error

unfoldable pub validated_profile_int : Value → ℤ → ℤ → Result ℤ
validated_profile_int (int n) minimum maximum =
    if not (leb_ℤ minimum n && leb_ℤ n maximum) then err value_error else ok n
validated_profile_int _ minimum maximum = err value_error

unfoldable pub validated_profile_bool : Value → Result Bool
validated_profile_bool (boolean b) = ok b
validated_profile_bool _ = err value_error

-- `RecoveryProfile(...)`: `__post_init__` on arguments of any type, in the order of its checks.
unfoldable pub recovery_profile :
    Value → Value → Value → Value → Value → Value → Result RecoveryProfile
recovery_profile frequency voltage overclock fan temperature speed = do
  frequency' ← validated_profile_float frequency (of_ℤ (pos 1)) (of_ℤ (pos 10000))
  voltage' ← validated_profile_int voltage (pos 1) (pos 10000)
  overclock' ← validated_profile_bool overclock
  fan' ← validated_profile_bool fan
  temperature' ← validated_profile_int temperature (pos 0) (pos 100)
  speed' ← validated_profile_int speed (pos 0) (pos 100)
  ok (record {
    frequency_mhz = frequency';
    core_voltage_mv = voltage';
    overclock_enabled = overclock';
    automatic_fan_speed = fan';
    target_temperature_c = temperature';
    minimum_fan_speed_percent = speed';
  })

-- `==` of two profiles, which a dataclass compares field by field.
unfoldable pub profile_eq : RecoveryProfile → RecoveryProfile → Bool
profile_eq p q =
    float_eq p.frequency_mhz q.frequency_mhz
    && eq_ℤ p.core_voltage_mv q.core_voltage_mv
    && bool_eq p.overclock_enabled q.overclock_enabled
    && bool_eq p.automatic_fan_speed q.automatic_fan_speed
    && eq_ℤ p.target_temperature_c q.target_temperature_c
    && eq_ℤ p.minimum_fan_speed_percent q.minimum_fan_speed_percent

-- The bounds that hold of every profile which was constructed.
pub record IsBoundedProfile (p : RecoveryProfile) : Type 0 where
  pub is_number : is_finite p.frequency_mhz ≡ true
  pub frequency_low : float_le (of_ℤ (pos 1)) p.frequency_mhz ≡ true
  pub frequency_high : float_le p.frequency_mhz (of_ℤ (pos 10000)) ≡ true
  pub voltage_low : pos 1 ≤ℤ p.core_voltage_mv
  pub voltage_high : p.core_voltage_mv ≤ℤ pos 10000
  pub temperature_low : pos 0 ≤ℤ p.target_temperature_c
  pub temperature_high : p.target_temperature_c ≤ℤ pos 100
  pub fan_low : pos 0 ≤ℤ p.minimum_fan_speed_percent
  pub fan_high : p.minimum_fan_speed_percent ≤ℤ pos 100

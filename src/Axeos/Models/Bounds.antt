-- ===== src/Axeos/Models/Bounds.antt =====
-- About the values that the constructors of profiles and policies accept.
use bitaxe_fleet.Prelude.{ℕ, ◌≡◌, ◌≤◌, true, Option, none, some, ℤ, pos, negsuc, ◌≤ℤ◌, arith}
use bitaxe_fleet.Python.Float.{Float, is_finite, float_le, of_ℤ, float_of_int}
use bitaxe_fleet.Python.Value.{Value, boolean, int, float}
use bitaxe_fleet.Axeos.Errors.{ok, ◌>>=◌, >>=-eq-ok, or_raise, value_error}
use bitaxe_fleet.Axeos.Models.Profile.{
  RecoveryProfile, IsBoundedProfile, in_profile_range, validated_profile_float,
  validated_profile_int, validated_profile_bool, recovery_profile,
}
use bitaxe_fleet.Axeos.Models.Policy.{
  RecoveryPolicy, IsBoundedPolicy, PolicyArguments, validated_policy_int, recovery_policy,
}

abbrev InRange : Float → Float → Float → Type 0
InRange a b y = (is_finite y ≡ true) × (float_le a y ≡ true) × (float_le y b ≡ true)

in_profile_range-InRange :
    (x a b : Float) {y : Float} → in_profile_range x a b ≡ ok y → InRange a b y
unfolding in_profile_range
in_profile_range-InRange x a b h = ground arith

validated_profile_float-InRange :
    (v : Value) (a b : Float) {y : Float} → validated_profile_float v a b ≡ ok y → InRange a b y
unfolding validated_profile_float
validated_profile_float-InRange (float x) a b h = in_profile_range-InRange x a b h
validated_profile_float-InRange (int n) a b h = range (float_of_int n) h
  where
    range :
        (o : Option Float) {y : Float}
        → (or_raise o value_error >>= λ x. in_profile_range x a b) ≡ ok y
        → InRange a b y
    range none e = cc
    range (some x) e = in_profile_range-InRange x a b e
validated_profile_float-InRange _ a b h = cc

validated_profile_int_range :
    (v : Value) (a b : ℤ) {n : ℤ} → validated_profile_int v a b ≡ ok n → (a ≤ℤ n) × (n ≤ℤ b)
unfolding validated_profile_int
validated_profile_int_range (int n) a b h = ground arith
validated_profile_int_range _ a b h = cc

validated_policy_int_range :
    (v : Value) (a b : ℕ) {n : ℕ} → validated_policy_int v a b ≡ ok n → (a ≤ n) × (n ≤ b)
unfolding validated_policy_int
validated_policy_int_range (int (pos n)) a b h = ground arith
validated_policy_int_range (int (negsuc n)) a b h = cc
validated_policy_int_range _ a b h = cc

-- Whatever values are passed, a policy that its constructor lets through has every field within its
-- bounds.
pub recovery_policy-IsBounded :
    (a : PolicyArguments) {p : RecoveryPolicy} → recovery_policy a ≡ ok p → IsBoundedPolicy p
unfolding recovery_policy
recovery_policy-IsBounded a h = grind (arith, validated_policy_int_range)

-- Whatever values are passed, a profile that its constructor lets through has a finite frequency from 1
-- to 10000 and each whole number within its bounds.
pub recovery_profile-IsBounded :
    (f v o a t m : Value) {p : RecoveryProfile}
    → recovery_profile f v o a t m ≡ ok p
    → IsBoundedProfile p
unfolding recovery_profile
recovery_profile-IsBounded f v o a t m h =
    let (x, read, rest) =
      >>=-eq-ok (validated_profile_float f (of_ℤ (pos 1)) (of_ℤ (pos 10000))) _ h in
    let range = validated_profile_float-InRange f (of_ℤ (pos 1)) (of_ℤ (pos 10000)) read in
    grind (arith, validated_profile_int_range, range, rest)

validated_profile_int_accepts :
    (n a b : ℤ) → a ≤ℤ n → n ≤ℤ b → validated_profile_int (int n) a b ≡ ok n
unfolding validated_profile_int
validated_profile_int_accepts n a b h k = ground arith

validated_policy_int_accepts :
    (n a b : ℕ) → a ≤ n → n ≤ b → validated_policy_int (int (pos n)) a b ≡ ok n
unfolding validated_policy_int
validated_policy_int_accepts n a b h k = ground arith

validated_profile_float_accepts :
    (x a b : Float) → InRange a b x → validated_profile_float (float x) a b ≡ ok x
unfolding validated_profile_float in_profile_range
validated_profile_float_accepts x a b h = ground arith

-- A bounded profile passes through its own constructor unchanged.
pub recovery_profile_accepts :
    (p : RecoveryProfile)
    → IsBoundedProfile p
    → recovery_profile
        (float p.frequency_mhz)
        (int p.core_voltage_mv)
        (boolean p.overclock_enabled)
        (boolean p.automatic_fan_speed)
        (int p.target_temperature_c)
        (int p.minimum_fan_speed_percent)
      ≡ ok p
unfolding recovery_profile validated_profile_bool
recovery_profile_accepts p h = rw (
  validated_profile_float_accepts p.frequency_mhz (of_ℤ (pos 1)) (of_ℤ (pos 10000))
      (h.is_number, h.frequency_low, h.frequency_high),
  validated_profile_int_accepts p.core_voltage_mv (pos 1) (pos 10000) h.voltage_low h.voltage_high,
  validated_profile_int_accepts p.target_temperature_c (pos 0) (pos 100) h.temperature_low
      h.temperature_high,
  validated_profile_int_accepts p.minimum_fan_speed_percent (pos 0) (pos 100) h.fan_low h.fan_high,
)

-- The arguments that build a policy again.
abbrev pub arguments_of : RecoveryPolicy → PolicyArguments
arguments_of p = record {
  recovery = boolean p.automatic_recovery_enabled;
  profile_restore = boolean p.automatic_profile_restore_enabled;
  grace = int (pos p.startup_grace_seconds);
  unhealthy = int (pos p.consecutive_unhealthy_required);
  cooldown = int (pos p.cooldown_seconds);
  attempts = int (pos p.max_attempts);
  window = int (pos p.rolling_window_seconds);
  restart_timeout = int (pos p.post_restart_timeout_seconds);
  verification_timeout = int (pos p.verification_timeout_seconds);
  overheat = p.overheat_policy;
}

-- A bounded policy passes through its own constructor unchanged.
pub recovery_policy_accepts :
    (p : RecoveryPolicy) → IsBoundedPolicy p → recovery_policy (arguments_of p) ≡ ok p
unfolding recovery_policy validated_profile_bool
recovery_policy_accepts p h = rw (
  validated_policy_int_accepts p.startup_grace_seconds 0 3600 (omega arith) h.grace_high,
  validated_policy_int_accepts p.consecutive_unhealthy_required 1 20 h.unhealthy_low
      h.unhealthy_high,
  validated_policy_int_accepts p.cooldown_seconds 0 86400 (omega arith) h.cooldown_high,
  validated_policy_int_accepts p.max_attempts 1 20 h.attempts_low h.attempts_high,
  validated_policy_int_accepts p.rolling_window_seconds 60 604800 h.window_low h.window_high,
  validated_policy_int_accepts p.post_restart_timeout_seconds 30 3600 h.restart_low h.restart_high,
  validated_policy_int_accepts p.verification_timeout_seconds 10 3600 h.verification_low
      h.verification_high,
)

-- ===== src/Axeos/Models/Policy.antt =====
-- axeos/models.py: `RecoveryPolicy` and its validator. Every bound is at least 0, so the whole
-- numbers of a constructed policy are naturals.
use bitaxe_fleet.Prelude.{ℕ, ◌≤◌, Bool, false, not, ◌&&◌, pos, leb, if◌then◌else◌}
use bitaxe_fleet.Python.Value.{Value, int}
use bitaxe_fleet.Axeos.Errors.{value_error, Result, ok, err, ◌>>=◌}
use bitaxe_fleet.Axeos.Models.Profile.{validated_profile_bool}

pub data OverheatPolicy : Type 0 where
  keep_safe_values restore_after_cooldown log_only : OverheatPolicy

pub record RecoveryPolicy : Type 0 where
  pub automatic_recovery_enabled : Bool
  pub automatic_profile_restore_enabled : Bool
  pub startup_grace_seconds : ℕ
  pub consecutive_unhealthy_required : ℕ
  pub cooldown_seconds : ℕ
  pub max_attempts : ℕ
  pub rolling_window_seconds : ℕ
  pub post_restart_timeout_seconds : ℕ
  pub verification_timeout_seconds : ℕ
  pub overheat_policy : OverheatPolicy

-- The defaults of the fields.
abbrev pub default_policy : RecoveryPolicy
default_policy = record {
  automatic_recovery_enabled = false;
  automatic_profile_restore_enabled = false;
  startup_grace_seconds = 180;
  consecutive_unhealthy_required = 3;
  cooldown_seconds = 600;
  max_attempts = 3;
  rolling_window_seconds = 3600;
  post_restart_timeout_seconds = 180;
  verification_timeout_seconds = 60;
  overheat_policy = keep_safe_values;
}

unfoldable pub validated_policy_int : Value → ℕ → ℕ → Result ℕ
validated_policy_int (int (pos n)) minimum maximum =
    if not (leb minimum n && leb n maximum) then err value_error else ok n
validated_policy_int _ minimum maximum = err value_error

-- The arguments of the constructor before `__post_init__`. The overheat policy is a member of the
-- enumeration at each call.
pub record PolicyArguments : Type 0 where
  pub recovery : Value
  pub profile_restore : Value
  pub grace : Value
  pub unhealthy : Value
  pub cooldown : Value
  pub attempts : Value
  pub window : Value
  pub restart_timeout : Value
  pub verification_timeout : Value
  pub overheat : OverheatPolicy

-- `RecoveryPolicy(...)`
unfoldable pub recovery_policy : PolicyArguments → Result RecoveryPolicy
recovery_policy a = do
  recovery ← validated_profile_bool a.recovery
  restore ← validated_profile_bool a.profile_restore
  grace ← validated_policy_int a.grace 0 3600
  unhealthy ← validated_policy_int a.unhealthy 1 20
  cooldown ← validated_policy_int a.cooldown 0 86400
  attempts ← validated_policy_int a.attempts 1 20
  window ← validated_policy_int a.window 60 604800
  restart ← validated_policy_int a.restart_timeout 30 3600
  verification ← validated_policy_int a.verification_timeout 10 3600
  ok (record {
    automatic_recovery_enabled = recovery;
    automatic_profile_restore_enabled = restore;
    startup_grace_seconds = grace;
    consecutive_unhealthy_required = unhealthy;
    cooldown_seconds = cooldown;
    max_attempts = attempts;
    rolling_window_seconds = window;
    post_restart_timeout_seconds = restart;
    verification_timeout_seconds = verification;
    overheat_policy = a.overheat;
  })

pub record IsBoundedPolicy (p : RecoveryPolicy) : Type 0 where
  pub grace_high : p.startup_grace_seconds ≤ 3600
  pub unhealthy_low : 1 ≤ p.consecutive_unhealthy_required
  pub unhealthy_high : p.consecutive_unhealthy_required ≤ 20
  pub cooldown_high : p.cooldown_seconds ≤ 86400
  pub attempts_low : 1 ≤ p.max_attempts
  pub attempts_high : p.max_attempts ≤ 20
  pub window_low : 60 ≤ p.rolling_window_seconds
  pub window_high : p.rolling_window_seconds ≤ 604800
  pub restart_low : 30 ≤ p.post_restart_timeout_seconds
  pub restart_high : p.post_restart_timeout_seconds ≤ 3600
  pub verification_low : 10 ≤ p.verification_timeout_seconds
  pub verification_high : p.verification_timeout_seconds ≤ 3600

-- ===== src/Axeos/Models/Equality.antt =====
-- axeos/models.py: `==` of enrolled miners, which a dataclass compares field by field.
use bitaxe_fleet.Prelude.{Bool, true, false, ◌&&◌, Option, none, some, ◌==◌, bool_eq}
use bitaxe_fleet.Python.Text.{text_eq}
use bitaxe_fleet.Axeos.Models.Profile.{profile_eq}
use bitaxe_fleet.Axeos.Models.Policy.{
  RecoveryPolicy, OverheatPolicy, keep_safe_values, restore_after_cooldown, log_only,
}
use bitaxe_fleet.Axeos.Models.{MinerEndpoint, MinerIdentity, EnrolledMiner}

abbrev pub option_eq {ℓ} : {A : Type ℓ} → (A → A → Bool) → Option A → Option A → Bool
option_eq eq none none = true
option_eq eq (some a) (some b) = eq a b
option_eq eq _ _ = false

overheat_eq : OverheatPolicy → OverheatPolicy → Bool
overheat_eq keep_safe_values keep_safe_values = true
overheat_eq restore_after_cooldown restore_after_cooldown = true
overheat_eq log_only log_only = true
overheat_eq _ _ = false

unfoldable pub policy_eq : RecoveryPolicy → RecoveryPolicy → Bool
unfolding overheat_eq
policy_eq p q =
    bool_eq p.automatic_recovery_enabled q.automatic_recovery_enabled
    && bool_eq p.automatic_profile_restore_enabled q.automatic_profile_restore_enabled
    && p.startup_grace_seconds == q.startup_grace_seconds
    && p.consecutive_unhealthy_required == q.consecutive_unhealthy_required
    && p.cooldown_seconds == q.cooldown_seconds
    && p.max_attempts == q.max_attempts
    && p.rolling_window_seconds == q.rolling_window_seconds
    && p.post_restart_timeout_seconds == q.post_restart_timeout_seconds
    && p.verification_timeout_seconds == q.verification_timeout_seconds
    && overheat_eq p.overheat_policy q.overheat_policy

unfoldable pub endpoint_eq : MinerEndpoint → MinerEndpoint → Bool
endpoint_eq e f = e.host == f.host && e.port == f.port

unfoldable pub identity_eq : MinerIdentity → MinerIdentity → Bool
identity_eq i j =
    text_eq i.miner_id j.miner_id
    && option_eq text_eq i.hostname j.hostname
    && option_eq text_eq i.asic_model j.asic_model
    && option_eq text_eq i.board_version j.board_version
    && option_eq text_eq i.firmware_version j.firmware_version

unfoldable pub miner_eq : EnrolledMiner → EnrolledMiner → Bool
miner_eq m n =
    endpoint_eq m.endpoint n.endpoint
    && identity_eq m.identity n.identity
    && option_eq text_eq m.display_name n.display_name
    && bool_eq m.enabled n.enabled
    && option_eq profile_eq m.recovery_profile n.recovery_profile
    && policy_eq m.recovery_policy n.recovery_policy

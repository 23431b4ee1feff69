-- ===== src/Recovery/State.antt =====
-- recovery.py: the state kept for one miner, the classification of a snapshot and the guards on time.
-- A difference of two times is compared by adding the limit to the earlier one.
use bitaxe_fleet.Prelude.{
  ℕ, ◌+◌, Bool, false, not, ◌&&◌, ◌||◌, Option, none, some, List, [], ◌∷◌, map, if◌then◌else◌, ltb,
  leb, is_some, keep, ℤ, pos, eq_ℤ, ltb_ℤ,
}
use bitaxe_fleet.Python.Text.{Text, codes, text_eq}
use bitaxe_fleet.Python.Float.{Float, float_le, of_ℤ}
use bitaxe_fleet.Axeos.Models.{MinerId, Time, MinerSnapshot, seconds}
use bitaxe_fleet.Storage.State.{FleetIncident}

-- `RecoveryActionOutcome`
pub data RecoveryActionOutcome : Type 0 where
  requested uncertain failed : RecoveryActionOutcome

-- the member's value
abbrev pub outcome_text : RecoveryActionOutcome → Text
outcome_text requested = codes "requested"
outcome_text uncertain = codes "uncertain"
outcome_text failed = codes "failed"

-- `SnapshotCondition`
pub data SnapshotCondition : Type 0 where
  healthy paused unknown overheat power_fault hardware_fault zero_hashrate : SnapshotCondition

abbrev pub condition_text : SnapshotCondition → Text
condition_text healthy = codes "healthy"
condition_text paused = codes "paused"
condition_text unknown = codes "unknown"
condition_text overheat = codes "overheat"
condition_text power_fault = codes "power_fault"
condition_text hardware_fault = codes "hardware_fault"
condition_text zero_hashrate = codes "zero_hashrate"

-- `_MinerRecoveryState`
pub record MinerRecoveryState : Type 0 where
  pub started_at : Time
  pub attempts : List Time
  pub unhealthy_observations : ℕ
  pub last_action_at : Option Time
  pub restart_deadline : Option Time
  pub restart_requested_at : Option Time
  pub overheat_active : Bool
  pub pending_profile_restore_at : Option Time
  pub attempt_limit_reported : Bool

-- `overheat_mode not in {None, 0}`
abbrev pub is_overheat_mode : Option ℤ → Bool
is_overheat_mode none = false
is_overheat_mode (some mode) = not (eq_ℤ mode (pos 0))

-- `mining_paused is True`
abbrev pub is_true : Option Bool → Bool
is_true (some b) = b
is_true none = false

unfoldable pub hashrate_condition : Option Float → SnapshotCondition
hashrate_condition none = unknown
hashrate_condition (some hashrate) =
    if float_le hashrate (of_ℤ (pos 0)) then zero_hashrate else healthy

-- `snapshot_condition`
unfoldable pub snapshot_condition : MinerSnapshot → SnapshotCondition
snapshot_condition snapshot =
    let health = snapshot.health in
    if is_overheat_mode health.overheat_mode
    then overheat
    else if is_true health.mining_paused
    then paused
    else if is_some health.power_fault
    then power_fault
    else if is_some health.hardware_fault
    then hardware_fault
    else hashrate_condition snapshot.telemetry.hashrate_gh_s

-- `_in_startup_grace`
grace_by : Option ℤ → Time → Time → ℕ → Bool
grace_by (some uptime) started_at now grace = ltb_ℤ uptime (pos grace)
grace_by none started_at now grace = ltb now (started_at + seconds grace)

unfoldable pub in_startup_grace : MinerSnapshot → MinerRecoveryState → Time → ℕ → Bool
unfolding grace_by
in_startup_grace snapshot state now grace =
    grace_by snapshot.telemetry.uptime_seconds state.started_at now grace

cooling_since : Option Time → Time → ℕ → Bool
cooling_since none now cooldown = false
cooling_since (some last) now cooldown = ltb now (last + seconds cooldown)

-- `_is_in_cooldown`
unfoldable pub is_in_cooldown : MinerRecoveryState → Time → ℕ → Bool
unfolding cooling_since
is_in_cooldown state now cooldown = cooling_since state.last_action_at now cooldown

-- `attempt >= now - timedelta(seconds=window)`
abbrev pub counts_at : Time → ℕ → Time → Bool
counts_at now window attempt = leb now (attempt + seconds window)

-- `_prune_attempts`
unfoldable pub prune_attempts : MinerRecoveryState → Time → ℕ → MinerRecoveryState
prune_attempts state now window = record state {
  attempts = keep (counts_at now window) state.attempts;
}

-- `sorted`
unfoldable pub insert_sorted : Time → List Time → List Time
insert_sorted t [] = t ∷ []
insert_sorted t (u ∷ us) = let rest = insert_sorted t us in if leb t u then t ∷ u ∷ us else u ∷ rest

unfoldable pub sorted : List Time → List Time
sorted [] = []
sorted (t ∷ ts) = insert_sorted t (sorted ts)

-- `attempts[-1] if attempts else None`
unfoldable pub last_of : List Time → Option Time
last_of [] = none
last_of (t ∷ []) = some t
last_of (t ∷ u ∷ us) = last_of (u ∷ us)

-- Which incidents restore an attempt.
unfoldable pub is_prior_attempt : MinerId → Time → ℕ → FleetIncident → Bool
is_prior_attempt miner_id now window incident =
    text_eq incident.miner_id miner_id
    && (text_eq incident.cause (codes "automatic_restart")
        && ((text_eq incident.outcome (codes "requested")
              || (text_eq incident.outcome (codes "uncertain")
                  || text_eq incident.outcome (codes "failed")))
            && counts_at now window incident.occurred_at))

unfoldable pub prior_attempts : MinerId → Time → ℕ → List FleetIncident → List Time
prior_attempts miner_id now window incidents = sorted (
    map (λ (i : FleetIncident). i.occurred_at)
      (keep (is_prior_attempt miner_id now window) incidents))

-- `_restored_recovery_state`
unfoldable pub restored_recovery_state :
    MinerId → Time → ℕ → List FleetIncident → MinerRecoveryState
restored_recovery_state miner_id now window incidents = record {
  started_at = now;
  attempts = prior_attempts miner_id now window incidents;
  unhealthy_observations = 0;
  last_action_at = last_of (prior_attempts miner_id now window incidents);
  restart_deadline = none;
  restart_requested_at = none;
  overheat_active = false;
  pending_profile_restore_at = none;
  attempt_limit_reported = false;
}

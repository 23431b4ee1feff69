-- ===== src/Recovery/Counting.antt =====
-- About the calls of the two callbacks that change a miner, by each part of an evaluation.
use bitaxe_fleet.Prelude.{
  ◌≢◌, ℕ, ◌≡◌, ◌≤◌, ◌+◌, Bool, true, false, not, ◌&&◌, none, arith, if◌then◌else◌, ltb, leb, count,
  length-keep-eq-count,
}
use bitaxe_fleet.Python.Text.{Text, codes}
use bitaxe_fleet.Axeos.Models.{Time, MinerSnapshot, EnrolledMiner}
use bitaxe_fleet.Recovery.State.{
  SnapshotCondition, healthy, paused, unknown, overheat, power_fault, hardware_fault, zero_hashrate,
  MinerRecoveryState, snapshot_condition, in_startup_grace, is_in_cooldown, counts_at,
  prune_attempts,
}
use bitaxe_fleet.Recovery.Report.{
  Event, restart, restore, World, restored, timed_out, restore_raised, Report,
}
use bitaxe_fleet.Recovery.Handlers.{
  restore_saved_profile, handle_overheat, handle_overheat_clear, handle_pending_restart,
  restores_after_restart,
}
use bitaxe_fleet.Recovery.Evaluate.{
  request_restart, attempt_restart, is_calm, observe_unhealthy, observe,
}

abbrev pub is_restart : Event → Bool
is_restart (restart _) = true
is_restart _ = false

abbrev pub is_restore : Event → Bool
is_restore (restore _) = true
is_restore _ = false

abbrev pub restarts : Report → ℕ
restarts r = count is_restart r.events

abbrev pub restores : Report → ℕ
restores r = count is_restore r.events

-- A condition that counts as unhealthy.
abbrev pub is_fault : SnapshotCondition → Bool
is_fault power_fault = true
is_fault hardware_fault = true
is_fault zero_hashrate = true
is_fault _ = false

abbrev pub is_healthy : SnapshotCondition → Bool
is_healthy healthy = true
is_healthy _ = false

pub restore_lem :
    (w : World) (m : EnrolledMiner) (t : Text) (s : MinerRecoveryState)
    → (restarts (restore_saved_profile w m t s) ≡ 0)
      × (restores (restore_saved_profile w m t s) ≡ 1)
unfolding restore_saved_profile count
restore_lem w m t s = elim w.restore_reply [
  | restored true ↦ ground arith
  | restored false ↦ ground arith
  | timed_out ↦ ground arith
  | restore_raised ↦ ground arith
]

pub overheat_lem :
    (w : World) (m : EnrolledMiner) (s : MinerRecoveryState)
    → (restarts (handle_overheat w m s) ≡ 0) × (restores (handle_overheat w m s) ≡ 0)
unfolding handle_overheat count
overheat_lem w m s = ground arith

pub clear_lem :
    (w : World) (m : EnrolledMiner) (s : MinerRecoveryState)
    → (restarts (handle_overheat_clear w m s) ≡ 0) × (restores (handle_overheat_clear w m s) ≡ 0)
unfolding handle_overheat_clear count
clear_lem w m s = ground arith

request_lem :
    (w : World) (m : EnrolledMiner) (c : SnapshotCondition) (s : MinerRecoveryState)
    → (restarts (request_restart w m c s) ≡ 1) × (restores (request_restart w m c s) ≡ 0)
unfolding request_restart count
request_lem w m c s = ground arith

pub pending_lem :
    (w : World) (m : EnrolledMiner) (c : SnapshotCondition) (d : Time) (s : MinerRecoveryState)
    → (restarts (handle_pending_restart w m c d s) ≡ 0)
      × (restores (handle_pending_restart w m c d s)
          ≤ (if is_healthy c && restores_after_restart m then 1 else 0))
unfolding handle_pending_restart count
pending_lem w m healthy d s = ground (
  arith,
  restore_lem w m (codes "after verified restart")
      (record s { restart_deadline = none; restart_requested_at = none }),
)
pending_lem w m paused d s = ground arith
pending_lem w m unknown d s = ground arith
pending_lem w m overheat d s = ground arith
pending_lem w m power_fault d s = ground arith
pending_lem w m hardware_fault d s = ground arith
pending_lem w m zero_hashrate d s = ground arith

attempt_lem :
    (w : World) (m : EnrolledMiner) (c : SnapshotCondition) (s : MinerRecoveryState)
    → (restarts (attempt_restart w m c s) ≡ (
        if ltb
          (count (counts_at w.now m.recovery_policy.rolling_window_seconds) s.attempts)
          m.recovery_policy.max_attempts
        then 1
        else 0))
      × (restores (attempt_restart w m c s) ≡ 0)
unfolding attempt_restart prune_attempts count
attempt_lem w m c s =
    let fits =
      length-keep-eq-count (counts_at w.now m.recovery_policy.rolling_window_seconds) s.attempts in
    ground (
      arith,
      fits,
      request_lem w m c (prune_attempts s w.now m.recovery_policy.rolling_window_seconds),
    )

observe_unhealthy_lem :
    (w : World) (m : EnrolledMiner) (c : SnapshotCondition) (s : MinerRecoveryState)
    → (restarts (observe_unhealthy w m c s) ≡ (
        if leb m.recovery_policy.consecutive_unhealthy_required (s.unhealthy_observations + 1)
          && (not (is_in_cooldown s w.now m.recovery_policy.cooldown_seconds)
              && ltb
                  (count (counts_at w.now m.recovery_policy.rolling_window_seconds) s.attempts)
                  m.recovery_policy.max_attempts)
        then 1
        else 0))
      × (restores (observe_unhealthy w m c s) ≡ 0)
unfolding observe_unhealthy count is_in_cooldown
observe_unhealthy_lem w m c s =
    ground (
      arith,
      attempt_lem w m c (record s { unhealthy_observations = s.unhealthy_observations + 1 }),
    )

pub observe_lem :
    (w : World) (m : EnrolledMiner) (snapshot : MinerSnapshot) (s : MinerRecoveryState)
    → (snapshot_condition snapshot ≢ overheat)
    → (restarts (observe w m snapshot s) ≡ (
        if is_fault (snapshot_condition snapshot)
          && (m.recovery_policy.automatic_recovery_enabled
              && (not (in_startup_grace snapshot s w.now m.recovery_policy.startup_grace_seconds)
                  && (leb m.recovery_policy.consecutive_unhealthy_required
                        (s.unhealthy_observations + 1)
                      && (not (is_in_cooldown s w.now m.recovery_policy.cooldown_seconds)
                          && ltb
                              (count
                                (counts_at w.now m.recovery_policy.rolling_window_seconds)
                                s.attempts)
                              m.recovery_policy.max_attempts))))
        then 1
        else 0))
      × (restores (observe w m snapshot s) ≡ 0)
unfolding observe count is_calm
observe_lem w m snapshot s h =
    ground (arith, observe_unhealthy_lem w m (snapshot_condition snapshot) s)

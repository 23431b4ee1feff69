-- ===== src/Recovery/Safety.antt =====
-- About the calls of the two callbacks that change a miner, by an evaluation.
use bitaxe_fleet.Prelude.{
  ◌≢◌, ◌≡◌, ◌≤◌, ◌+◌, refl, Bool, true, false, not, ◌&&◌, Option, none, some, arith, if◌then◌else◌,
  ltb, leb, is_some, count, Bool-cases, Option-cases, inl, inr,
}
use bitaxe_fleet.Python.Text.{codes}
use bitaxe_fleet.Axeos.Models.{Time, MinerSnapshot, EnrolledMiner}
use bitaxe_fleet.Recovery.State.{
  SnapshotCondition, healthy, paused, unknown, overheat, power_fault, hardware_fault, zero_hashrate,
  MinerRecoveryState, snapshot_condition, in_startup_grace, is_in_cooldown, counts_at,
}
use bitaxe_fleet.Recovery.Report.{World, Report}
use bitaxe_fleet.Recovery.Handlers.{handle_overheat, restores_after_restart}
use bitaxe_fleet.Recovery.Evaluate.{await_restart, await_restore, evaluate_cool, evaluate_snapshot}
use bitaxe_fleet.Recovery.Counting.{
  restarts, restores, is_fault, is_healthy, restore_lem, overheat_lem, clear_lem, pending_lem,
  observe_lem,
}

-- The conditions under which a restart is due, side by side.
abbrev pub may_restart : World → EnrolledMiner → MinerSnapshot → MinerRecoveryState → Bool
may_restart w m snapshot s =
    is_fault (snapshot_condition snapshot)
    && (not s.overheat_active
        && (not (is_some s.pending_profile_restore_at)
            && (not (is_some s.restart_deadline)
                && (m.recovery_policy.automatic_recovery_enabled
                    && (not (
                          in_startup_grace snapshot s w.now m.recovery_policy.startup_grace_seconds)
                        && (leb m.recovery_policy.consecutive_unhealthy_required
                              (s.unhealthy_observations + 1)
                            && (not (is_in_cooldown s w.now m.recovery_policy.cooldown_seconds)
                                && ltb
                                    (count
                                      (counts_at w.now m.recovery_policy.rolling_window_seconds)
                                      s.attempts)
                                    m.recovery_policy.max_attempts)))))))

-- Whether a planned restore is due.
abbrev pub is_due : Time → Option Time → Bool
is_due now none = false
is_due now (some due) = leb due now

abbrev pub is_overheat : SnapshotCondition → Bool
is_overheat overheat = true
is_overheat _ = false

-- When a saved profile may be restored: a plan is due, or a restart has just been verified.
abbrev pub may_restore : World → EnrolledMiner → MinerSnapshot → MinerRecoveryState → Bool
may_restore w m snapshot s =
    not (is_overheat (snapshot_condition snapshot))
    && (not s.overheat_active
        && (if is_some s.pending_profile_restore_at
            then is_due w.now s.pending_profile_restore_at
            else is_some s.restart_deadline
              && (is_healthy (snapshot_condition snapshot) && restores_after_restart m)))

-- The numbers of the two calls.
abbrev pub Calls : World → EnrolledMiner → MinerSnapshot → MinerRecoveryState → Report → Type 0
Calls w m snapshot s r =
    (restarts r ≡ (if may_restart w m snapshot s then 1 else 0))
    × (restores r ≤ (if may_restore w m snapshot s then 1 else 0))

evaluate_cool_lem :
    (w : World) (m : EnrolledMiner) (snapshot : MinerSnapshot) (s : MinerRecoveryState)
    → snapshot_condition snapshot ≢ overheat
    → Calls w m snapshot s (evaluate_cool w m snapshot s)
unfolding evaluate_cool await_restore await_restart count
evaluate_cool_lem w m snapshot s h = elim (Bool-cases s.overheat_active) [
  | inl hot ↦ (ground (arith, clear_lem w m s))
  | inr cool ↦ elim (Option-cases s.pending_profile_restore_at) [
    | inr (due, e) ↦
        (ground (
          arith,
          restore_lem w m (codes "after thermal cooldown")
              (record s { pending_profile_restore_at = none }),
        ))
    | inl e ↦ elim (Option-cases s.restart_deadline) [
      | inr (d, e') ↦ (ground (arith, pending_lem w m (snapshot_condition snapshot) d s))
      | inl e' ↦ (ground (arith, observe_lem w m snapshot s h))
    ]
  ]
]

-- An evaluation calls the restart exactly once when automatic recovery is enabled, the snapshot shows
-- a power fault, a hardware fault or no hashrate, no overheat is active, no restore and no restart is
-- pending, the grace and the cooldown are over, this makes the required number of unhealthy
-- observations and fewer attempts than the limit lie in the rolling window; otherwise never. It calls
-- the restore at most once, and only without overheat, when a planned restore is due or, with none
-- planned, when a pending restart shows a healthy snapshot and the policy restores after it.
pub evaluate_snapshot-Calls :
    (w : World) (m : EnrolledMiner) (snapshot : MinerSnapshot) (s : MinerRecoveryState)
    → Calls w m snapshot s (evaluate_snapshot w m snapshot s)
unfolding evaluate_snapshot
evaluate_snapshot-Calls w m snapshot s = go (snapshot_condition snapshot) refl
  where
    cool :
        snapshot_condition snapshot ≢ overheat → Calls w m snapshot s (evaluate_cool w m snapshot s)
    cool = evaluate_cool_lem w m snapshot s

    go :
        (c : SnapshotCondition)
        → snapshot_condition snapshot ≡ c
        → Calls w m snapshot s
            (elim c [ overheat ↦ handle_overheat w m s | _ ↦ evaluate_cool w m snapshot s ])
    go overheat e = ground (arith, overheat_lem w m s)
    go healthy e = cool (λ e'. cc)
    go paused e = cool (λ e'. cc)
    go unknown e = cool (λ e'. cc)
    go power_fault e = cool (λ e'. cc)
    go hardware_fault e = cool (λ e'. cc)
    go zero_hashrate e = cool (λ e'. cc)

-- One evaluation asks for at most one change of the miner, a restart or a restore.
pub evaluate_snapshot_mutates_once :
    (w : World) (m : EnrolledMiner) (snapshot : MinerSnapshot) (s : MinerRecoveryState)
    → let r = evaluate_snapshot w m snapshot s in restarts r + restores r ≤ 1
evaluate_snapshot_mutates_once w m snapshot s =
    ground (arith, evaluate_snapshot-Calls w m snapshot s)

-- While a snapshot reports overheat, an evaluation asks for no restart and no restore, drops a planned
-- restore and the count of unhealthy observations, marks the overheat as active and keeps the
-- attempts and the deadline.
pub evaluate_snapshot_overheat :
    (w : World) (m : EnrolledMiner) (snapshot : MinerSnapshot) (s : MinerRecoveryState)
    → snapshot_condition snapshot ≡ overheat
    → let r = evaluate_snapshot w m snapshot s in
      (restarts r + restores r ≡ 0)
      × (r.state.overheat_active ≡ true)
      × (r.state.pending_profile_restore_at ≡ none)
      × (r.state.unhealthy_observations ≡ 0)
      × (r.state.attempts ≡ s.attempts)
      × (r.state.restart_deadline ≡ s.restart_deadline)
unfolding evaluate_snapshot handle_overheat count
evaluate_snapshot_overheat w m snapshot s e = rw (evaluate_snapshot, e) (ground arith)

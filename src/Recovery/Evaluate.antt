-- ===== src/Recovery/Evaluate.antt =====
-- recovery.py: `async_evaluate` behind its guards. The lock of the miner makes it one step.
use bitaxe_fleet.Prelude.{
  ◌+◌, Bool, true, false, not, Option, none, some, [], ◌∷◌, ◌++◌, if◌then◌else◌, ltb, leb, length,
}
use bitaxe_fleet.Python.Text.{codes}
use bitaxe_fleet.Axeos.Models.{Time, MinerSnapshot, EnrolledMiner, seconds}
use bitaxe_fleet.Recovery.State.{
  RecoveryActionOutcome, failed, outcome_text, SnapshotCondition, healthy, paused, unknown,
  overheat, condition_text, MinerRecoveryState, snapshot_condition, in_startup_grace,
  is_in_cooldown, prune_attempts,
}
use bitaxe_fleet.Recovery.Report.{
  restart, RestartReply, replied, raised, World, Report, quiet, and_then, record_incident,
}
use bitaxe_fleet.Recovery.Handlers.{
  restore_saved_profile, handle_overheat, handle_overheat_clear, handle_pending_restart,
}

-- `except Exception: outcome = FAILED`
abbrev pub reply_outcome : RestartReply → RecoveryActionOutcome
reply_outcome (replied outcome) = outcome
reply_outcome raised = failed

restart_outlook :
    World → EnrolledMiner → RecoveryActionOutcome → MinerRecoveryState → MinerRecoveryState
restart_outlook w m failed s = s
restart_outlook w m _ s = record s {
  restart_requested_at = some w.now;
  restart_deadline = some (w.now + seconds m.recovery_policy.post_restart_timeout_seconds);
}

-- the restart and what follows it
unfoldable pub request_restart :
    World → EnrolledMiner → SnapshotCondition → MinerRecoveryState → Report
unfolding restart_outlook
request_restart w m condition s =
    let s' = record s {
      unhealthy_observations = 0;
      last_action_at = some w.now;
      attempts = s.attempts ++ w.now ∷ [];
      attempt_limit_reported = false;
    } in
    let outcome = reply_outcome w.restart_reply in
    and_then (record { state = s'; events = restart w.subject ∷ []; finished = true })
      (λ t.
        record_incident w w.subject (codes "automatic_restart") (outcome_text outcome)
          (codes "unhealthy condition: " ++ condition_text condition)
          (restart_outlook w m outcome t))

-- the rolling limit is reached
suppress : World → EnrolledMiner → MinerRecoveryState → Report
suppress w m s =
    if s.attempt_limit_reported
    then quiet s
    else record_incident w w.subject (codes "automatic_restart") (codes "suppressed")
        (codes "rolling attempt limit reached") (record s { attempt_limit_reported = true })

-- behind the count of observations and the cooldown
unfoldable pub attempt_restart :
    World → EnrolledMiner → SnapshotCondition → MinerRecoveryState → Report
unfolding suppress
attempt_restart w m condition s =
    let s' = prune_attempts s w.now m.recovery_policy.rolling_window_seconds in
    if leb m.recovery_policy.max_attempts (length s'.attempts)
    then suppress w m s'
    else request_restart w m condition s'

-- `condition in {"healthy", "paused", "unknown"}`
unfoldable pub is_calm : SnapshotCondition → Bool
is_calm healthy = true
is_calm paused = true
is_calm unknown = true
is_calm _ = false

-- one more unhealthy observation
unfoldable pub observe_unhealthy :
    World → EnrolledMiner → SnapshotCondition → MinerRecoveryState → Report
observe_unhealthy w m condition s =
    let s' = record s { unhealthy_observations = s.unhealthy_observations + 1 } in
    if ltb s'.unhealthy_observations m.recovery_policy.consecutive_unhealthy_required
    then quiet s'
    else if is_in_cooldown s' w.now m.recovery_policy.cooldown_seconds
    then quiet s'
    else attempt_restart w m condition s'

-- behind the thermal, pending restore and pending restart cases
unfoldable pub observe : World → EnrolledMiner → MinerSnapshot → MinerRecoveryState → Report
observe w m snapshot s =
    let s' = record s { unhealthy_observations = 0 } in
    if not m.recovery_policy.automatic_recovery_enabled
    then quiet s
    else if in_startup_grace snapshot s w.now m.recovery_policy.startup_grace_seconds
    then quiet s'
    else if is_calm (snapshot_condition snapshot)
    then quiet s'
    else observe_unhealthy w m (snapshot_condition snapshot) s

-- the case of a pending restart
unfoldable pub await_restart :
    World → EnrolledMiner → MinerSnapshot → Option Time → MinerRecoveryState → Report
await_restart w m snapshot none s = observe w m snapshot s
await_restart w m snapshot (some deadline) s =
    handle_pending_restart w m (snapshot_condition snapshot) deadline s

-- the case of a pending restore
unfoldable pub await_restore :
    World → EnrolledMiner → MinerSnapshot → Option Time → MinerRecoveryState → Report
await_restore w m snapshot none s = await_restart w m snapshot s.restart_deadline s
await_restore w m snapshot (some due) s =
    if leb due w.now
    then restore_saved_profile w m (codes "after thermal cooldown")
        (record s { pending_profile_restore_at = none })
    else quiet s

-- not overheated
unfoldable pub evaluate_cool : World → EnrolledMiner → MinerSnapshot → MinerRecoveryState → Report
evaluate_cool w m snapshot s =
    if s.overheat_active
    then handle_overheat_clear w m s
    else await_restore w m snapshot s.pending_profile_restore_at s

-- `async_evaluate`, once the miner's state is at hand
unfoldable pub evaluate_snapshot :
    World → EnrolledMiner → MinerSnapshot → MinerRecoveryState → Report
evaluate_snapshot w m snapshot s = elim (snapshot_condition snapshot) [
  | overheat ↦ handle_overheat w m s
  | _ ↦ evaluate_cool w m snapshot s
]

-- ===== src/Recovery/Handlers.antt =====
-- recovery.py: the handlers of an overheat, of a pending restart and of the saved profile.
use bitaxe_fleet.Prelude.{
  ◌+◌, Bool, true, false, ◌&&◌, none, some, [], ◌∷◌, if◌then◌else◌, leb, is_some,
}
use bitaxe_fleet.Python.Text.{Text, codes}
use bitaxe_fleet.Axeos.Models.{
  MinerId, Time, EnrolledMiner, OverheatPolicy, restore_after_cooldown, seconds,
}
use bitaxe_fleet.Recovery.State.{SnapshotCondition, healthy, MinerRecoveryState}
use bitaxe_fleet.Recovery.Report.{
  restore, RestoreReply, restored, timed_out, restore_raised, World, Report, quiet, and_then,
  record_incident,
}

miner_id : EnrolledMiner → MinerId
miner_id m = m.identity.miner_id

-- `_async_restore_saved_profile`, behind the awaited call
restore_ended : World → MinerId → Text → RestoreReply → MinerRecoveryState → Report
restore_ended w k reason (restored true) s =
    record_incident w k (codes "automatic_profile_restore") (codes "verified") reason s
restore_ended w k reason (restored false) s =
    record_incident w k (codes "automatic_profile_restore") (codes "failed") reason s
restore_ended w k reason timed_out s =
    record_incident w k (codes "automatic_profile_restore") (codes "failed") reason s
restore_ended w k reason restore_raised s = record { state = s; events = []; finished = false }

-- `_async_restore_saved_profile`
unfoldable pub restore_saved_profile : World → EnrolledMiner → Text → MinerRecoveryState → Report
unfolding miner_id restore_ended
restore_saved_profile w m reason s =
    and_then (record { state = s; events = restore (miner_id m) ∷ []; finished = true })
      (restore_ended w (miner_id m) reason w.restore_reply)

-- `_async_handle_overheat`
unfoldable pub handle_overheat : World → EnrolledMiner → MinerRecoveryState → Report
unfolding miner_id
handle_overheat w m s =
    let s' = record s { unhealthy_observations = 0; pending_profile_restore_at = none } in
    if s.overheat_active
    then quiet s'
    else record_incident w (miner_id m) (codes "thermal_safety") (codes "detected")
        (codes "AxeOS overheat protection is active") (record s' { overheat_active = true })

is_restore_after_cooldown : OverheatPolicy → Bool
is_restore_after_cooldown restore_after_cooldown = true
is_restore_after_cooldown _ = false

-- Whether a cleared overheat plans a restore.
unfoldable pub plans_restore : EnrolledMiner → Bool
unfolding is_restore_after_cooldown
plans_restore m =
    is_restore_after_cooldown m.recovery_policy.overheat_policy
    && (m.recovery_policy.automatic_profile_restore_enabled && is_some m.recovery_profile)

plan_restore : World → EnrolledMiner → MinerRecoveryState → Report
plan_restore w m s =
    if plans_restore m
    then quiet (record s {
      pending_profile_restore_at = some (w.now + seconds m.recovery_policy.cooldown_seconds);
    })
    else quiet s

-- `_async_handle_overheat_clear`
unfoldable pub handle_overheat_clear : World → EnrolledMiner → MinerRecoveryState → Report
unfolding miner_id plan_restore
handle_overheat_clear w m s =
    and_then
      (record_incident w (miner_id m) (codes "thermal_safety") (codes "cleared")
        (codes "AxeOS overheat protection is no longer active")
        (record s { overheat_active = false; unhealthy_observations = 0 }))
      (plan_restore w m)

-- Whether a verified restart restores the saved profile.
unfoldable pub restores_after_restart : EnrolledMiner → Bool
restores_after_restart m =
    m.recovery_policy.automatic_profile_restore_enabled && is_some m.recovery_profile

restart_verified : World → EnrolledMiner → MinerRecoveryState → Report
unfolding miner_id
restart_verified w m s =
    and_then
      (record_incident w (miner_id m) (codes "automatic_restart") (codes "verified")
        (codes "positive hashrate observed after restart")
        (record s { restart_deadline = none; restart_requested_at = none }))
      (λ t.
        if restores_after_restart m
        then restore_saved_profile w m (codes "after verified restart") t
        else quiet t)

restart_overdue : World → EnrolledMiner → Time → MinerRecoveryState → Report
unfolding miner_id
restart_overdue w m deadline s =
    if leb deadline w.now
    then record_incident w (miner_id m) (codes "automatic_restart") (codes "timed_out")
        (codes "positive hashrate was not observed after restart")
        (record s {
          restart_deadline = none;
          restart_requested_at = none;
          unhealthy_observations = 0;
        })
    else quiet s

-- `_async_handle_pending_restart`; the caller has found the deadline
unfoldable pub handle_pending_restart :
    World → EnrolledMiner → SnapshotCondition → Time → MinerRecoveryState → Report
unfolding restart_verified restart_overdue
handle_pending_restart w m healthy deadline s = restart_verified w m s
handle_pending_restart w m _ deadline s = restart_overdue w m deadline s

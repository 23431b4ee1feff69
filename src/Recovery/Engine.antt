-- ===== src/Recovery/Engine.antt =====
-- recovery.py: `RecoveryEngine`, its states, locks and coalesced tasks. A task is a number, drawn from
-- a counter, so a task and a newer replacement differ.
use bitaxe_fleet.Prelude.{
  ℕ, ◌+◌, Bool, true, false, not, ◌||◌, Option, none, some, List, [], if◌then◌else◌, ◌==◌, is_some,
}
use bitaxe_fleet.Python.Dict.{Dict, lookup, insert, erase}
use bitaxe_fleet.Axeos.Models.{MinerId, Time, MinerSnapshot, EnrolledMiner}
use bitaxe_fleet.Storage.State.{FleetIncident, IdSet, add_id, discard_id}
use bitaxe_fleet.Recovery.State.{MinerRecoveryState, restored_recovery_state}
use bitaxe_fleet.Recovery.Report.{Event, World}
use bitaxe_fleet.Recovery.Evaluate.{evaluate_snapshot}

-- Of the locks only the ids that have one are kept.
pub record RecoveryEngine : Type 0 where
  pub states : Dict MinerRecoveryState
  pub locks : IdSet
  pub tasks : Dict ℕ
  pub next_task : ℕ
  pub closed : Bool

-- The three providers.
pub record Providers : Type 0 where
  pub miner : MinerId → Option EnrolledMiner
  pub snapshot : MinerId → Option MinerSnapshot
  pub incidents : List FleetIncident

-- `_async_forget_state`
unfoldable pub forget_state : MinerId → RecoveryEngine → RecoveryEngine
forget_state k e = record e { states = erase k e.states; locks = discard_id k e.locks }

-- `async_schedule`
unfoldable pub schedule : MinerId → RecoveryEngine → RecoveryEngine
schedule k e =
    if e.closed || is_some (lookup k e.tasks)
    then e
    else record e { tasks = insert k e.next_task e.tasks; next_task = e.next_task + 1 }

is_task : ℕ → Option ℕ → Bool
is_task task none = false
is_task task (some current) = current == task

-- `_async_task_done`
unfoldable pub task_done : MinerId → ℕ → RecoveryEngine → RecoveryEngine
unfolding is_task
task_done k task e =
    if is_task task (lookup k e.tasks) then record e { tasks = erase k e.tasks } else e

-- `async_forget_miner`
unfoldable pub forget_miner : MinerId → RecoveryEngine → RecoveryEngine
forget_miner k e = forget_state k (record e { tasks = erase k e.tasks })

-- `async_close`
unfoldable pub close : RecoveryEngine → RecoveryEngine
close e = if e.closed then e else record e { states = []; locks = []; tasks = []; closed = true }

-- A miner's state, or one restored from the recorded incidents.
unfoldable pub state_of :
    MinerId → Time → EnrolledMiner → Providers → Option MinerRecoveryState → MinerRecoveryState
state_of k now m p (some s) = s
state_of k now m p none =
    restored_recovery_state k now m.recovery_policy.rolling_window_seconds p.incidents

-- Whether the policy opts in to anything.
abbrev pub is_opted_in : EnrolledMiner → Bool
is_opted_in m =
    m.recovery_policy.automatic_recovery_enabled
    || m.recovery_policy.automatic_profile_restore_enabled

unfoldable pub evaluate_miner :
    World
    → Providers
    → MinerId
    → EnrolledMiner
    → MinerSnapshot
    → RecoveryEngine
    → RecoveryEngine × List Event
evaluate_miner w p k m snapshot e =
    if not m.enabled
    then (forget_state k e, [])
    else if not (is_opted_in m)
    then (forget_state k e, [])
    else let report =
        evaluate_snapshot (record w { subject = k }) m snapshot
          (state_of k w.now m p (lookup k e.states)) in
      (record e { states = insert k report.state e.states }, report.events)

unfoldable pub evaluate_found :
    World
    → Providers
    → MinerId
    → Option EnrolledMiner
    → Option MinerSnapshot
    → RecoveryEngine
    → RecoveryEngine × List Event
unfolding evaluate_miner
evaluate_found w p k (some m) (some snapshot) e = evaluate_miner w p k m snapshot e
evaluate_found w p k _ _ e = (forget_state k e, [])

-- `async_evaluate`, with the calls it makes
unfoldable pub evaluate : World → Providers → MinerId → RecoveryEngine → RecoveryEngine × List Event
unfolding evaluate_found
evaluate w p k e =
    if e.closed
    then (e, [])
    else evaluate_found w p k (p.miner k) (p.snapshot k) (record e { locks = add_id k e.locks })

-- ===== src/Recovery/Attempts.antt =====
-- About the attempts that each part of an evaluation leaves counted.
use bitaxe_fleet.Prelude.{
  ℕ, ◌≡◌, ◌≤◌, ◌+◌, refl, true, false, Option, none, some, List, [], ◌∷◌, ◌++◌, arith,
  if◌then◌else◌, ◌==◌, keep, count, count-append,
}
use bitaxe_fleet.Python.Text.{codes}
use bitaxe_fleet.Axeos.Models.{Time, MinerSnapshot, EnrolledMiner}
use bitaxe_fleet.Recovery.State.{
  SnapshotCondition, healthy, paused, unknown, overheat, power_fault, hardware_fault, zero_hashrate,
  MinerRecoveryState, requested, uncertain, failed, snapshot_condition, counts_at, prune_attempts,
}
use bitaxe_fleet.Recovery.Report.{
  World, Report, replied, raised, restored, timed_out, restore_raised,
}
use bitaxe_fleet.Recovery.Handlers.{
  restore_saved_profile, handle_overheat, handle_overheat_clear, handle_pending_restart,
}
use bitaxe_fleet.Recovery.Evaluate.{
  request_restart, attempt_restart, observe_unhealthy, observe, await_restart, await_restore,
  evaluate_cool, evaluate_snapshot,
}
use bitaxe_fleet.Recovery.Counting.{restore_lem, overheat_lem, clear_lem, pending_lem, restarts}

-- Pruning at a time forgets no attempt that counts later.
count-prune :
    (now later window : ℕ) (ts : List Time)
    → now ≤ later
    → count (counts_at later window) (keep (counts_at now window) ts)
      ≡ count (counts_at later window) ts
unfolding count keep
count-prune now later window [] h = refl
count-prune now later window (t ∷ ts) h = ground (arith, count-prune now later window ts h)

-- How an evaluation changes the attempts that count at a later time.
abbrev pub Counts : Time → ℕ → Time → Report → MinerRecoveryState → Type 0
Counts later window now r s =
    count (counts_at later window) r.state.attempts
    ≡ count (counts_at later window) s.attempts
      + (if restarts r == 1 then count (counts_at later window) (now ∷ []) else 0)

restore_attempts :
    (w : World) (m : EnrolledMiner) (t : List ℕ) (s : MinerRecoveryState)
    → (restore_saved_profile w m t s).state ≡ s
unfolding restore_saved_profile
restore_attempts w m t s = elim w.restore_reply [
  | restored true ↦ ground arith
  | restored false ↦ ground arith
  | timed_out ↦ ground arith
  | restore_raised ↦ ground arith
]

overheat_attempts :
    (w : World) (m : EnrolledMiner) (s : MinerRecoveryState)
    → (handle_overheat w m s).state.attempts ≡ s.attempts
unfolding handle_overheat
overheat_attempts w m s = ground arith

clear_attempts :
    (w : World) (m : EnrolledMiner) (s : MinerRecoveryState)
    → (handle_overheat_clear w m s).state.attempts ≡ s.attempts
unfolding handle_overheat_clear
clear_attempts w m s = ground arith

pending_attempts :
    (w : World) (m : EnrolledMiner) (c : SnapshotCondition) (d : Time) (s : MinerRecoveryState)
    → (handle_pending_restart w m c d s).state.attempts ≡ s.attempts
unfolding handle_pending_restart
pending_attempts w m healthy d s = ground (
  arith,
  restore_attempts w m (codes "after verified restart")
      (record s { restart_deadline = none; restart_requested_at = none }),
)
pending_attempts w m paused d s = ground arith
pending_attempts w m unknown d s = ground arith
pending_attempts w m overheat d s = ground arith
pending_attempts w m power_fault d s = ground arith
pending_attempts w m hardware_fault d s = ground arith
pending_attempts w m zero_hashrate d s = ground arith

request_attempts :
    (w : World) (m : EnrolledMiner) (c : SnapshotCondition) (s : MinerRecoveryState)
    → ((request_restart w m c s).state.attempts ≡ s.attempts ++ w.now ∷ [])
      × (restarts (request_restart w m c s) ≡ 1)
unfolding request_restart count
request_attempts w m c s = elim w.restart_reply [
  | replied requested ↦ ground arith
  | replied uncertain ↦ ground arith
  | replied failed ↦ ground arith
  | raised ↦ ground arith
]

attempt-Counts :
    (w : World) (m : EnrolledMiner) (c : SnapshotCondition) (s : MinerRecoveryState) (later : Time)
    → w.now ≤ later
    → Counts later m.recovery_policy.rolling_window_seconds w.now (attempt_restart w m c s) s
unfolding attempt_restart prune_attempts count
attempt-Counts w m c s later h =
    let window = m.recovery_policy.rolling_window_seconds in
    let kept = keep (counts_at w.now window) s.attempts in
    ground (
      arith,
      count-prune w.now later window s.attempts h,
      count-append (counts_at later window) kept (w.now ∷ []),
      request_attempts w m c (prune_attempts s w.now window),
    )

observe-Counts :
    (w : World) (m : EnrolledMiner) (snapshot : MinerSnapshot) (s : MinerRecoveryState)
    (later : Time)
    → w.now ≤ later
    → Counts later m.recovery_policy.rolling_window_seconds w.now (observe w m snapshot s) s
unfolding observe observe_unhealthy count
observe-Counts w m snapshot s later h = ground (
  arith,
  attempt-Counts w m (snapshot_condition snapshot)
      (record s { unhealthy_observations = s.unhealthy_observations + 1 }) later h,
)

-- An evaluation that keeps the attempts and calls no restart.
kept-Counts :
    (later : Time) (window : ℕ) (now : Time) (r : Report) (s : MinerRecoveryState)
    → r.state.attempts ≡ s.attempts
    → restarts r ≡ 0
    → Counts later window now r s
kept-Counts later window now r s e z = rw (e, z) (omega arith)

cool-Counts :
    (w : World) (m : EnrolledMiner) (snapshot : MinerSnapshot) (s : MinerRecoveryState)
    (later : Time)
    → w.now ≤ later
    → Counts later m.recovery_policy.rolling_window_seconds w.now (evaluate_cool w m snapshot s) s
unfolding evaluate_cool await_restart await_restore count
cool-Counts w m snapshot s later h =
    elim s.overheat_active
      as (λ b.
        Counts later window w.now
          (if b
            then handle_overheat_clear w m s
            else await_restore w m snapshot s.pending_profile_restore_at s)
          s) [
            | true ↦
                kept-Counts later window w.now (handle_overheat_clear w m s) s
                  (clear_attempts w m s) (clear_lem w m s).0
            | false ↦ waiting s.pending_profile_restore_at
          ]
  where
    window : ℕ
    window = m.recovery_policy.rolling_window_seconds

    pending : (d : Option Time) → Counts later window w.now (await_restart w m snapshot d s) s
    pending (some d) =
        kept-Counts later window w.now
          (handle_pending_restart w m (snapshot_condition snapshot) d s) s
          (pending_attempts w m (snapshot_condition snapshot) d s)
          (pending_lem w m (snapshot_condition snapshot) d s).0
    pending none = observe-Counts w m snapshot s later h

    waiting : (d : Option Time) → Counts later window w.now (await_restore w m snapshot d s) s
    waiting none = pending s.restart_deadline
    waiting (some due) =
        let s' = record s { pending_profile_restore_at = none } in
        ground (
          arith,
          restore_attempts w m (codes "after thermal cooldown") s',
          restore_lem w m (codes "after thermal cooldown") s',
        )

pub evaluate-Counts :
    (w : World) (m : EnrolledMiner) (snapshot : MinerSnapshot) (s : MinerRecoveryState)
    (later : Time)
    → w.now ≤ later
    → Counts later m.recovery_policy.rolling_window_seconds w.now
        (evaluate_snapshot w m snapshot s)
        s
unfolding evaluate_snapshot
evaluate-Counts w m snapshot s later h =
    elim (snapshot_condition snapshot)
      as (λ c.
        Counts later m.recovery_policy.rolling_window_seconds w.now
          (elim c [ overheat ↦ handle_overheat w m s | _ ↦ evaluate_cool w m snapshot s ]) s) [
            | overheat ↦
                kept-Counts later m.recovery_policy.rolling_window_seconds w.now
                  (handle_overheat w m s) s (overheat_attempts w m s) (overheat_lem w m s).0
            | _ ↦ cool-Counts w m snapshot s later h
          ]

-- ===== src/Recovery/Liveness.antt =====
-- About a fault that lasts.
use bitaxe_fleet.Prelude.{
  All, ℕ, ◌≡◌, ◌<◌, ◌+◌, ap, ◌∙◌, true, false, none, List, [], ◌∷◌, arith, length, count,
}
use bitaxe_fleet.Axeos.Models.{MinerSnapshot, EnrolledMiner}
use bitaxe_fleet.Recovery.State.{
  MinerRecoveryState, snapshot_condition, in_startup_grace, is_in_cooldown, counts_at,
}
use bitaxe_fleet.Recovery.Report.{World}
use bitaxe_fleet.Recovery.Evaluate.{
  evaluate_snapshot, evaluate_cool, await_restore, await_restart, observe, observe_unhealthy,
  is_calm,
}
use bitaxe_fleet.Recovery.Counting.{is_fault, restarts}
use bitaxe_fleet.Recovery.Safety.{evaluate_snapshot-Calls}
use bitaxe_fleet.Recovery.RateLimit.{Observation}

-- Automatic recovery is enabled, and neither overheat nor pending work holds an evaluation up.
pub record IsIdle (m : EnrolledMiner) (s : MinerRecoveryState) : Type 0 where
  pub opted_in : m.recovery_policy.automatic_recovery_enabled ≡ true
  pub cool : s.overheat_active ≡ false
  pub no_restore : s.pending_profile_restore_at ≡ none
  pub no_restart : s.restart_deadline ≡ none

-- A fault is seen, past the startup grace.
abbrev pub IsFaulty : EnrolledMiner → MinerRecoveryState → Observation → Type 0
IsFaulty m s (w, snapshot) =
    (is_fault (snapshot_condition snapshot) ≡ true)
    × (in_startup_grace snapshot s w.now m.recovery_policy.startup_grace_seconds ≡ false)

-- The state after some evaluations.
pub after : EnrolledMiner → List Observation → MinerRecoveryState → MinerRecoveryState
after m [] s = s
after m ((w, snapshot) ∷ rest) s = after m rest (evaluate_snapshot w m snapshot s).state

counted : MinerRecoveryState → ℕ → MinerRecoveryState
counted s n = record s { unhealthy_observations = n }

-- Too few observations are counted and nothing else happens.
waits :
    (m : EnrolledMiner) (w : World) (snapshot : MinerSnapshot) (s : MinerRecoveryState)
    → IsIdle m s
    → IsFaulty m s (w, snapshot)
    → s.unhealthy_observations + 1 < m.recovery_policy.consecutive_unhealthy_required
    → (evaluate_snapshot w m snapshot s).state ≡ counted s (s.unhealthy_observations + 1)
unfolding evaluate_snapshot evaluate_cool await_restore await_restart observe observe_unhealthy
    is_calm counted
waits m w snapshot s h f few =
    ground (arith, h.opted_in, h.cool, h.no_restore, h.no_restart, f.0, f.1, few)

-- Counting observations changes nothing that the others look at.
counted-IsFaulty :
    (m : EnrolledMiner) (s : MinerRecoveryState) (n : ℕ) (os : List Observation)
    → All (IsFaulty m s) os
    → All (IsFaulty m (counted s n)) os
unfolding counted in_startup_grace
counted-IsFaulty m s n [] h = tt
counted-IsFaulty m s n (o ∷ os) h = (h.0, counted-IsFaulty m s n os h.1)

counted-IsIdle :
    (m : EnrolledMiner) (s : MinerRecoveryState) (n : ℕ) → IsIdle m s → IsIdle m (counted s n)
unfolding counted
counted-IsIdle m s n h = record {
  opted_in = h.opted_in;
  cool = h.cool;
  no_restore = h.no_restore;
  no_restart = h.no_restart;
}

after-eq-counted :
    (m : EnrolledMiner) (os : List Observation) (s : MinerRecoveryState)
    → IsIdle m s
    → All (IsFaulty m s) os
    → s.unhealthy_observations + length os < m.recovery_policy.consecutive_unhealthy_required
    → after m os s ≡ counted s (s.unhealthy_observations + length os)
unfolding after counted
after-eq-counted m [] s h f few =
    let same : s.unhealthy_observations ≡ s.unhealthy_observations + 0 = omega arith in
    ap (counted s) same
after-eq-counted m ((w, snapshot) ∷ os) s h f few =
    let next = counted s (s.unhealthy_observations + 1) in
    let step = waits m w snapshot s h f.0 (omega (arith, few)) in
    let more =
      after-eq-counted m os next (counted-IsIdle m s (s.unhealthy_observations + 1) h)
        (counted-IsFaulty m s (s.unhealthy_observations + 1) os f.1) (omega (arith, few)) in
    rw step (more ∙ ap (counted s) (omega arith))

-- A fault that lasts leads to a restart: when an idle miner shows faults past its grace in as many
-- evaluations in a row as the policy requires, and at the last of them the cooldown is over and fewer
-- attempts than the limit lie in the window, the last one calls the restart.
pub evaluate_snapshot-after :
    (m : EnrolledMiner) (os : List Observation) (w : World) (snapshot : MinerSnapshot)
    (s : MinerRecoveryState)
    → IsIdle m s
    → All (IsFaulty m s) os
    → IsFaulty m s (w, snapshot)
    → s.unhealthy_observations + length os + 1 ≡ m.recovery_policy.consecutive_unhealthy_required
    → is_in_cooldown s w.now m.recovery_policy.cooldown_seconds ≡ false
    → count (counts_at w.now m.recovery_policy.rolling_window_seconds) s.attempts
      < m.recovery_policy.max_attempts
    → restarts (evaluate_snapshot w m snapshot (after m os s)) ≡ 1
unfolding counted in_startup_grace is_in_cooldown
evaluate_snapshot-after m os w snapshot s h fs f enough over room =
    let waited = counted s (s.unhealthy_observations + length os) in
    rw (after-eq-counted m os s h fs (omega (arith, enough))) (
      ground (
        arith,
        h.opted_in,
        h.cool,
        h.no_restore,
        h.no_restart,
        f.0,
        f.1,
        enough,
        over,
        room,
        evaluate_snapshot-Calls w m snapshot waited,
      ))

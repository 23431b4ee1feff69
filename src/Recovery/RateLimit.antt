-- ===== src/Recovery/RateLimit.antt =====
-- About the restarts in a run of evaluations of one miner under one policy.
use bitaxe_fleet.Prelude.{
  ℕ, ◌≤◌, List, [], ◌∷◌, arith, if◌then◌else◌, ◌==◌, count, Bool-cases, inl, inr,
}
use bitaxe_fleet.Axeos.Models.{Time, MinerSnapshot, EnrolledMiner}
use bitaxe_fleet.Recovery.State.{MinerRecoveryState, counts_at}
use bitaxe_fleet.Recovery.Report.{World}
use bitaxe_fleet.Recovery.Evaluate.{evaluate_snapshot}
use bitaxe_fleet.Recovery.Counting.{restarts}
use bitaxe_fleet.Recovery.Safety.{evaluate_snapshot-Calls}
use bitaxe_fleet.Recovery.Attempts.{evaluate-Counts}

-- What is seen at one evaluation.
abbrev pub Observation : Type 0
Observation = World × MinerSnapshot

-- The times at which a run calls the restart, the latest first.
unfoldable pub run :
    EnrolledMiner
    → List Observation
    → MinerRecoveryState
    → List Time
    → List Time × MinerRecoveryState
run m [] s log = (log, s)
run m ((w, snapshot) ∷ rest) s log =
    let r = evaluate_snapshot w m snapshot s in
    run m rest r.state (if restarts r == 1 then w.now ∷ log else log)

-- The clock never goes back.
abbrev pub Monotone : Time → List Observation → Type 0
Monotone t [] = Unit
Monotone t ((w, _) ∷ rest) = (t ≤ w.now) × Monotone w.now rest

-- Each of the times, the latest first, has at most `limit` times in the window that it ends.
abbrev pub RateLimited : ℕ → ℕ → List Time → Type 0
RateLimited window limit [] = Unit
RateLimited window limit (t ∷ older) =
    (count (counts_at t window) (t ∷ older) ≤ limit) × RateLimited window limit older

-- The log counts no more than the kept attempts do, from a time on.
abbrev Covered : ℕ → Time → List Time → MinerRecoveryState → Type 0
Covered window now log s =
    (later : Time)
    → now ≤ later
    → count (counts_at later window) log ≤ count (counts_at later window) s.attempts

-- Over any run of evaluations of one miner under one policy, while the clock never goes back and from
-- any state, each restart that the run calls is among at most the allowed number of restarts in the
-- rolling window that ends with it.
pub run-RateLimited :
    (m : EnrolledMiner) (observations : List Observation) (s : MinerRecoveryState) (start : Time)
    → Monotone start observations
    → let (log, s') = run m observations s [] in
      RateLimited m.recovery_policy.rolling_window_seconds m.recovery_policy.max_attempts log
unfolding count run
run-RateLimited m observations s start h = go observations s [] start h (λ later _. omega arith) tt
  where
    window : ℕ
    window = m.recovery_policy.rolling_window_seconds

    limit : ℕ
    limit = m.recovery_policy.max_attempts

    go :
        (os : List Observation) (s : MinerRecoveryState) (log : List Time) (now : Time)
        → Monotone now os
        → Covered window now log s
        → RateLimited window limit log
        → RateLimited window limit (run m os s log).0
    go [] s log now mono covered h = h
    go ((w, snapshot) ∷ rest) s log now mono covered h =
        elim (Bool-cases (restarts (evaluate_snapshot w m snapshot s) == 1)) [
          | inl called ↦
              rw (run, called)
                (go rest _ (w.now ∷ log) w.now mono.1
                  (λ later le. ground (
                    arith,
                    called,
                    evaluate-Counts w m snapshot s later le,
                    covered later (omega (arith, mono.0, le)),
                  ))
                  (
                    (ground (
                      arith,
                      called,
                      covered w.now mono.0,
                      evaluate_snapshot-Calls w m snapshot s,
                    )),
                    h,
                  ))
          | inr silent ↦
              rw (run, silent)
                (go rest _ log w.now mono.1
                  (λ later le. ground (
                    arith,
                    silent,
                    evaluate-Counts w m snapshot s later le,
                    covered later (omega (arith, mono.0, le)),
                  ))
                  h)
        ]

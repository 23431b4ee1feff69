-- ===== src/Recovery/Lifecycle.antt =====
-- The engine's own operations: coalesced tasks, forgotten states and the end.
use bitaxe_fleet.Prelude.{
  ℕ, ◌≡◌, ◌<◌, refl, Bool, true, false, ◌&&◌, Option, none, some, List, [], ◌∷◌, ◌++◌, arith,
  if◌then◌else◌,
}
use bitaxe_fleet.Python.Text.{text_eq, text_eq_refl}
use bitaxe_fleet.Python.Dict.{lookup, erase, lookup-insert, lookup-erase}
use bitaxe_fleet.Axeos.Models.{MinerId, MinerSnapshot, EnrolledMiner}
use bitaxe_fleet.Storage.State.{add_id}
use bitaxe_fleet.Recovery.Report.{Event, World}
use bitaxe_fleet.Recovery.Evaluate.{evaluate_snapshot}
use bitaxe_fleet.Recovery.Engine.{
  RecoveryEngine, Providers, forget_state, schedule, task_done, forget_miner, close, state_of,
  is_opted_in, evaluate, evaluate_found, evaluate_miner,
}

-- A call of the engine.
pub data Command : Type 0 where
  scheduled forgotten : MinerId → Command
  done : MinerId → ℕ → Command
  evaluated : World → Providers → MinerId → Command
  closing : Command

pub step : Command → RecoveryEngine → RecoveryEngine × List Event
step (scheduled k) e = (schedule k e, [])
step (forgotten k) e = (forget_miner k e, [])
step (done k task) e = (task_done k task e, [])
step (evaluated w p k) e = evaluate w p k e
step closing e = (close e, [])

-- The engine after some calls, and the callbacks they made.
pub steps : List Command → RecoveryEngine → RecoveryEngine × List Event
unfolding step
steps [] e = (e, [])
steps (c ∷ cs) e =
    let (e', events) = step c e in let (e'', later) = steps cs e' in (e'', events ++ later)

-- Nothing is kept of any miner.
abbrev pub IsEnded : RecoveryEngine → Type 0
IsEnded e = (e.closed ≡ true) × (e.states ≡ []) × (e.tasks ≡ [])

step-IsEnded :
    (c : Command) (e : RecoveryEngine) → IsEnded e → IsEnded (step c e).0 × ((step c e).1 ≡ [])
unfolding step schedule forget_miner forget_state task_done evaluate close erase lookup
step-IsEnded (scheduled k) e h = ground (arith, h)
step-IsEnded (forgotten k) e h = ground (arith, h)
step-IsEnded (done k task) e h = ground (arith, h)
step-IsEnded (evaluated w p k) e h = ground (arith, h)
step-IsEnded closing e h = ground (arith, h)

steps-IsEnded :
    (cs : List Command) (e : RecoveryEngine)
    → IsEnded e
    → IsEnded (steps cs e).0 × ((steps cs e).1 ≡ [])
unfolding steps
steps-IsEnded [] e h = (h, refl)
steps-IsEnded (c ∷ cs) e h =
    let (ended, silent) = step-IsEnded c e h in
    let (ended', silent') = steps-IsEnded cs (step c e).0 ended in
    (ended', rw (silent, silent') refl)

close-IsEnded : (e : RecoveryEngine) → e.closed ≡ false → IsEnded (close e)
unfolding close
close-IsEnded e h = rw h (refl, refl, refl)

-- Once an open engine is closed, no sequence of calls, evaluations with any snapshots included, makes
-- a callback, keeps a state or starts a task, and the engine stays closed.
pub close_silences :
    (cs : List Command) (e : RecoveryEngine)
    → e.closed ≡ false
    → let (e', events) = steps cs (close e) in IsEnded e' × (events ≡ [])
close_silences cs e h = steps-IsEnded cs (close e) (close-IsEnded e h)

-- Whether a miner is at hand that is enabled and opts in, with a snapshot.
abbrev pub is_ready : Option EnrolledMiner → Option MinerSnapshot → Bool
is_ready (some m) (some _) = m.enabled && is_opted_in m
is_ready _ _ = false

found_lem :
    (w : World) (p : Providers) (k j : MinerId) (m : Option EnrolledMiner)
    (snapshot : Option MinerSnapshot) (e : RecoveryEngine)
    → is_ready m snapshot ≡ false
    → let (e', events) = evaluate_found w p k m snapshot e in
      (events ≡ []) × (lookup j e'.states ≡ (if text_eq j k then none else lookup j e.states))
unfolding evaluate_found evaluate_miner forget_state
found_lem w p k j none snapshot e h = (refl, lookup-erase k j e.states)
found_lem w p k j (some m) none e h = (refl, lookup-erase k j e.states)
found_lem w p k j (some m) (some snapshot) e h = ground (arith, lookup-erase k j e.states)

found_others :
    (w : World) (p : Providers) (k j : MinerId) (m : Option EnrolledMiner)
    (snapshot : Option MinerSnapshot) (e : RecoveryEngine)
    → text_eq j k ≡ false
    → lookup j (evaluate_found w p k m snapshot e).0.states ≡ lookup j e.states
unfolding evaluate_found evaluate_miner forget_state
found_others w p k j none snapshot e h = ground (arith, lookup-erase k j e.states)
found_others w p k j (some m) none e h = ground (arith, lookup-erase k j e.states)
found_others w p k j (some m) (some snapshot) e h = ground (
  arith,
  lookup-erase k j e.states,
  lookup-insert k j
      (evaluate_snapshot (record w { subject = k }) m snapshot
        (state_of k w.now m p (lookup k e.states))).state
      e.states,
)

-- The evaluation of a miner that is unknown, without a snapshot, disabled or opted in to nothing makes
-- no callback, forgets its state and keeps the states of the others, where the engine is open.
pub evaluate_lem :
    (w : World) (p : Providers) (k j : MinerId) (e : RecoveryEngine)
    → e.closed ≡ false
    → is_ready (p.miner k) (p.snapshot k) ≡ false
    → let (e', events) = evaluate w p k e in
      (events ≡ []) × (lookup j e'.states ≡ (if text_eq j k then none else lookup j e.states))
unfolding evaluate
evaluate_lem w p k j e h unready = ground (
  arith,
  found_lem w p k j (p.miner k) (p.snapshot k) (record e { locks = add_id k e.locks }) unready,
)

-- The evaluation of one miner leaves the recovery state of every other miner as it was, whatever is
-- seen, done or raised.
pub evaluate_others :
    (w : World) (p : Providers) (k j : MinerId) (e : RecoveryEngine)
    → text_eq j k ≡ false
    → lookup j (evaluate w p k e).0.states ≡ lookup j e.states
unfolding evaluate
evaluate_others w p k j e h = ground (
  arith,
  found_others w p k j (p.miner k) (p.snapshot k) (record e { locks = add_id k e.locks }) h,
)

-- When a miner with a running task is forgotten and scheduled anew, in an open engine whose counter is
-- past that task, a second call of schedule changes nothing, and the end of the cancelled task leaves
-- the new one in its place.
pub schedule_replaces :
    (k : MinerId) (task : ℕ) (e : RecoveryEngine)
    → e.closed ≡ false
    → lookup k e.tasks ≡ some task
    → task < e.next_task
    → let e' = schedule k (forget_miner k e) in
      (lookup k e'.tasks ≡ some e.next_task) × (schedule k e' ≡ e') × (task_done k task e' ≡ e')
unfolding schedule forget_miner forget_state task_done
schedule_replaces k task e h running fresh = ground (
  arith,
  text_eq_refl k,
  lookup-erase k k e.tasks,
  lookup-insert k k e.next_task (erase k e.tasks),
)

-- ===== src/Recovery/Report.antt =====
-- recovery.py: what one evaluation is given by its callbacks, and what it reports: the calls that it makes
-- are its events.
use bitaxe_fleet.Prelude.{Bool, true, List, [], ◌∷◌, ◌++◌, if◌then◌else◌}
use bitaxe_fleet.Python.Text.{Text}
use bitaxe_fleet.Axeos.Models.{MinerId, Time}
use bitaxe_fleet.Recovery.State.{RecoveryActionOutcome, MinerRecoveryState}

-- A call of a callback.
pub data Event : Type 0 where
  incident : MinerId → Text → Text → Text → Event
  restart : MinerId → Event
  restore : MinerId → Event

-- How the awaited restart ends: with an outcome, or with an exception.
pub data RestartReply : Type 0 where
  replied : RecoveryActionOutcome → RestartReply
  raised : RestartReply

-- How the awaited restore ends: with its result, by the time limit, or with another exception.
pub data RestoreReply : Type 0 where
  restored : Bool → RestoreReply
  timed_out : RestoreReply
  restore_raised : RestoreReply

-- The id that is evaluated, and what the clock and the callbacks answer during the evaluation.
-- `records cause outcome` tells whether the recorder returns or raises.
pub record World : Type 0 where
  pub subject : MinerId
  pub now : Time
  pub restart_reply : RestartReply
  pub restore_reply : RestoreReply
  pub records : Text → Text → Bool

-- The miner's state and the calls made when the evaluation ends, and whether it ends without an exception.
pub record Report : Type 0 where
  pub state : MinerRecoveryState
  pub events : List Event
  pub finished : Bool

abbrev pub quiet : MinerRecoveryState → Report
quiet s = record { state = s; events = []; finished = true }

-- Further work, unless an exception is on its way.
abbrev pub and_then : Report → (MinerRecoveryState → Report) → Report
and_then r k =
    if r.finished
    then record {
      state = (k r.state).state;
      events = r.events ++ (k r.state).events;
      finished = (k r.state).finished;
    }
    else r

-- `await self._record_incident(...)`
abbrev pub record_incident : World → MinerId → Text → Text → Text → MinerRecoveryState → Report
record_incident w k cause outcome detail s = record {
  state = s;
  events = incident k cause outcome detail ∷ [];
  finished = w.records cause outcome;
}

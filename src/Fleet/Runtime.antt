-- ===== src/Fleet/Runtime.antt =====
-- runtime.py: `BitaxeFleetRuntime`. The listeners that it registers are kept by their ids; when the
-- base class calls them is an event of its own. Discovery is modelled with its manager.
pub mod Methods
pub mod Release
use bitaxe_fleet.Prelude.{Bool, true, not, Option, none, some, List, [], ◌∷◌, arith, if◌then◌else◌}
use bitaxe_fleet.Python.Text.{codes}
use bitaxe_fleet.Python.Dict.{Dict, lookup, insert, erase}
use bitaxe_fleet.Axeos.Errors.{Result}
use bitaxe_fleet.Axeos.Models.{MinerId, MinerSnapshot, EnrolledMiner}
use bitaxe_fleet.Storage.State.{MinerRegistry, IdSet, discard_id}
use bitaxe_fleet.Recovery.Engine.{RecoveryEngine, schedule, forget_miner}
use bitaxe_fleet.Recovery.Engine
use bitaxe_fleet.Fleet.Aggregates.{FleetAggregates}
use bitaxe_fleet.Fleet.Device.{History}
use bitaxe_fleet.Fleet.Coordinator.{
  Trouble, fleet_action, arithmetic_error, Ending, failed, returned, MinerCoordinator, Act,
  of_result, snapshot,
}

pub record Runtime : Type 0 where
  pub registry : MinerRegistry
  pub history : History
  pub coordinators : Dict MinerCoordinator
  pub recovery : RecoveryEngine
  pub recovery_listeners : IdSet
  pub fleet_listeners : IdSet
  pub aggregates : FleetAggregates
  pub added : List MinerId
  pub closed : Bool

abbrev pub Op : Type 0 → Type 0
Op A = Runtime → Ending A × Runtime

abbrev pub go_on : {A B : Type 0} → Ending A → (A → Op B) → Op B
go_on (returned a) f r = f a r
go_on (failed t) f r = (failed t, r)

infixl 5 ◌>>=◌ ◌>>◌
abbrev pub ◌>>=◌ : {A B : Type 0} → Op A → (A → Op B) → Op B
◌>>=◌ m f r = go_on (m r).0 f (m r).1

abbrev pub ◌>>◌ : {B : Type 0} → Op (Unit {0}) → Op B → Op B
m >> k = m >>= λ _. k

abbrev pub pure : {A : Type 0} → A → Op A
pure a r = (returned a, r)

abbrev pub fail : {A : Type 0} → Trouble → Op A
fail t r = (failed t, r)

abbrev pub modify : (Runtime → Runtime) → Op (Unit {0})
modify f r = (returned tt, f r)

-- A call of the registry.
abbrev pub store : {A : Type 0} → (MinerRegistry → Result A × MinerRegistry) → Op A
store method r =
    let (result, registry) = method r.registry in
    (of_result result, record r { registry = registry })

-- A method on a coordinator that is there.
unfoldable pub run_on : {A : Type 0} → MinerId → MinerCoordinator → Act A → Op A
run_on k c m r =
    let (result, x) = m (record { coordinator = c; registry = r.registry; history = r.history }) in
    (
      result,
      record r {
        coordinators = insert k x.coordinator r.coordinators;
        registry = x.registry;
        history = x.history;
      },
    )

unfoldable pub run_found : {A : Type 0} → MinerId → Option MinerCoordinator → Act A → Op A
unfolding run_on
run_found k none m = fail (fleet_action (codes "miner is unavailable or disabled"))
run_found k (some c) m = run_on k c m

-- A method behind `_require_coordinator`
unfoldable pub on_coordinator : {A : Type 0} → MinerId → Act A → Op A
unfolding run_found
on_coordinator k m r = run_found k (lookup k r.coordinators) m r

-- `registry.miners`
unfoldable pub values : Dict EnrolledMiner → List EnrolledMiner
values [] = []
values ((k, m) ∷ d) = m ∷ values d

-- The snapshot of a coordinator whose last update succeeded: `_snapshot_for_recovery`.
unfoldable pub live_snapshot : Option MinerCoordinator → Option MinerSnapshot
live_snapshot none = none
live_snapshot (some c) = if not c.polled.last_update_success then none else snapshot c

unfoldable pub snapshot_for_recovery : MinerId → Runtime → Option MinerSnapshot
unfolding live_snapshot
snapshot_for_recovery k r = live_snapshot (lookup k r.coordinators)

abbrev pub cons_some : Option MinerSnapshot → List MinerSnapshot → List MinerSnapshot
cons_some none ss = ss
cons_some (some s) ss = s ∷ ss

unfoldable pub live_snapshots : List EnrolledMiner → Runtime → List MinerSnapshot
unfolding snapshot_for_recovery
live_snapshots [] r = []
live_snapshots (m ∷ ms) r =
    cons_some (snapshot_for_recovery m.identity.miner_id r) (live_snapshots ms r)

abbrev pub put_aggregates : Option FleetAggregates → Op (Unit {0})
put_aggregates none = fail arithmetic_error
put_aggregates (some a) = modify (λ r. record r { aggregates = a })

-- the listeners of a coordinator are dropped
abbrev pub unsubscribe : MinerId → Runtime → Runtime
unsubscribe k r = record r {
  recovery = forget_miner k r.recovery;
  recovery_listeners = discard_id k r.recovery_listeners;
  fleet_listeners = discard_id k r.fleet_listeners;
}

abbrev pub drop_coordinator : MinerId → Runtime → Runtime
drop_coordinator k r = record r { coordinators = erase k r.coordinators }

-- `async_close`; the discovery manager is stopped by its own operation.
unfoldable pub close : Runtime → Runtime
close r = if r.closed then r else record r {
  closed = true;
  recovery = Engine.close r.recovery;
  recovery_listeners = [];
  fleet_listeners = [];
  coordinators = [];
}

-- the listener that schedules an evaluation
abbrev pub recovery_listener : MinerId → Runtime → Runtime
recovery_listener k r = record r { recovery = schedule k r.recovery }

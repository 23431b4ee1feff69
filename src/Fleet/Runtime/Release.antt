-- ===== src/Fleet/Runtime/Release.antt =====
-- What the runtime keeps of a miner that is removed or disabled.
use bitaxe_fleet.Prelude.{◌≡◌, refl, ap, ◌∙◌, Bool, true, false, Option, none, some, if◌then◌else◌}
use bitaxe_fleet.Python.Text.{text_eq, text_eq_refl}
use bitaxe_fleet.Python.Library.{Library}
use bitaxe_fleet.Python.Dict.{Dict, lookup, erase, lookup-erase}
use bitaxe_fleet.Axeos.Errors.{Result, ok, err}
use bitaxe_fleet.Axeos.Models.{MinerId, Time, EnrolledMiner}
use bitaxe_fleet.Storage.State.{MinerRegistry, IdSet, contains_id, discard_id}
use bitaxe_fleet.Storage.RoundTrip.Ids.{contains_id-discard_id}
use bitaxe_fleet.Storage.Operations
use bitaxe_fleet.Storage.Operations.Effects.Settings.{Removed, remove_lem}
use bitaxe_fleet.Recovery.Engine.{forget_miner, forget_state}
use bitaxe_fleet.Fleet.Aggregates.{Arithmetic, FleetAggregates, calculate_fleet_aggregates}
use bitaxe_fleet.Fleet.Device.{DeviceClient}
use bitaxe_fleet.Fleet.Coordinator.{UpdateCoordinator, of_result}
use bitaxe_fleet.Fleet.Runtime.{
  Runtime, go_on, ◌>>◌, pure, live_snapshot, snapshot_for_recovery, put_aggregates, unsubscribe,
  drop_coordinator,
}
use bitaxe_fleet.Fleet.Runtime.Methods.{
  refresh_fleet_aggregates, remove_miner, follow_enabled, set_enabled,
}

-- Nothing that is live is left of a miner, and the coordinators of the others stay.
pub record IsReleased (k : MinerId) (r r' : Runtime) : Type 0 where
  pub no_coordinator : lookup k r'.coordinators ≡ none
  pub no_snapshot : snapshot_for_recovery k r' ≡ none
  pub others :
      (j : MinerId) → text_eq j k ≡ false → lookup j r'.coordinators ≡ lookup j r.coordinators
  pub not_evaluated : contains_id k r'.recovery_listeners ≡ false
  pub not_totalled : contains_id k r'.fleet_listeners ≡ false
  pub no_state : lookup k r'.recovery.states ≡ none
  pub no_task : lookup k r'.recovery.tasks ≡ none

erased {ℓ} : {V : Type ℓ} (k : MinerId) (d : Dict V) → lookup k (erase k d) ≡ none
erased k d = lookup-erase k k d ∙ ap (λ (b : Bool). if b then none else lookup k d) (text_eq_refl k)

discarded : (k : MinerId) (s : IdSet) → contains_id k (discard_id k s) ≡ false
discarded k s =
    contains_id-discard_id k k s
    ∙ ap (λ (b : Bool). if b then false else contains_id k s) (text_eq_refl k)

dropped-IsReleased :
    (k : MinerId) (r : Runtime) → IsReleased k r (drop_coordinator k (unsubscribe k r))
unfolding snapshot_for_recovery live_snapshot forget_miner forget_state
dropped-IsReleased k r = record {
  no_coordinator = erased k r.coordinators;
  no_snapshot = rw (erased k r.coordinators) refl;
  others = λ j e. lookup-erase k j r.coordinators ∙ rw e refl;
  not_evaluated = discarded k r.recovery_listeners;
  not_totalled = discarded k r.fleet_listeners;
  no_state = erased k r.recovery.states;
  no_task = erased k r.recovery.tasks;
}

-- What is released stays so when the registry and the totals change.
kept :
    (k : MinerId) (r r' : Runtime) (registry : MinerRegistry) (a : FleetAggregates)
    → IsReleased k r r'
    → IsReleased k r (record r' { registry = registry; aggregates = a })
unfolding snapshot_for_recovery
kept k r r' registry a v = record {
  no_coordinator = v.no_coordinator;
  no_snapshot = v.no_snapshot;
  others = v.others;
  not_evaluated = v.not_evaluated;
  not_totalled = v.not_totalled;
  no_state = v.no_state;
  no_task = v.no_task;
}

module _ (lib : Library) (u : UpdateCoordinator) (client : DeviceClient) (math : Arithmetic) where
  -- The totals change nothing else, and what follows them is not reached if they raise.
  totalled :
      {A : Type 0} (P : Runtime → Type 0) (b : A) (r : Runtime)
      → ((a : FleetAggregates) → P (record r { aggregates = a }))
      → P ((refresh_fleet_aggregates lib u client math >> pure b) r).1
  unfolding refresh_fleet_aggregates
  totalled P b r h = put (calculate_fleet_aggregates math _ _)
    where
      put :
          (o : Option FleetAggregates)
          → P (go_on (put_aggregates o r).0 (λ _. pure b) (put_aggregates o r).1).1
      put none = h r.aggregates
      put (some a) = h a

  erased_after :
      (k : MinerId) (r : MinerRegistry) (o : Option EnrolledMiner)
      → lookup k r.miners ≡ o
      → (x : Result Bool × MinerRegistry) → Removed lib k o r x
      → lookup k x.1.miners ≡ none
  erased_after k r none e x (_, same) = ap (λ (y : MinerRegistry). lookup k y.miners) same ∙ e
  erased_after k r (some m) e x (_, (changes, _, _)) =
      changes k ∙ ap (λ (b : Bool). if b then none else lookup k r.miners) (text_eq_refl k)

  -- Removing a miner releases it, whether the totals can be computed or not, and a loaded registry
  -- does not know it any more.
  pub remove_miner_lem :
      (k : MinerId) (r : Runtime)
      → r.registry.loaded ≡ true
      → let r' = (remove_miner lib u client math k r).1 in
        IsReleased k r r' × (lookup k r'.registry.miners ≡ none)
  unfolding remove_miner
  remove_miner_lem k r loaded = ended (Operations.remove lib k r.registry) (
      erased_after k r.registry (lookup k r.registry.miners) refl
        (Operations.remove lib k r.registry) (remove_lem lib k r.registry loaded))
    where
      released : IsReleased k r (drop_coordinator k (unsubscribe k r))
      released = dropped-IsReleased k r

      ended :
          (x : Result Bool × MinerRegistry)
          → lookup k x.1.miners ≡ none
          → let r₁ = record (drop_coordinator k (unsubscribe k r)) { registry = x.1 } in
            let r' =
              (go_on
                (of_result x.0)
                (λ removed. refresh_fleet_aggregates lib u client math >> pure removed)
                r₁).1 in
            IsReleased k r r' × (lookup k r'.registry.miners ≡ none)
      ended (err e, registry) gone = (kept k r _ registry r.aggregates released, gone)
      ended (ok b, registry) gone =
          totalled (λ x. IsReleased k r x × (lookup k x.registry.miners ≡ none)) b _
            (λ a. (kept k r _ registry a released, gone))

  -- Disabling a miner that the registry knows releases it, whether the totals can be computed or not.
  pub disable_lem :
      (now : Time) (k : MinerId) (r : Runtime) (miner : EnrolledMiner)
      → (Operations.set_enabled lib k false r.registry).0 ≡ ok miner
      → IsReleased k r (set_enabled lib u client math now k false r).1
  unfolding set_enabled
  disable_lem now k r miner e = ended (Operations.set_enabled lib k false r.registry) e
    where
      ended :
          (x : Result EnrolledMiner × MinerRegistry)
          → x.0 ≡ ok miner
          → IsReleased k r
              (go_on
                (of_result x.0)
                (λ m.
                  (λ s. follow_enabled lib u client math now k false m (lookup k s.coordinators) s)
                  >> (refresh_fleet_aggregates lib u client math >> pure m))
                (record r { registry = x.1 })).1
      ended (err f, registry) h = cc
      ended (ok m, registry) h =
          unfold follow_enabled in
          totalled (IsReleased k r) m _ (λ a. kept k r _ registry a (dropped-IsReleased k r))

-- ===== src/Discovery/Tests.antt =====
-- A manager with one candidate, and the theorems of the discovery at it.
use mathlib.Core.Option
use bitaxe_fleet.Prelude.{true, false, none, List, [], ◌∷◌, refl, arith}
use bitaxe_fleet.Python.Dict.{lookup}
use bitaxe_fleet.Python.Tests.{plain_library}
use bitaxe_fleet.Axeos.Errors.{ok}
use bitaxe_fleet.Axeos.Parser.SystemInfo.Tests.{bare_snapshot, miner_a}
use bitaxe_fleet.Storage.State.{MinerRegistry, contains_id}
use bitaxe_fleet.Discovery.Manager.{
  DiscoveryManager, DiscoveryCandidate, Client, mdns, manual, from_snapshot, approve_candidate,
}
use bitaxe_fleet.Discovery.Consent.{IsConsistent, Approval, approve_candidate_lem}
use bitaxe_fleet.Discovery.Decisions.{
  Operation, probing, approving, rejecting, perform_all, perform_all-IsConsistent,
}

abbrev pub empty_registry : MinerRegistry
empty_registry = record {
  miners = [];
  rejected_candidates = [];
  incidents = [];
  loaded = true;
  document = none;
}

abbrev pub manager : DiscoveryManager
manager = record {
  candidates = (miner_a, from_snapshot bare_snapshot manual) ∷ [];
  closed = false;
  registry = empty_registry;
  calls = [];
}

abbrev reachable : Client
reachable endpoint = ok bare_snapshot

manager-IsConsistent : IsConsistent manager
unfolding lookup contains_id
manager-IsConsistent = record { running = refl; undecided = λ k. ground arith }

approve_candidate_lem_example :
    Approval plain_library miner_a
      (Option.map
        (λ (c : DiscoveryCandidate). reachable c.endpoint)
        (lookup miner_a manager.candidates))
      manager
      (approve_candidate plain_library reachable miner_a manager)
approve_candidate_lem_example = approve_candidate_lem plain_library reachable miner_a manager refl

abbrev operations : List Operation
operations =
    probing reachable bare_snapshot.endpoint mdns
    ∷ approving reachable miner_a
    ∷ rejecting miner_a
    ∷ []

perform_all-IsConsistent_example : IsConsistent (perform_all plain_library operations manager)
perform_all-IsConsistent_example =
    perform_all-IsConsistent plain_library operations manager manager-IsConsistent

-- ===== src/Discovery/Manager.antt =====
-- discovery/models.py and discovery/manager.py: candidates and the three operations on them. An operation
-- is one step; the client that reads a miner is an argument, and the two callbacks return.
use bitaxe_fleet.Prelude.{
  Bool, true, false, not, Option, none, some, List, [], ◌∷◌, ◌++◌, if◌then◌else◌,
}
use bitaxe_fleet.Python.Text.{text_eq}
use bitaxe_fleet.Python.Dict.{Dict, lookup, insert, erase}
use bitaxe_fleet.Python.Library.{Library}
use bitaxe_fleet.Axeos.Errors.{Error, is_axeos_error, Result, ok, err}
use bitaxe_fleet.Axeos.Models.{
  MinerId, Time, MinerEndpoint, MinerIdentity, MinerSnapshot, EnrolledMiner,
}
use bitaxe_fleet.Storage.State.{MinerRegistry, contains_id}
use bitaxe_fleet.Storage.Operations

pub data DiscoverySource : Type 0 where
  mdns active_scan manual : DiscoverySource

pub record DiscoveryCandidate : Type 0 where
  pub endpoint : MinerEndpoint
  pub identity : MinerIdentity
  pub first_seen_at : Time
  pub last_seen_at : Time
  pub source : DiscoverySource

-- `DiscoveryCandidate.from_snapshot`
abbrev pub from_snapshot : MinerSnapshot → DiscoverySource → DiscoveryCandidate
from_snapshot snapshot source = record {
  endpoint = snapshot.endpoint;
  identity = snapshot.identity;
  first_seen_at = snapshot.observed_at;
  last_seen_at = snapshot.observed_at;
  source = source;
}

-- `DiscoveryCandidate.updated`
abbrev pub updated : DiscoveryCandidate → MinerSnapshot → DiscoverySource → DiscoveryCandidate
updated previous snapshot source = record {
  endpoint = snapshot.endpoint;
  identity = snapshot.identity;
  first_seen_at = previous.first_seen_at;
  last_seen_at = snapshot.observed_at;
  source = source;
}

-- The errors that an operation raises, its own and those that pass through it.
pub data DiscoveryFailure : Type 0 where
  candidate_not_found candidate_changed not_revalidated not_running scan_in_progress :
      DiscoveryFailure
  passed : Error → DiscoveryFailure

pub data Outcome (A : Type 0) : Type 0 where
  failure : DiscoveryFailure → Outcome A
  success : A → Outcome A

-- A call of one of the two callbacks.
pub data Call : Type 0 where
  known_snapshot : MinerSnapshot → EnrolledMiner → Call
  approved : EnrolledMiner → Call

-- `DiscoveryManager` with the registry that it shares and the calls that it made.
pub record DiscoveryManager : Type 0 where
  pub candidates : Dict DiscoveryCandidate
  pub closed : Bool
  pub registry : MinerRegistry
  pub calls : List Call

-- `async_get_system_info` of the client for an endpoint.
abbrev pub Client : Type 0
Client = MinerEndpoint → Result MinerSnapshot

abbrev pub merged : Option DiscoveryCandidate → MinerSnapshot → DiscoverySource → DiscoveryCandidate
merged none snapshot source = from_snapshot snapshot source
merged (some previous) snapshot source = updated previous snapshot source

-- `self._candidates.pop(miner_id, None)`
abbrev pub drop_candidate : MinerId → DiscoveryManager → DiscoveryManager
drop_candidate k d = record d { candidates = erase k d.candidates }

-- what follows the update of a known miner
unfoldable pub known_updated :
    MinerSnapshot
    → Result (Option EnrolledMiner)
    → DiscoveryManager
    → Outcome Bool × DiscoveryManager
known_updated snapshot (err e) d = (failure (passed e), d)
known_updated snapshot (ok none) d = (success false, d)
known_updated snapshot (ok (some m)) d =
    (success false, record d { calls = d.calls ++ known_snapshot snapshot m ∷ [] })

module _ (lib : Library) where
  -- a snapshot is routed by its permanent id
  unfoldable pub route :
      DiscoverySource
      → MinerSnapshot
      → Option EnrolledMiner
      → DiscoveryManager
      → Outcome Bool × DiscoveryManager
  route source snapshot (some enrolled) d =
      let (result, registry) = Operations.update_from_snapshot lib snapshot d.registry in
      known_updated snapshot result (record d { registry = registry })
  route source snapshot none d =
      let k = snapshot.identity.miner_id in
      if contains_id k d.registry.rejected_candidates then (success false, d) else (
        success true,
        record d {
          candidates = insert k (merged (lookup k d.candidates) snapshot source) d.candidates;
        },
      )

  unfoldable pub probed :
      DiscoverySource → Result MinerSnapshot → DiscoveryManager → Outcome Bool × DiscoveryManager
  probed source (err e) d = if is_axeos_error e then (success false, d) else (failure (passed e), d)
  probed source (ok snapshot) d =
      route source snapshot (lookup snapshot.identity.miner_id d.registry.miners) d

  -- `_async_probe_endpoint`
  unfoldable pub probe_endpoint :
      Client → MinerEndpoint → DiscoverySource → DiscoveryManager → Outcome Bool × DiscoveryManager
  probe_endpoint client endpoint source d =
      if d.closed then (success false, d) else probed source (client endpoint) d

  -- what follows the enrollment
  unfoldable pub approval_ended :
      MinerId → Result EnrolledMiner → DiscoveryManager → Outcome EnrolledMiner × DiscoveryManager
  approval_ended k (err e) d = (failure (passed e), d)
  approval_ended k (ok m) d =
      (success m, record (drop_candidate k d) { calls = d.calls ++ approved m ∷ [] })

  unfoldable pub revalidated :
      MinerId → Result MinerSnapshot → DiscoveryManager → Outcome EnrolledMiner × DiscoveryManager
  revalidated k (err e) d = (failure (if is_axeos_error e then not_revalidated else passed e), d)
  revalidated k (ok snapshot) d =
      if not (text_eq snapshot.identity.miner_id k)
      then (failure candidate_changed, drop_candidate k d)
      else (let (result, registry) = Operations.enroll lib snapshot d.registry in
          approval_ended k result (record d { registry = registry }))

  unfoldable pub approve_found :
      Client
      → MinerId
      → Option DiscoveryCandidate
      → DiscoveryManager
      → Outcome EnrolledMiner × DiscoveryManager
  approve_found client k none d = (failure candidate_not_found, d)
  approve_found client k (some candidate) d = revalidated k (client candidate.endpoint) d

  -- `async_approve_candidate`
  unfoldable pub approve_candidate :
      Client → MinerId → DiscoveryManager → Outcome EnrolledMiner × DiscoveryManager
  approve_candidate client k d = approve_found client k (lookup k d.candidates) d

  unfoldable pub rejection_ended :
      MinerId → Result (Unit {0}) → DiscoveryManager → Outcome (Unit {0}) × DiscoveryManager
  rejection_ended k (err e) d = (failure (passed e), d)
  rejection_ended k (ok _) d = (success tt, drop_candidate k d)

  -- `async_reject_candidate`
  unfoldable pub reject_candidate :
      MinerId → DiscoveryManager → Outcome (Unit {0}) × DiscoveryManager
  reject_candidate k d =
      let (result, registry) = Operations.reject_candidate lib k d.registry in
      rejection_ended k result (record d { registry = registry })

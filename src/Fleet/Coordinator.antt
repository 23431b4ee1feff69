-- ===== src/Fleet/Coordinator.antt =====
-- coordinator.py: `MinerCoordinator` over the attributes of Home Assistant's `DataUpdateCoordinator`
-- that it reads. What a refresh and a publication make of those is a parameter. A method runs on the
-- coordinator, the registry and what was asked of the miners.
pub mod Methods
use bitaxe_fleet.Prelude.{◌≡◌, Bool, true, false, Option, none, some, [], ◌∷◌, ◌++◌, if◌then◌else◌}
use bitaxe_fleet.Python.Text.{Text}
use bitaxe_fleet.Axeos.Errors.{Result, ok, err}
use bitaxe_fleet.Axeos.Models.{Time, MinerEndpoint, MinerSnapshot, EnrolledMiner, AsicCapabilities}
use bitaxe_fleet.Axeos.Client.{Fault, axeos, Attempt, raised, done}
use bitaxe_fleet.Storage.State.{MinerRegistry}
use bitaxe_fleet.Storage.Operations
use bitaxe_fleet.Fleet.Device.{Command, History}

-- What a method raises: a `FleetActionError`, an `UpdateFailed`, a `RuntimeError`, an
-- `ArithmeticError` of the totals, an error of the
-- registry or of axeos/errors.py, or a fault of the client.
pub data Trouble : Type 0 where
  fleet_action : Text → Trouble
  update_failed runtime_error arithmetic_error : Trouble
  fault : Fault → Trouble

pub data Ending (A : Type 0) : Type 0 where
  failed : Trouble → Ending A
  returned : A → Ending A

-- `data` and `last_update_success` of the base class.
pub record Polled : Type 0 where
  pub latest : Option MinerSnapshot
  pub last_update_success : Bool

-- `async_refresh`, after `_async_update_data` has returned a snapshot or raised, and
-- `async_set_updated_data`.
pub record UpdateCoordinator : Type 0 where
  pub refreshed : Option MinerSnapshot → Polled → Polled
  pub published : MinerSnapshot → Polled → Polled

-- What Home Assistant documents: a refresh that fails keeps the data, and one that succeeds replaces it.
pub record IsUpdateCoordinator (u : UpdateCoordinator) : Type 0 where
  pub succeeds :
      (s : MinerSnapshot) (p : Polled)
      → u.refreshed (some s) p ≡ record { latest = some s; last_update_success = true }
  pub fails :
      (p : Polled) → u.refreshed none p ≡ record { latest = p.latest; last_update_success = false }
  pub publishes :
      (s : MinerSnapshot) (p : Polled)
      → u.published s p ≡ record { latest = some s; last_update_success = true }

-- `client_endpoint` is the endpoint of `_client`.
pub record MinerCoordinator : Type 0 where
  pub miner : EnrolledMiner
  pub capabilities : Option AsicCapabilities
  pub client_endpoint : MinerEndpoint
  pub has_snapshot : Bool
  pub last_success_at : Option Time
  pub polled : Polled

-- The constructor; the base class starts with no data and `last_update_success`.
abbrev pub new_coordinator : EnrolledMiner → MinerCoordinator
new_coordinator miner = record {
  miner = miner;
  capabilities = none;
  client_endpoint = miner.endpoint;
  has_snapshot = false;
  last_success_at = none;
  polled = record { latest = none; last_update_success = true };
}

pub record Context : Type 0 where
  pub coordinator : MinerCoordinator
  pub registry : MinerRegistry
  pub history : History

abbrev pub Act : Type 0 → Type 0
Act A = Context → Ending A × Context

abbrev pub go_on : {A B : Type 0} → Ending A → (A → Act B) → Act B
go_on (returned a) f c = f a c
go_on (failed t) f c = (failed t, c)

infixl 5 ◌>>=◌ ◌>>◌
abbrev pub ◌>>=◌ : {A B : Type 0} → Act A → (A → Act B) → Act B
◌>>=◌ m f c = go_on (m c).0 f (m c).1

abbrev pub ◌>>◌ : {B : Type 0} → Act (Unit {0}) → Act B → Act B
m >> k = m >>= λ _. k

abbrev pub pure : {A : Type 0} → A → Act A
pure a c = (returned a, c)

abbrev pub fail : {A : Type 0} → Trouble → Act A
fail t c = (failed t, c)

-- `snapshot`
abbrev pub snapshot : MinerCoordinator → Option MinerSnapshot
snapshot c = if c.has_snapshot then c.polled.latest else none

abbrev pub of_attempt : {A : Type 0} → Attempt A → Ending A
of_attempt (raised f) = failed (fault f)
of_attempt (done a) = returned a

-- A call of the client, which is on record.
abbrev pub ask : {A : Type 0} → Command → (History → MinerEndpoint → Attempt A) → Act A
ask command method c =
    let e = c.coordinator.client_endpoint in
    (
      of_attempt (method c.history e),
      record c { history = c.history ++ record { endpoint = e; command = command } ∷ [] },
    )

abbrev pub of_result : {A : Type 0} → Result A → Ending A
of_result (err e) = failed (fault (axeos e))
of_result (ok a) = returned a

-- A call of the registry.
abbrev pub store : {A : Type 0} → (MinerRegistry → Result A × MinerRegistry) → Act A
store method c =
    let (result, registry) = method c.registry in
    (of_result result, record c { registry = registry })

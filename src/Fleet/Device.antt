-- ===== src/Fleet/Device.antt =====
-- axeos/client.py: `AxeOSClientProtocol`, the typed client as its users see it. What a method returns
-- may depend on all that was asked of the miners before.
use bitaxe_fleet.Prelude.{◌≡◌, true, Bool, false, List}
use bitaxe_fleet.Axeos.Errors.{is_axeos_error}
use bitaxe_fleet.Axeos.Models.{
  Time, MinerEndpoint, MinerSnapshot, AsicCapabilities, MinerLogs, RecoveryProfile,
}
use bitaxe_fleet.Axeos.Client.{axeos, Attempt, raised, done}

-- The mutations without a body.
pub data Action : Type 0 where
  restart pause resume identify : Action

-- A method that was called.
pub data Command : Type 0 where
  system_info system_asic system_logs : Command
  patch_system : RecoveryProfile → Command
  act : Action → Command

pub record Exchange : Type 0 where
  pub endpoint : MinerEndpoint
  pub command : Command

abbrev pub History : Type 0
History = List Exchange

pub record DeviceClient : Type 0 where
  pub get_system_info : History → Time → MinerEndpoint → Attempt MinerSnapshot
  pub get_system_asic : History → MinerEndpoint → Attempt AsicCapabilities
  pub get_system_logs : History → MinerEndpoint → Attempt MinerLogs
  pub patch : History → MinerEndpoint → RecoveryProfile → Attempt (Unit {0})
  pub perform : History → MinerEndpoint → Action → Attempt (Unit {0})

abbrev pub is_mutation : Command → Bool
is_mutation (patch_system _) = true
is_mutation (act _) = true
is_mutation _ = false

-- A call that raises an error of axeos/errors.py or returns; a built-in exception is none.
abbrev pub RaisesAxeos {ℓ} : {A : Type ℓ} → Attempt A → Type 0
RaisesAxeos (raised (axeos e)) = is_axeos_error e ≡ true
RaisesAxeos (raised _) = ⊥
RaisesAxeos (done a) = Unit

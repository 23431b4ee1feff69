-- ===== src/Fleet/Coordinator/Methods.antt =====
-- coordinator.py: the methods of `MinerCoordinator`.
use bitaxe_fleet.Prelude.{Bool, true, false, not, Option, none, some, [], ◌∷◌, ◌++◌, if◌then◌else◌}
use bitaxe_fleet.Python.Text.{Text, codes, text_eq}
use bitaxe_fleet.Python.Library.{Library}
use bitaxe_fleet.Axeos.Errors.{value_error, is_axeos_error, Result, ok, err}
use bitaxe_fleet.Axeos.Models.{
  Time, MinerSnapshot, EnrolledMiner, AsicCapabilities, RecoveryProfile,
}
use bitaxe_fleet.Axeos.Client.{axeos, Attempt, raised, done}
use bitaxe_fleet.Storage.State.{MinerRegistry}
use bitaxe_fleet.Storage.Operations
use bitaxe_fleet.Fleet.Device.{
  Action, restart, pause, resume, identify, system_info, system_asic, system_logs, patch_system,
  act, DeviceClient,
}
use bitaxe_fleet.Fleet.Coordinator.{
  Trouble, Ending, UpdateCoordinator, MinerCoordinator, Context, Act, ◌>>=◌, ◌>>◌, pure, fail,
  snapshot, ask, update_failed, fault, failed, returned,
}

-- `async_replace_enrollment`
unfoldable pub replace_enrollment : EnrolledMiner → Act (Unit {0})
replace_enrollment miner c =
    if not (text_eq miner.identity.miner_id c.coordinator.miner.identity.miner_id)
    then (failed (fault (axeos value_error)), c)
    else (
      returned tt,
      record c {
        coordinator = record c.coordinator {
          miner = miner;
          client_endpoint = miner.endpoint;
          capabilities = none;
        };
      },
    )

-- `if updated is not None: self.miner = updated`, and what follows it
abbrev pub accept_update : Time → Option EnrolledMiner → MinerCoordinator → MinerCoordinator
accept_update now none c = record c { has_snapshot = true; last_success_at = some now }
accept_update now (some updated) c = record c {
  miner = updated;
  has_snapshot = true;
  last_success_at = some now;
}

abbrev pub modify : (MinerCoordinator → MinerCoordinator) → Act (Unit {0})
modify f c = (returned tt, record c { coordinator = f c.coordinator })

-- an error of axeos/errors.py as `UpdateFailed`
abbrev pub as_update_failed : Attempt MinerSnapshot → Ending MinerSnapshot
as_update_failed (raised (axeos e)) =
    failed (if is_axeos_error e then update_failed else fault (axeos e))
as_update_failed (raised f) = failed (fault f)
as_update_failed (done s) = returned s

module _ (u : UpdateCoordinator) where
  -- `async_apply_discovered_snapshot`
  unfoldable pub apply_discovered_snapshot : Time → MinerSnapshot → Act (Unit {0})
  apply_discovered_snapshot now s c =
      if not (text_eq s.identity.miner_id c.coordinator.miner.identity.miner_id)
      then (failed (fault (axeos value_error)), c)
      else (
        returned tt,
        record c {
          coordinator = record c.coordinator {
            has_snapshot = true;
            last_success_at = some now;
            polled = u.published s c.coordinator.polled;
          };
        },
      )

abbrev pub snapshot_of : Ending MinerSnapshot → Option MinerSnapshot
snapshot_of (failed _) = none
snapshot_of (returned s) = some s

-- `snapshot is None or not last_update_success` after a refresh
abbrev pub or_stale : Trouble → Bool → Option MinerSnapshot → Ending MinerSnapshot
or_stale t success none = failed t
or_stale t success (some s) = if success then returned s else failed t

-- the name of an action
unfoldable pub named_action : Text → Option Action
named_action name =
    if text_eq name (codes "restart")
    then some restart
    else if text_eq name (codes "pause")
    then some pause
    else if text_eq name (codes "resume")
    then some resume
    else if text_eq name (codes "identify")
    then some identify
    else none

unfoldable pub info_read : Attempt MinerSnapshot → Act MinerSnapshot
info_read a c = (
  as_update_failed a,
  record c {
    history =
        c.history
        ++ record { endpoint = c.coordinator.client_endpoint; command = system_info } ∷ [];
  },
)

-- what follows the update of the registry
unfoldable pub keep_snapshot :
    Time → MinerSnapshot → Result (Option EnrolledMiner) × MinerRegistry → Act MinerSnapshot
keep_snapshot now s (err e, registry) c =
    (failed (fault (axeos e)), record c { registry = registry })
keep_snapshot now s (ok updated, registry) c = (
  returned s,
  record c { coordinator = accept_update now updated c.coordinator; registry = registry },
)

-- The base class keeps the outcome of an update.
unfoldable pub refresh_ended : UpdateCoordinator → Ending MinerSnapshot × Context → Context
refresh_ended u (result, c) = record c {
  coordinator = record c.coordinator {
    polled = u.refreshed (snapshot_of result) c.coordinator.polled;
  };
}

module _ (lib : Library) (u : UpdateCoordinator) (client : DeviceClient) where
  -- the read of `_async_update_data`
  unfoldable pub read_info : Time → Act MinerSnapshot
  read_info now c = info_read (client.get_system_info c.history now c.coordinator.client_endpoint) c

  unfoldable pub take_snapshot : Time → MinerSnapshot → Act MinerSnapshot
  unfolding keep_snapshot
  take_snapshot now s c =
      if not (text_eq s.identity.miner_id c.coordinator.miner.identity.miner_id)
      then (failed update_failed, c)
      else keep_snapshot now s (Operations.update_from_snapshot lib s c.registry) c

  -- `_async_update_data`
  unfoldable pub update_data : Time → Act MinerSnapshot
  unfolding read_info take_snapshot
  update_data now = read_info now >>= take_snapshot now

  -- `async_refresh`, which raises nothing.
  unfoldable pub refresh : Time → Context → Context
  unfolding update_data refresh_ended
  refresh now c = refresh_ended u (update_data now c)

  unfoldable pub fresh_or : Trouble → Time → Act MinerSnapshot
  unfolding refresh
  fresh_or t now c =
      let c' = refresh now c in
      (or_stale t c'.coordinator.polled.last_update_success (snapshot c'.coordinator), c')

  unfoldable pub capabilities_or : Option AsicCapabilities → Bool → Act AsicCapabilities
  capabilities_or (some known) false = pure known
  capabilities_or _ _ = ask system_asic client.get_system_asic >>= λ found.
      modify (λ m. record m { capabilities = some found }) >> pure found

  -- `async_get_capabilities`
  unfoldable pub get_capabilities : Bool → Act AsicCapabilities
  unfolding capabilities_or
  get_capabilities force_refresh c = capabilities_or c.coordinator.capabilities force_refresh c

  -- `async_get_logs`
  unfoldable pub get_logs : Act Text
  get_logs = ask system_logs client.get_system_logs >>= λ logs. pure logs.text

  -- `async_patch_profile`
  unfoldable pub patch_profile : RecoveryProfile → Act (Unit {0})
  patch_profile profile = ask (patch_system profile) (λ h e. client.patch h e profile)

  unfoldable pub perform_action : Option Action → Act (Unit {0})
  perform_action none = fail (fault (axeos value_error))
  perform_action (some a) = ask (act a) (λ h e. client.perform h e a)

  -- `async_call_client_action`
  unfoldable pub call_client_action : Time → Text → Act (Unit {0})
  call_client_action now name =
      fresh_or update_failed now >>= λ _. perform_action (named_action name)

-- ===== src/Fleet/Actions.antt =====
-- runtime.py: the operations of an administrator on one miner, behind its coordinator.
use bitaxe_fleet.Prelude.{Bool, true, false, Option, none, some, if◌then◌else◌}
use bitaxe_fleet.Python.Text.{Text, codes}
use bitaxe_fleet.Python.Library.{Library}
use bitaxe_fleet.Axeos.Errors.{mutation_uncertain, is_axeos_error}
use bitaxe_fleet.Axeos.Models.{
  MinerId, Time, MinerSnapshot, EnrolledMiner, AsicCapabilities, RecoveryProfile, supports_profile,
  to_recovery_profile,
}
use bitaxe_fleet.Axeos.Models.Profile.{profile_eq}
use bitaxe_fleet.Axeos.Client.{axeos}
use bitaxe_fleet.Python.Dict.{lookup}
use bitaxe_fleet.Storage.Operations
use bitaxe_fleet.Fleet.Device.{DeviceClient}
use bitaxe_fleet.Fleet.Coordinator.{
  fleet_action, update_failed, fault, Ending, failed, returned, UpdateCoordinator, Act, ◌>>=◌, ◌>>◌,
  pure, fail, store, of_result,
}
use bitaxe_fleet.Fleet.Coordinator.Methods.{
  fresh_or, get_capabilities, get_logs, patch_profile, call_client_action,
}

-- The moment of a call, with the id that an incident draws.
pub record Moment : Type 0 where
  pub now : Time
  pub incident_id : Text

-- `except AxeOSError`, which raises a `FleetActionError`
unfoldable pub wrap_axeos : {A : Type 0} → Text → Ending A → Ending A
wrap_axeos message (failed (fault (axeos e))) =
    failed (if is_axeos_error e then fleet_action message else fault (axeos e))
wrap_axeos message (failed t) = failed t
wrap_axeos message (returned a) = returned a

abbrev pub wrapping : {A : Type 0} → Text → Act A → Act A
wrapping message m c = let (result, c') = m c in (wrap_axeos message result, c')

-- `profile is not None and profile == other`, of a read that may raise
abbrev pub is_profile : RecoveryProfile → Option RecoveryProfile → Bool
is_profile p none = false
is_profile p (some q) = profile_eq q p

-- `snapshot.configuration.to_recovery_profile()`
abbrev pub current_profile : MinerSnapshot → Act (Option RecoveryProfile)
current_profile s c = (of_result (to_recovery_profile s.configuration), c)

abbrev pub or_fail : {A : Type 0} → Text → Option A → Act A
or_fail message none = fail (fleet_action message)
or_fail message (some a) = pure a

abbrev pub saved_profile : Option EnrolledMiner → Option RecoveryProfile
saved_profile none = none
saved_profile (some m) = m.recovery_profile

abbrev pub require : Bool → Text → Act (Unit {0})
require true message = pure tt
require false message = fail (fleet_action message)

module _ (lib : Library) (u : UpdateCoordinator) (client : DeviceClient) (k : MinerId)
    (t : Moment) where
  -- `self.registry.async_record_incident`
  unfoldable pub report : Text → Text → Text → Act (Unit {0})
  report cause outcome detail =
      store (Operations.record_incident lib t.incident_id t.now k cause outcome detail) >>= λ _.
      pure tt

  -- the handlers of `async_run_action`
  unfoldable pub action_ended : Text → Ending (Unit {0}) → Act (Unit {0})
  unfolding report
  action_ended name (failed (fault (axeos (mutation_uncertain _)))) =
      report (codes "manual_action") (codes "uncertain") name
      >> fail (fleet_action (codes "miner action outcome is uncertain"))
  action_ended name (failed (fault (axeos e))) =
      if is_axeos_error e
      then (report (codes "manual_action") (codes "failed") name
          >> fail (fleet_action (codes "miner action failed")))
      else fail (fault (axeos e))
  action_ended name (failed update_failed) =
      report (codes "manual_action") (codes "failed") name
      >> fail (fleet_action (codes "miner action failed"))
  action_ended name (failed other) = fail other
  action_ended name (returned _) = report (codes "manual_action") (codes "requested") name

  -- `async_run_action`
  unfoldable pub run_action : Text → Act (Unit {0})
  unfolding action_ended
  run_action name c =
      let (result, c') = call_client_action lib u client t.now name c in action_ended name result c'

  -- `_async_fresh_snapshot`
  unfoldable pub fresh_snapshot : Act MinerSnapshot
  fresh_snapshot = fresh_or lib u client (fleet_action (codes "miner could not be read")) t.now

  -- the fresh capabilities
  unfoldable pub fresh_capabilities : Act AsicCapabilities
  fresh_capabilities =
      wrapping (codes "miner capabilities could not be read") (get_capabilities lib u client true)

  -- `async_capture_profile`
  unfoldable pub capture_profile : Act RecoveryProfile
  unfolding fresh_snapshot fresh_capabilities report
  capture_profile = fresh_snapshot >>= λ snapshot. current_profile snapshot >>= λ current.
      or_fail (codes "miner does not expose every recovery setting") current >>= λ profile.
      fresh_capabilities >>= λ capabilities.
      require (supports_profile capabilities profile)
        (codes "miner does not support its current profile")
      >> (store (Operations.set_recovery_profile lib k (some profile)) >>= λ _.
          report (codes "profile_capture") (codes "captured") (codes "six approved settings")
          >> pure profile)

  -- the read-back, and the incident and the error of a mismatch
  unfoldable pub read_back : RecoveryProfile → Text → Text → Act (Unit {0})
  unfolding fresh_snapshot report
  read_back profile outcome message = fresh_snapshot >>= λ current.
      current_profile current >>= λ found.
      if is_profile profile found
      then pure tt
      else (report (codes "profile_apply") outcome (codes "read-back did not match")
          >> fail (fleet_action message))

  -- what follows the patch
  unfoldable pub patch_ended : RecoveryProfile → Ending (Unit {0}) → Act (Unit {0})
  unfolding read_back report
  patch_ended profile (failed (fault (axeos (mutation_uncertain _)))) =
      read_back profile (codes "uncertain") (codes "profile outcome is uncertain")
  patch_ended profile (failed (fault (axeos e))) =
      if is_axeos_error e
      then (report (codes "profile_apply") (codes "failed") (codes "patch request failed")
          >> fail (fleet_action (codes "profile could not be applied")))
      else fail (fault (axeos e))
  patch_ended profile (failed other) = fail other
  patch_ended profile (returned _) =
      read_back profile (codes "drift") (codes "profile read-back did not match")

  unfoldable pub patch_and_verify : RecoveryProfile → Act (Unit {0})
  unfolding patch_ended
  patch_and_verify profile c =
      let (result, c') = patch_profile lib u client profile c in patch_ended profile result c'

  unfoldable pub apply_saved : RecoveryProfile → Act (Unit {0})
  unfolding fresh_snapshot fresh_capabilities patch_and_verify report
  apply_saved profile = fresh_snapshot >>= λ _. fresh_capabilities >>= λ capabilities.
      require (supports_profile capabilities profile)
        (codes "saved profile is not supported by this miner")
      >> (patch_and_verify profile
          >> report (codes "profile_apply") (codes "verified") (codes "six approved settings"))

  -- `async_apply_profile`
  unfoldable pub apply_profile : Act (Unit {0})
  unfolding apply_saved
  apply_profile c =
      (or_fail (codes "miner has no saved recovery profile")
            (saved_profile (lookup k c.registry.miners))
          >>= apply_saved)
        c

  -- `async_get_logs`
  unfoldable pub read_logs : Act Text
  read_logs = wrapping (codes "miner logs could not be read") (get_logs lib u client)

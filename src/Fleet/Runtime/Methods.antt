-- ===== src/Fleet/Runtime/Methods.antt =====
-- runtime.py: the methods of `BitaxeFleetRuntime` over its coordinators, its registry and its engine.
use bitaxe_fleet.Prelude.{
  ℕ, Bool, true, false, not, Option, none, some, List, [], ◌∷◌, ◌++◌, if◌then◌else◌, length, keep,
}
use bitaxe_fleet.Python.Text.{Text, codes}
use bitaxe_fleet.Python.Value.{str}
use bitaxe_fleet.Python.Library.{Library}
use bitaxe_fleet.Python.Dict.{lookup, insert}
use bitaxe_fleet.Axeos.Errors.{mutation_uncertain, key_error, value_error, is_axeos_error}
use bitaxe_fleet.Axeos.Models.{
  MinerId, Time, MinerEndpoint, default_http_port, MinerSnapshot, EnrolledMiner, RecoveryPolicy,
}
use bitaxe_fleet.Axeos.Parser.Address.{parse_private_ipv4}
use bitaxe_fleet.Axeos.Client.{axeos}
use bitaxe_fleet.Storage.State.{add_id}
use bitaxe_fleet.Storage.Operations
use bitaxe_fleet.Recovery.State.{RecoveryActionOutcome, requested, uncertain}
use bitaxe_fleet.Recovery.Engine.{forget_miner}
use bitaxe_fleet.Fleet.Aggregates.{Arithmetic, calculate_fleet_aggregates}
use bitaxe_fleet.Fleet.Device.{system_info, DeviceClient}
use bitaxe_fleet.Fleet.Coordinator.{
  fleet_action, update_failed, fault, Ending, failed, returned, UpdateCoordinator, MinerCoordinator,
  new_coordinator, Act, of_result, of_attempt,
}
use bitaxe_fleet.Fleet.Coordinator.Methods.{
  replace_enrollment, apply_discovered_snapshot, refresh, call_client_action,
}
use bitaxe_fleet.Fleet.Actions.{Moment, apply_profile}
use bitaxe_fleet.Fleet.Runtime.{
  Runtime, Op, ◌>>=◌, ◌>>◌, pure, modify, store, run_on, on_coordinator, values, live_snapshots,
  put_aggregates, unsubscribe, drop_coordinator,
}

module _ (lib : Library) (u : UpdateCoordinator) (client : DeviceClient) (math : Arithmetic) where
  -- `_async_refresh_fleet_aggregates`
  unfoldable pub refresh_fleet_aggregates : Op (Unit {0})
  unfolding live_snapshots values
  refresh_fleet_aggregates r =
      let enabled = keep (λ (m : EnrolledMiner). m.enabled) (values r.registry.miners) in
      put_aggregates (calculate_fleet_aggregates math (length enabled) (live_snapshots enabled r)) r

  abbrev pub refreshing : Time → Act (Unit {0})
  refreshing now x = (returned tt, refresh lib u client now x)

  -- the announcement of a coordinator that is new
  abbrev pub announce : Bool → MinerId → Runtime → Runtime
  announce notify k r = if notify then record r { added = r.added ++ k ∷ [] } else r

  unfoldable pub start_with : Time → EnrolledMiner → Bool → Option MinerCoordinator → Op (Unit {0})
  unfolding run_on
  start_with now miner notify (some existing) =
      on_coordinator miner.identity.miner_id (replace_enrollment miner)
      >> on_coordinator miner.identity.miner_id (refreshing now)
  start_with now miner notify none =
      let k = miner.identity.miner_id in
      modify (λ r. record r {
        coordinators = insert k (new_coordinator miner) r.coordinators;
        recovery_listeners = add_id k r.recovery_listeners;
        fleet_listeners = add_id k r.fleet_listeners;
      })
      >> on_coordinator k (refreshing now)
      >> modify (announce notify k)

  -- `async_start_miner`
  unfoldable pub start_miner : Time → EnrolledMiner → Bool → Op (Unit {0})
  unfolding start_with
  start_miner now miner notify r =
      start_with now miner notify (lookup miner.identity.miner_id r.coordinators) r

  -- the miners of `async_start`, and the first totals
  unfoldable pub start_all : Time → List EnrolledMiner → Op (Unit {0})
  unfolding start_miner
  start_all now [] = refresh_fleet_aggregates
  start_all now (m ∷ ms) =
      (if m.enabled then start_miner now m false else pure tt) >> start_all now ms

  unfoldable pub start : Time → Op (Unit {0})
  unfolding start_all
  start now r = start_all now (values r.registry.miners) r

  -- a read of a host that is not yet approved
  unfoldable pub read_host : Time → MinerEndpoint → Op MinerSnapshot
  read_host now e r = (
    of_attempt (client.get_system_info r.history now e),
    record r { history = r.history ++ record { endpoint = e; command = system_info } ∷ [] },
  )

  unfoldable pub parsed_host : Text → Op ℕ
  parsed_host host r = (of_result (parse_private_ipv4 (str host)), r)

  -- `async_enroll_host`
  unfoldable pub enroll_host : Time → Text → Op MinerSnapshot
  unfolding read_host parsed_host
  enroll_host now host = parsed_host host >>= λ address.
      read_host now (record { host = address; port = default_http_port }) >>= λ s.
      store (Operations.enroll lib s) >>= λ miner. start_miner now miner true >> pure s

  -- `async_remove_miner`
  unfoldable pub remove_miner : MinerId → Op Bool
  remove_miner k =
      modify (λ r. drop_coordinator k (unsubscribe k r))
      >> (store (Operations.remove lib k) >>= λ removed. refresh_fleet_aggregates >> pure removed)

  -- the coordinator of a miner that was enabled or disabled
  unfoldable pub follow_enabled :
      Time → MinerId → Bool → EnrolledMiner → Option MinerCoordinator → Op (Unit {0})
  follow_enabled now k false miner c = modify (λ r. drop_coordinator k (unsubscribe k r))
  follow_enabled now k true miner none = start_miner now miner true
  follow_enabled now k true miner (some c) = pure tt

  -- `async_set_enabled`
  unfoldable pub set_enabled : Time → MinerId → Bool → Op EnrolledMiner
  unfolding follow_enabled
  set_enabled now k enabled = store (Operations.set_enabled lib k enabled) >>= λ miner.
      (λ r. follow_enabled now k enabled miner (lookup k r.coordinators) r)
      >> (refresh_fleet_aggregates >> pure miner)

  -- `except (KeyError, ValueError)`
  abbrev pub as_policy_error : Ending EnrolledMiner → Ending EnrolledMiner
  as_policy_error (failed (fault (axeos key_error))) =
      failed (fleet_action (codes "miner recovery policy could not be updated"))
  as_policy_error (failed (fault (axeos value_error))) =
      failed (fleet_action (codes "miner recovery policy could not be updated"))
  as_policy_error other = other

  -- `async_set_recovery_policy`
  unfoldable pub set_recovery_policy : MinerId → RecoveryPolicy → Op EnrolledMiner
  set_recovery_policy k policy =
      (λ r.
        let (result, r') = store (Operations.set_recovery_policy lib k policy) r in
        (as_policy_error result, r'))
      >>= λ miner. modify (λ r. record r { recovery = forget_miner k r.recovery }) >> pure miner

  -- `_async_handle_known_snapshot`
  unfoldable pub handle_known :
      Time → MinerSnapshot → EnrolledMiner → Option MinerCoordinator → Op (Unit {0})
  handle_known now s miner none = start_miner now miner true
  handle_known now s miner (some c) =
      on_coordinator miner.identity.miner_id (replace_enrollment miner)
      >> on_coordinator miner.identity.miner_id (apply_discovered_snapshot u now s)

  unfoldable pub handle_known_snapshot : Time → MinerSnapshot → EnrolledMiner → Op (Unit {0})
  unfolding handle_known
  handle_known_snapshot now s miner r =
      if not miner.enabled
      then (returned tt, r)
      else handle_known now s miner (lookup miner.identity.miner_id r.coordinators) r

  -- `_async_handle_approved_miner`
  unfoldable pub handle_approved_miner : Time → EnrolledMiner → Op (Unit {0})
  handle_approved_miner now miner r =
      if miner.enabled then start_miner now miner true r else (returned tt, r)

  -- the outcome of a restart, with the exceptions that pass
  unfoldable pub restart_outcome : Ending (Unit {0}) → Ending RecoveryActionOutcome
  restart_outcome (failed (fault (axeos (mutation_uncertain _)))) = returned uncertain
  restart_outcome (failed (fault (axeos e))) =
      if is_axeos_error e then returned RecoveryActionOutcome.failed else failed (fault (axeos e))
  restart_outcome (failed update_failed) = returned RecoveryActionOutcome.failed
  restart_outcome (failed t) = failed t
  restart_outcome (returned _) = returned requested

  unfoldable pub restart_found : Time → MinerId → Option MinerCoordinator → Op RecoveryActionOutcome
  unfolding restart_outcome
  restart_found now k none r = (returned RecoveryActionOutcome.failed, r)
  restart_found now k (some c) r =
      let (result, r') = run_on k c (call_client_action lib u client now (codes "restart")) r in
      (restart_outcome result, r')

  -- `_async_restart_for_recovery`
  unfoldable pub restart_for_recovery : Time → MinerId → Op RecoveryActionOutcome
  unfolding restart_found
  restart_for_recovery now k r = restart_found now k (lookup k r.coordinators) r

  -- `except FleetActionError: return False`
  unfoldable pub applied : Ending (Unit {0}) → Ending Bool
  applied (failed (fleet_action _)) = returned false
  applied (failed t) = failed t
  applied (returned _) = returned true

  -- `_async_restore_profile_for_recovery`
  unfoldable pub restore_profile_for_recovery : MinerId → Moment → Op Bool
  unfolding applied
  restore_profile_for_recovery k t r =
      let (result, r') = on_coordinator k (apply_profile lib u client k t) r in (applied result, r')

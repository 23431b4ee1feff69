-- ===== src/Fleet/Tests.antt =====
-- A coordinator, a client that always answers, and the theorems of the fleet at them.
use bitaxe_fleet.Prelude.{
  ◌≡◌, refl, ◌⊎◌, true, false, none, some, List, [], ◌∷◌, ◌++◌, is_some, all, pos,
}
use bitaxe_fleet.Python.Text.{codes, strip, text_eq}
use bitaxe_fleet.Python.Dict.{lookup}
use bitaxe_fleet.Python.Float.{of_ℤ, float_eq, float_le, unit}
use bitaxe_fleet.Python.Tests.{plain_library}
use bitaxe_fleet.Axeos.Errors.{ok}
use bitaxe_fleet.Axeos.Models.{
  MinerSnapshot, EnrolledMiner, AsicCapabilities, RecoveryProfile, default_policy, supports_profile,
  contains_float, contains_int, to_recovery_profile, recovery_profile, profile_eq,
  validated_profile_float, validated_profile_int, validated_profile_bool,
}
use bitaxe_fleet.Axeos.Models.Equality.{miner_eq, endpoint_eq, identity_eq, policy_eq}
use bitaxe_fleet.Redaction.{redact_text}
use bitaxe_fleet.Axeos.Parser.SystemInfo.Tests.{bare_snapshot, miner_a, endpoint, profile}
use bitaxe_fleet.Axeos.Client.{done, Request}
use bitaxe_fleet.Axeos.Client.Calls.{get_system_info, get_system_asic, get_system_logs}
use bitaxe_fleet.Axeos.Client.Calls
use bitaxe_fleet.Axeos.Client.Tests.{json, session}
use bitaxe_fleet.Storage.State.{MinerRegistry, validate_text}
use bitaxe_fleet.Storage.Operations
use bitaxe_fleet.Fleet.Aggregates.{
  Arithmetic, FleetAggregates, empty_aggregates, summarize, calculate_fleet_aggregates,
}
use bitaxe_fleet.Fleet.Aggregates.Reference.{totals_of, calculate_fleet_aggregates_lem}
use bitaxe_fleet.Fleet.Device.{
  Action, restart, system_info, act, patch_system, DeviceClient, History,
}
use bitaxe_fleet.Fleet.AxeosDevice.{requests_of}
use bitaxe_fleet.Fleet.Coordinator.{
  returned, UpdateCoordinator, IsUpdateCoordinator, new_coordinator, Context,
}
use bitaxe_fleet.Fleet.Coordinator.Methods.{
  fresh_or, refresh, update_data, read_info, info_read, take_snapshot, keep_snapshot, refresh_ended,
  get_capabilities, capabilities_or, patch_profile, named_action, call_client_action,
  perform_action,
}
use bitaxe_fleet.Fleet.Refresh.{id_of, with_call, IsFresh, IsStale, refresh_lem}
use bitaxe_fleet.Fleet.Mutations.{mutations}
use bitaxe_fleet.Fleet.Actions.{
  Moment, saved_profile, apply_profile, apply_saved, fresh_snapshot, fresh_capabilities,
  patch_and_verify, patch_ended, read_back, report, wrap_axeos, run_action, action_ended,
}
use bitaxe_fleet.Fleet.Limits.{call_client_action_lem, apply_profile_lem}
use bitaxe_fleet.Fleet.Requested.{run_action-Sent, action_text}
use bitaxe_fleet.Fleet.Verified.{IsVerified, apply_profile-IsVerified}
use bitaxe_fleet.Fleet.Runtime.{Runtime}
use bitaxe_fleet.Fleet.Runtime.Methods.{remove_miner}
use bitaxe_fleet.Fleet.Runtime.Release.{IsReleased, remove_miner_lem}

abbrev update : UpdateCoordinator
update = record {
  refreshed = λ o p. record {
    latest = elim o [ none ↦ p.latest | some s ↦ some s ];
    last_update_success = is_some o;
  };
  published = λ s p. record { latest = some s; last_update_success = true };
}

update-IsUpdateCoordinator : IsUpdateCoordinator update
update-IsUpdateCoordinator = record {
  succeeds = λ s p. refl;
  fails = λ p. refl;
  publishes = λ s p. refl;
}

-- a snapshot that shows the settings of the profile
abbrev tuned_snapshot : MinerSnapshot
tuned_snapshot = record bare_snapshot {
  configuration = record bare_snapshot.configuration {
    frequency_mhz = some (of_ℤ (pos 525));
    core_voltage_mv = some (pos 1150);
    overclock_enabled = some false;
    automatic_fan_speed = some true;
    target_temperature_c = some (pos 60);
    minimum_fan_speed_percent = some (pos 25);
  };
}

abbrev chip : AsicCapabilities
chip = record {
  asic_model = codes "BM1370";
  device_model = none;
  swarm_color = none;
  asic_count = none;
  default_frequency_mhz = none;
  frequency_options_mhz = some (of_ℤ (pos 525) ∷ []);
  default_voltage_mv = none;
  voltage_options_mv = some (pos 1150 ∷ []);
}

abbrev device : DeviceClient
device = record {
  get_system_info = λ h now e. done tuned_snapshot;
  get_system_asic = λ h e. done chip;
  get_system_logs = λ h e. done (record { text = [] });
  patch = λ h e p. done tt;
  perform = λ h e a. done tt;
}

abbrev saved_miner : EnrolledMiner
saved_miner = record {
  endpoint = endpoint;
  identity = bare_snapshot.identity;
  enabled = true;
  display_name = none;
  recovery_policy = default_policy;
  recovery_profile = some profile;
}

abbrev registry : MinerRegistry
registry = record {
  miners = (miner_a, saved_miner) ∷ [];
  rejected_candidates = [];
  incidents = [];
  loaded = true;
  document = none;
}

abbrev context : Context
context = record { coordinator = new_coordinator saved_miner; registry = registry; history = [] }

abbrev at_nine : Moment
at_nine = record { now = 9; incident_id = codes "1" }

refresh_lem_example :
    let c' = refresh plain_library update device 9 context in
    (c'.history ≡ with_call system_info context)
    × (((s : MinerSnapshot) × IsFresh plain_library update update-IsUpdateCoordinator device 9
            context c' s)
        ⊎ IsStale plain_library update update-IsUpdateCoordinator device 9 context c')
refresh_lem_example = refresh_lem plain_library update update-IsUpdateCoordinator device 9 context

call_client_action_lem_example :
    let (result, c') = call_client_action plain_library update device 9 (codes "restart") context in
    (mutations c'.history ≡ mutations context.history)
    ⊎ ((a : Action) × (s : MinerSnapshot) × (named_action (codes "restart") ≡ some a)
        × (device.get_system_info context.history 9 context.coordinator.client_endpoint ≡ done s)
        × (text_eq s.identity.miner_id (id_of context) ≡ true)
        × (mutations c'.history ≡ mutations context.history ++ act a ∷ []))
call_client_action_lem_example =
    call_client_action_lem plain_library update update-IsUpdateCoordinator device 9
      (codes "restart") context

restarted :
    (run_action plain_library update device miner_a at_nine (codes "restart") context).0
    ≡ returned tt
unfolding run_action call_client_action named_action perform_action action_ended fresh_or refresh
    update_data read_info info_read take_snapshot keep_snapshot refresh_ended
    Operations.update_from_snapshot Operations.update_loaded Operations.update_known
    Operations.replace_changed Operations.enrolled_from_snapshot report Operations.record_incident
    Operations.record_loaded Operations.record_valid Operations.append_incident Operations.load
    Operations.save to_recovery_profile recovery_profile profile_eq miner_eq redact_text
    validate_text strip text_eq lookup wrap_axeos endpoint_eq identity_eq float_eq of_ℤ unit
    policy_eq validated_profile_float float_le validated_profile_int validated_profile_bool all
restarted = refl

run_action-Sent_example :
    (a : Action) × (codes "restart" ≡ action_text a)
    × (mutations
          (run_action plain_library update device miner_a at_nine
            (codes "restart")
            context).1.history
        ≡ mutations context.history ++ act a ∷ [])
run_action-Sent_example =
    run_action-Sent plain_library update update-IsUpdateCoordinator device miner_a at_nine
      (codes "restart") context restarted

apply_profile_lem_example :
    let c' = (apply_profile plain_library update device miner_a at_nine context).1 in
    (mutations c'.history ≡ mutations context.history)
    ⊎ ((p : RecoveryProfile) × (saved_profile (lookup miner_a context.registry.miners) ≡ some p)
        × (mutations c'.history ≡ mutations context.history ++ patch_system p ∷ []))
apply_profile_lem_example =
    apply_profile_lem plain_library update update-IsUpdateCoordinator device miner_a at_nine context

applied : (apply_profile plain_library update device miner_a at_nine context).0 ≡ returned tt
unfolding apply_profile apply_saved fresh_snapshot fresh_or refresh update_data read_info info_read
    take_snapshot keep_snapshot refresh_ended Operations.update_from_snapshot
    Operations.update_loaded Operations.update_known Operations.replace_changed
    Operations.enrolled_from_snapshot fresh_capabilities get_capabilities capabilities_or
    supports_profile contains_float contains_int patch_and_verify patch_ended patch_profile
    read_back report Operations.record_incident Operations.record_loaded Operations.record_valid
    Operations.append_incident Operations.load Operations.save to_recovery_profile recovery_profile
    profile_eq miner_eq redact_text validate_text strip text_eq lookup wrap_axeos endpoint_eq
    identity_eq float_eq of_ℤ unit policy_eq validated_profile_float float_le validated_profile_int
    validated_profile_bool all
applied = refl

apply_profile-IsVerified_example :
    (p : RecoveryProfile) × (saved_profile (lookup miner_a context.registry.miners) ≡ some p)
    × IsVerified plain_library update update-IsUpdateCoordinator device miner_a at_nine p context
        (apply_profile plain_library update device miner_a at_nine context).1
apply_profile-IsVerified_example =
    apply_profile-IsVerified plain_library update update-IsUpdateCoordinator device miner_a at_nine
      context applied

abbrev math : Arithmetic
math = record { fsum = λ xs. some (of_ℤ (pos 0)); divide = λ x y. some (of_ℤ (pos 0)) }

calculate_fleet_aggregates_lem_example :
    calculate_fleet_aggregates math 2 (tuned_snapshot ∷ bare_snapshot ∷ [])
    ≡ summarize math 2 2 (totals_of (tuned_snapshot ∷ bare_snapshot ∷ []))
calculate_fleet_aggregates_lem_example =
    calculate_fleet_aggregates_lem math 2 (tuned_snapshot ∷ bare_snapshot ∷ [])

abbrev runtime : Runtime
runtime = record {
  registry = registry;
  history = [];
  coordinators = (miner_a, new_coordinator saved_miner) ∷ [];
  recovery = record {
    states = [];
    locks = [];
    tasks = (miner_a, 0) ∷ [];
    next_task = 1;
    closed = false;
  };
  recovery_listeners = miner_a ∷ [];
  fleet_listeners = miner_a ∷ [];
  aggregates = empty_aggregates;
  added = [];
  closed = false;
}

remove_miner_lem_example :
    let r' = (remove_miner plain_library update device math miner_a runtime).1 in
    IsReleased miner_a runtime r' × (lookup miner_a r'.registry.miners ≡ none)
remove_miner_lem_example = remove_miner_lem plain_library update device math miner_a runtime refl

abbrev totals : FleetAggregates
totals = record empty_aggregates { enabled_miners = 2; online_miners = 2; unhealthy_coverage = 0 }

disabled :
    (Operations.set_enabled plain_library miner_a false runtime.registry).0
    ≡ ok (record saved_miner { enabled = false })
unfolding Operations.set_enabled Operations.change_miner Operations.save Operations.load lookup
    text_eq
disabled = refl

abbrev asked : History
asked = record { endpoint = endpoint; command = act restart } ∷ []

abbrev sent : List Request
sent = requests_of plain_library json session asked

-- ===== src/Recovery/Tests.antt =====
-- Concrete evaluations of one miner, and the theorems of the recovery at them.
use bitaxe_fleet.Prelude.{
  leb, ◌^◌, ℕ, ◌≡◌, ◌≤◌, ◌+◌, ◌*◌, refl, true, false, Option, none, some, List, [], ◌∷◌, arith,
  if◌then◌else◌, keep, count, ℤ, pos,
}
use bitaxe_fleet.Python.Text.{Text, codes, text_eq}
use bitaxe_fleet.Python.Float.{Float}
use bitaxe_fleet.Axeos.Models.{
  MinerId, Time, MinerEndpoint, MinerIdentity, MinerTelemetry, MinerConfiguration, MinerHealth,
  MinerSnapshot, EnrolledMiner, RecoveryPolicy, default_policy, seconds,
}
use bitaxe_fleet.Storage.State.{FleetIncident}
use bitaxe_fleet.Recovery.State.{
  requested, power_fault, MinerRecoveryState, snapshot_condition, prune_attempts, in_startup_grace,
  is_in_cooldown, restored_recovery_state,
}
use bitaxe_fleet.Recovery.Report.{World, replied, restored}
use bitaxe_fleet.Recovery.Evaluate.{
  evaluate_snapshot, evaluate_cool, await_restore, await_restart, observe, is_calm,
  observe_unhealthy, attempt_restart, request_restart,
}
use bitaxe_fleet.Recovery.Handlers.{handle_pending_restart}
use bitaxe_fleet.Recovery.Engine.{RecoveryEngine, Providers, close}
use bitaxe_fleet.Recovery.Safety.{
  Calls, evaluate_snapshot-Calls, evaluate_snapshot_mutates_once, evaluate_snapshot_overheat,
}
use bitaxe_fleet.Recovery.Counting.{restarts, restores}
use bitaxe_fleet.Recovery.RateLimit.{RateLimited, Observation, run, run-RateLimited}
use bitaxe_fleet.Recovery.Liveness.{after, evaluate_snapshot-after}
use bitaxe_fleet.Recovery.Restored.{restored_recovery_state_lem, IsRestartOf, HasCount}
use bitaxe_fleet.Recovery.Lifecycle.{scheduled, evaluated, done, steps, IsEnded, close_silences}

abbrev miner_a : MinerId
miner_a = codes "a4:cf:12:00:00:01"

abbrev miner_b : MinerId
miner_b = codes "a4:cf:12:00:00:02"

abbrev endpoint : MinerEndpoint
endpoint = record { host = 192 * 2 ^ 24 + 168 * 2 ^ 16 + 10; port = 80 }

abbrev identity : MinerIdentity
identity = record {
  miner_id = miner_a;
  hostname = none;
  asic_model = some (codes "BM1370");
  board_version = none;
  firmware_version = none;
}

abbrev eager_policy : RecoveryPolicy
eager_policy = record default_policy {
  automatic_recovery_enabled = true;
  consecutive_unhealthy_required = 1;
  cooldown_seconds = 0;
  max_attempts = 2;
  post_restart_timeout_seconds = 30;
}

abbrev eager_miner : EnrolledMiner
eager_miner = record {
  endpoint = endpoint;
  identity = identity;
  display_name = none;
  enabled = true;
  recovery_profile = none;
  recovery_policy = eager_policy;
}

abbrev telemetry : Option Float → MinerTelemetry
telemetry hashrate = record {
  hashrate_gh_s = hashrate;
  power_w = none;
  temperature_c = none;
  hashrate_1m_gh_s = none;
  hashrate_10m_gh_s = none;
  hashrate_1h_gh_s = none;
  expected_hashrate_gh_s = none;
  error_percentage = none;
  input_voltage_mv = none;
  current_ma = none;
  core_voltage_actual_mv = none;
  actual_frequency_mhz = none;
  secondary_temperature_c = none;
  vr_temperature_c = none;
  fan_speed_percent = none;
  fan_rpm = none;
  fan_2_rpm = none;
  shares_accepted = none;
  shares_rejected = none;
  share_rejection_reasons = none;
  best_difficulty = none;
  best_session_difficulty = none;
  pool_difficulty = none;
  pool_response_time_ms = none;
  wifi_rssi_dbm = none;
  uptime_seconds = some (pos 1000);
  block_height = none;
  network_difficulty = none;
  blocks_found = none;
}

abbrev configuration : MinerConfiguration
configuration = record {
  frequency_mhz = none;
  core_voltage_mv = none;
  overclock_enabled = none;
  automatic_fan_speed = none;
  target_temperature_c = none;
  minimum_fan_speed_percent = none;
  manual_fan_speed_percent = none;
}

abbrev health : Option ℤ → Option Text → MinerHealth
health mode fault = record {
  mining_paused = none;
  using_fallback_pool = none;
  overheat_mode = mode;
  power_fault = fault;
  hardware_fault = none;
  reset_reason = none;
  wifi_status = none;
}

abbrev snapshot : Option ℤ → Option Text → MinerSnapshot
snapshot mode fault = record {
  endpoint = endpoint;
  identity = identity;
  telemetry = telemetry none;
  observed_at = 0;
  configuration = configuration;
  health = health mode fault;
}

abbrev faulty : MinerSnapshot
faulty = snapshot none (some (codes "brownout"))

abbrev hot : MinerSnapshot
hot = snapshot (some (pos 1)) none

abbrev world : ℕ → World
world t = record {
  subject = miner_a;
  now = seconds t;
  restart_reply = replied requested;
  restore_reply = restored true;
  records = λ cause outcome. true;
}

abbrev fresh_state : MinerRecoveryState
fresh_state = record {
  started_at = 0;
  attempts = [];
  unhealthy_observations = 0;
  last_action_at = none;
  restart_deadline = none;
  restart_requested_at = none;
  overheat_active = false;
  pending_profile_restore_at = none;
  attempt_limit_reported = false;
}

-- A faulty miner is restarted, the restart times out, and it is restarted again; the third is too many.
abbrev observations : List Observation
observations =
    (world 100, faulty)
    ∷ (world 200, faulty)
    ∷ (world 300, faulty)
    ∷ (world 400, faulty)
    ∷ (world 500, faulty)
    ∷ (world 600, faulty)
    ∷ []

abbrev prior : ℕ → FleetIncident
prior t = record {
  incident_id = codes "1";
  miner_id = miner_a;
  occurred_at = seconds t;
  cause = codes "automatic_restart";
  outcome = codes "failed";
  detail = codes "x";
}

abbrev idle_engine : RecoveryEngine
idle_engine = record { states = []; locks = []; tasks = []; next_task = 0; closed = false }

abbrev busy_engine : RecoveryEngine
busy_engine = record idle_engine {
  states = (miner_a, fresh_state) ∷ (miner_b, fresh_state) ∷ [];
  tasks = (miner_a, 4) ∷ [];
  next_task = 7;
}

abbrev providers : Providers
providers = record {
  miner = λ k. if text_eq k miner_a then some eager_miner else none;
  snapshot = λ k. some faulty;
  incidents = prior 50 ∷ [];
}

faulty_condition : snapshot_condition faulty ≡ power_fault
unfolding snapshot_condition
faulty_condition = refl

run_times : (run eager_miner observations fresh_state []).0 ≡ seconds 300 ∷ seconds 100 ∷ []
unfolding run evaluate_snapshot snapshot_condition evaluate_cool await_restore await_restart observe
    is_calm observe_unhealthy attempt_restart request_restart handle_pending_restart keep count
    prune_attempts in_startup_grace is_in_cooldown
run_times = refl

run-RateLimited_example : RateLimited 3600 2 (run eager_miner observations fresh_state []).0
run-RateLimited_example =
    run-RateLimited eager_miner observations fresh_state 0
      (omega arith, (omega arith, (omega arith, (omega arith, (omega arith, (omega arith, tt))))))

evaluate_snapshot-Calls_example :
    Calls
      (world 100)
      eager_miner
      faulty
      fresh_state
      (evaluate_snapshot (world 100) eager_miner faulty fresh_state)
evaluate_snapshot-Calls_example = evaluate_snapshot-Calls (world 100) eager_miner faulty fresh_state

evaluate_snapshot_mutates_once_example :
    let r = evaluate_snapshot (world 100) eager_miner faulty fresh_state in
    restarts r + restores r ≤ 1
evaluate_snapshot_mutates_once_example =
    evaluate_snapshot_mutates_once (world 100) eager_miner faulty fresh_state

evaluate_snapshot_overheat_example :
    let r = evaluate_snapshot (world 100) eager_miner hot fresh_state in
    (restarts r + restores r ≡ 0)
    × (r.state.overheat_active ≡ true)
    × (r.state.pending_profile_restore_at ≡ none)
    × (r.state.unhealthy_observations ≡ 0)
    × (r.state.attempts ≡ [])
    × (r.state.restart_deadline ≡ none)
unfolding snapshot_condition
evaluate_snapshot_overheat_example =
    evaluate_snapshot_overheat (world 100) eager_miner hot fresh_state refl

restored_recovery_state_lem_example :
    let s =
      restored_recovery_state miner_a (seconds 4000) 3600 (prior 50 ∷ prior 900 ∷ prior 600 ∷ []) in
    HasCount
      (IsRestartOf miner_a (seconds 4300) 3600)
      (prior 50 ∷ prior 900 ∷ prior 600 ∷ [])
      (count (λ (t : Time). leb (seconds 4300) (t + 3600 * 1000000)) s.attempts)
    × (s.restart_deadline ≡ none)
    × (s.pending_profile_restore_at ≡ none)
restored_recovery_state_lem_example =
    restored_recovery_state_lem miner_a (seconds 4000) (seconds 4300) 3600
      (prior 50 ∷ prior 900 ∷ prior 600 ∷ []) (omega arith)

close_silences_example :
    let (e, events) =
      steps
        (scheduled miner_a ∷ evaluated (world 100) providers miner_a ∷ done miner_a 4 ∷ [])
        (close busy_engine) in
    IsEnded e × (events ≡ [])
close_silences_example =
    close_silences
      (scheduled miner_a ∷ evaluated (world 100) providers miner_a ∷ done miner_a 4 ∷ [])
      busy_engine refl

abbrev patient_miner : EnrolledMiner
patient_miner = record eager_miner {
  recovery_policy = record eager_policy {
    consecutive_unhealthy_required = 3;
    cooldown_seconds = 600;
  };
}

evaluate_snapshot-after_example :
    restarts (
      evaluate_snapshot
        (world 300)
        patient_miner
        faulty
        (after patient_miner ((world 100, faulty) ∷ (world 200, faulty) ∷ []) fresh_state))
    ≡ 1
unfolding snapshot_condition in_startup_grace is_in_cooldown count
evaluate_snapshot-after_example =
    evaluate_snapshot-after patient_miner ((world 100, faulty) ∷ (world 200, faulty) ∷ [])
      (world 300) faulty fresh_state
      (record { opted_in = refl; cool = refl; no_restore = refl; no_restart = refl })
      ((refl, refl), ((refl, refl), tt)) (refl, refl) refl refl (omega arith)

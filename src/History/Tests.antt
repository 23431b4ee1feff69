-- ===== src/History/Tests.antt =====
-- A day of states, and the theorem on series at it.
use bitaxe_fleet.Prelude.{◌≡◌, refl, true, false, none, some, []}
use bitaxe_fleet.Python.Text.{codes, text_eq}
use bitaxe_fleet.Python.Dict.{lookup}
use bitaxe_fleet.Python.Tests.{plain_library}
use bitaxe_fleet.Axeos.Parser.SystemInfo.Tests.{miner_a}
use bitaxe_fleet.History.{
  Recorder, returned, raised, unsupported_metric, round_ratio, sample_index, history_entity_ids,
  entities_of, miner_telemetry_history, get_history_series, query_ended, fleet_telemetry_history,
  fleet_history_of,
}

-- Of a half the even neighbour is taken.
half_to_even : round_ratio 5 2 ≡ 2
unfolding round_ratio
half_to_even = refl

half_to_even_above : round_ratio 7 2 ≡ 4
unfolding round_ratio
half_to_even_above = refl

middle_kept : sample_index 2879 720 ≡ 1440
unfolding sample_index round_ratio
middle_kept = refl

-- A recorder whose query raises.
abbrev recorder : Recorder
recorder = record {
  entity_id = λ unique_id. some unique_id;
  is_available = true;
  states = λ start_at end_at ids. none;
}

-- A `RuntimeError` of the recorder is an answer without points.
recorder_fails :
    miner_telemetry_history plain_library recorder 100000000000 miner_a
    ≡ returned (record {
      start_at = 13600000000;
      end_at = 100000000000;
      recorder_available = false;
      hashrate_gh_s = [];
      power_w = [];
      temperature_c = [];
    })
unfolding miner_telemetry_history get_history_series history_entity_ids entities_of query_ended
    lookup
recorder_fails = refl

metric_refused :
    fleet_telemetry_history plain_library recorder 100000000000 (codes "e") (codes "uptime")
    ≡ raised unsupported_metric
unfolding fleet_telemetry_history fleet_history_of lookup text_eq
metric_refused = refl

-- ===== src/History.antt =====
-- history.py: the bounded series of a miner and of the fleet from the recorder of Home Assistant. The
-- entity registry and the recorder are parameters. `round` of a quotient is that of the exact
-- fraction; the double between them rounds to the same number for fewer than 2 ^ 40 states.
pub mod Sampling
pub mod Tests
use bitaxe_fleet.Prelude.{
  ℕ, zero, suc, ◌+◌, ◌-◌, ◌*◌, ◌/◌, ◌%◌, Bool, true, false, not, Option, none, some, List, [], ◌∷◌,
  ◌++◌, if◌then◌else◌, ltb, leb, length, get_elem?,
}
use bitaxe_fleet.Python.Text.{Text, codes, without}
use bitaxe_fleet.Python.Float.{Float, is_finite}
use bitaxe_fleet.Python.Dict.{Dict, lookup}
use bitaxe_fleet.Python.Library.{Library}
use bitaxe_fleet.Axeos.Models.{MinerId, Time}

pub record TelemetryHistoryPoint : Type 0 where
  pub observed_at : Time
  pub value : Option Float

pub record MinerTelemetryHistory : Type 0 where
  pub start_at : Time
  pub end_at : Time
  pub recorder_available : Bool
  pub hashrate_gh_s : List TelemetryHistoryPoint
  pub power_w : List TelemetryHistoryPoint
  pub temperature_c : List TelemetryHistoryPoint

pub record FleetTelemetryHistory : Type 0 where
  pub start_at : Time
  pub end_at : Time
  pub recorder_available : Bool
  pub metric : Text
  pub points : List TelemetryHistoryPoint

-- What is read of a `State`.
pub record State : Type 0 where
  pub last_updated : Time
  pub state : Text

-- `entity_id` looks a unique id up, `is_available` is false if `get_instance` raises `KeyError`, and
-- `states` is `get_significant_states`, with `none` for a `RuntimeError`.
pub record Recorder : Type 0 where
  pub entity_id : Text → Option Text
  pub is_available : Bool
  pub states : Time → Time → List Text → Option (Dict (List State))

-- What is raised: the `ValueError` of a metric that is unknown, or the `IndexError` of a list.
pub data Failure : Type 0 where
  unsupported_metric index_error : Failure

pub data Outcome (A : Type 0) : Type 0 where
  raised : Failure → Outcome A
  returned : A → Outcome A

infixl 5 ◌>>=◌
abbrev pub ◌>>=◌ : {A B : Type 0} → Outcome A → (A → Outcome B) → Outcome B
raised f >>= k = raised f
returned a >>= k = k a

-- `HISTORY_WINDOW`, in microseconds
abbrev pub history_window : ℕ
history_window = 24 * 3600 * 1000000

-- `MAX_HISTORY_POINTS`
abbrev pub max_history_points : ℕ
max_history_points = 1440

-- `round(p / q)`: the nearest number, of two the even one
unfoldable pub round_ratio : ℕ → ℕ → ℕ
round_ratio p q =
    if ltb (2 * (p % q)) q
    then p / q
    else if ltb q (2 * (p % q))
    then p / q + 1
    else p / q + p / q % 2

-- the position of a point among `n`
unfoldable pub sample_index : ℕ → ℕ → ℕ
unfolding round_ratio
sample_index n index = round_ratio (index * (n - 1)) (max_history_points - 1)

-- `points[i]`
abbrev pub or_index_error : {A : Type 0} → Option A → Outcome A
or_index_error none = raised index_error
or_index_error (some x) = returned x

abbrev pub get_item : {A : Type 0} → List A → ℕ → Outcome A
get_item xs i = or_index_error (get_elem? xs i)

-- `points[...] for index in range(first, first + count)`
unfoldable pub sampled : {A : Type 0} → List A → ℕ → ℕ → Outcome (List A)
unfolding sample_index
sampled xs first zero = returned []
sampled xs first (suc count) = get_item xs (sample_index (length xs) first) >>= λ x.
    sampled xs (first + 1) count >>= λ rest. returned (x ∷ rest)

unfoldable pub bounded : {A : Type 0} → List A → Outcome (List A)
unfolding sampled
bounded xs =
    if leb (length xs) max_history_points then returned xs else sampled xs 0 max_history_points

module _ (lib : Library) where
  -- `_finite_value`
  unfoldable pub finite_value : Text → Option Float
  finite_value value = elim (lib.float_of_text value) [
    | none ↦ none
    | some number ↦ if is_finite number then some number else none
  ]

  unfoldable pub points_of : List State → List TelemetryHistoryPoint
  unfolding finite_value
  points_of [] = []
  points_of (s ∷ ss) =
      record { observed_at = s.last_updated; value = finite_value s.state } ∷ points_of ss

  -- `_series_from_states`
  unfoldable pub series_from_states : List State → Outcome (List TelemetryHistoryPoint)
  unfolding points_of bounded
  series_from_states states = bounded (points_of states)

  -- `states_by_entity_id.get(entity_id, [])`
  abbrev pub or_empty : Option (List State) → List State
  or_empty none = []
  or_empty (some states) = states

  unfoldable pub series_of :
      Dict Text → Dict (List State) → Outcome (Dict (List TelemetryHistoryPoint))
  unfolding series_from_states
  series_of [] states = returned []
  series_of ((series_key, entity_id) ∷ entity_ids) states =
      series_from_states (or_empty (lookup entity_id states)) >>= λ series.
      series_of entity_ids states >>= λ rest. returned ((series_key, series) ∷ rest)

  abbrev pub ids_of : Dict Text → List Text
  ids_of [] = []
  ids_of ((series_key, entity_id) ∷ entity_ids) = entity_id ∷ ids_of entity_ids

  -- what follows the query of the recorder
  unfoldable pub query_ended :
      Dict Text → Option (Dict (List State)) → Outcome (Bool × Dict (List TelemetryHistoryPoint))
  unfolding series_of
  query_ended entity_ids none = returned (false, [])
  query_ended entity_ids (some states) =
      series_of entity_ids states >>= λ series. returned (true, series)

  abbrev pub query :
      Recorder → Time → Time → Dict Text → Outcome (Bool × Dict (List TelemetryHistoryPoint))
  query recorder start_at end_at [] = returned (true, [])
  query recorder start_at end_at (entity ∷ entity_ids) =
      query_ended (entity ∷ entity_ids)
        (recorder.states start_at end_at (ids_of (entity ∷ entity_ids)))

  -- `_async_get_history_series`
  unfoldable pub get_history_series :
      Recorder → Time → Time → Dict Text → Outcome (Bool × Dict (List TelemetryHistoryPoint))
  unfolding query_ended
  get_history_series recorder start_at end_at entity_ids =
      if not recorder.is_available
      then returned (false, [])
      else query recorder start_at end_at entity_ids

-- `series.get(key, ())`
abbrev pub or_no_points : Option (List TelemetryHistoryPoint) → List TelemetryHistoryPoint
or_no_points none = []
or_no_points (some points) = points

abbrev pub add_entity : Text → Option Text → Dict Text → Dict Text
add_entity series_key none entity_ids = entity_ids
add_entity series_key (some entity_id) entity_ids = (series_key, entity_id) ∷ entity_ids

-- `_HISTORY_SENSORS`
abbrev pub history_sensors : Dict Text
history_sensors =
    (codes "hashrate_gh_s", codes "hashrate")
    ∷ (codes "power_w", codes "power")
    ∷ (codes "temperature_c", codes "temperature")
    ∷ []

-- `_FLEET_HISTORY_SENSORS`
abbrev pub fleet_history_sensors : Dict Text
fleet_history_sensors =
    (codes "hashrate", codes "total_hashrate")
    ∷ (codes "power", codes "total_power")
    ∷ (codes "efficiency", codes "efficiency")
    ∷ []

unfoldable pub entities_of : Recorder → Text → Dict Text → Dict Text
entities_of recorder prefix [] = []
entities_of recorder prefix ((series_key, sensor_key) ∷ sensors) =
    add_entity series_key (recorder.entity_id (prefix ++ codes "_" ++ sensor_key))
      (entities_of recorder prefix sensors)

-- `_history_entity_ids`
unfoldable pub history_entity_ids : Recorder → MinerId → Dict Text
unfolding entities_of
history_entity_ids recorder miner_id = entities_of recorder (without 58 miner_id) history_sensors

-- `async_get_miner_telemetry_history`, called at `end_at`
unfoldable pub miner_telemetry_history :
    Library → Recorder → Time → MinerId → Outcome MinerTelemetryHistory
unfolding get_history_series history_entity_ids
miner_telemetry_history lib recorder end_at miner_id =
    let start_at = end_at - history_window in
    get_history_series lib recorder start_at end_at (history_entity_ids recorder miner_id)
    >>= λ found. returned (record {
      start_at = start_at;
      end_at = end_at;
      recorder_available = found.0;
      hashrate_gh_s = or_no_points (lookup (codes "hashrate_gh_s") found.1);
      power_w = or_no_points (lookup (codes "power_w") found.1);
      temperature_c = or_no_points (lookup (codes "temperature_c") found.1);
    })

unfoldable pub fleet_history_of :
    Library → Recorder → Time → Text → Text → Option Text → Outcome FleetTelemetryHistory
unfolding get_history_series
fleet_history_of lib recorder end_at entry_id metric none = raised unsupported_metric
fleet_history_of lib recorder end_at entry_id metric (some sensor_key) =
    let start_at = end_at - history_window in
    get_history_series lib recorder start_at end_at
      (add_entity (codes "series") (recorder.entity_id (entry_id ++ codes "_" ++ sensor_key)) [])
    >>= λ found. returned (record {
      start_at = start_at;
      end_at = end_at;
      recorder_available = found.0;
      metric = metric;
      points = or_no_points (lookup (codes "series") found.1);
    })

-- `async_get_fleet_telemetry_history`, called at `end_at`
unfoldable pub fleet_telemetry_history :
    Library → Recorder → Time → Text → Text → Outcome FleetTelemetryHistory
unfolding fleet_history_of
fleet_telemetry_history lib recorder end_at entry_id metric =
    fleet_history_of lib recorder end_at entry_id metric (lookup metric fleet_history_sensors)

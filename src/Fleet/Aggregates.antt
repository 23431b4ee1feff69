-- ===== src/Fleet/Aggregates.antt =====
-- aggregates.py: totals over the fresh snapshots of the enabled miners. What `math.fsum` and `/` of
-- floats return is a parameter, with `none` for an exception.
pub mod Reference
pub mod Coverage
use bitaxe_fleet.Prelude.{
  ℕ, zero, suc, ◌+◌, Bool, true, false, not, Option, none, some, List, [], ◌∷◌, ◌++◌, if◌then◌else◌,
  is_some, length, ℤ, pos, eq_ℤ, ◌+ℤ◌,
}
use mathlib.Core.Option
use bitaxe_fleet.Python.Float.{Float, of_ℤ, float_lt}
use bitaxe_fleet.Axeos.Models.{MinerSnapshot}
use bitaxe_fleet.Recovery.State.{SnapshotCondition, healthy, paused, unknown, snapshot_condition}

pub record Arithmetic : Type 0 where
  pub fsum : List Float → Option Float
  pub divide : Float → Float → Option Float

pub record FleetAggregates : Type 0 where
  pub enabled_miners : ℕ
  pub online_miners : ℕ
  pub hashrate_coverage : ℕ
  pub power_coverage : ℕ
  pub uptime_coverage : ℕ
  pub best_difficulty_coverage : ℕ
  pub best_session_difficulty_coverage : ℕ
  pub unhealthy_coverage : ℕ
  pub overheat_coverage : ℕ
  pub total_hashrate_gh_s : Option Float
  pub total_hashrate_th_s : Option Float
  pub total_power_w : Option Float
  pub efficiency_j_th : Option Float
  pub total_uptime_seconds : Option ℤ
  pub best_difficulty : Option Float
  pub best_session_difficulty : Option Float
  pub unhealthy_miners : Option ℕ
  pub overheating_miners : Option ℕ

-- `FleetAggregates.empty`
abbrev pub empty_aggregates : FleetAggregates
empty_aggregates = record {
  enabled_miners = 0;
  online_miners = 0;
  hashrate_coverage = 0;
  power_coverage = 0;
  uptime_coverage = 0;
  best_difficulty_coverage = 0;
  best_session_difficulty_coverage = 0;
  unhealthy_coverage = 0;
  overheat_coverage = 0;
  total_hashrate_gh_s = none;
  total_hashrate_th_s = none;
  total_power_w = none;
  efficiency_j_th = none;
  total_uptime_seconds = none;
  best_difficulty = none;
  best_session_difficulty = none;
  unhealthy_miners = none;
  overheating_miners = none;
}

-- The variables of the loop.
pub record Totals : Type 0 where
  pub hashrates : List Float
  pub powers : List Float
  pub uptimes : List ℤ
  pub best_difficulties : List Float
  pub best_session_difficulties : List Float
  pub unhealthy_coverage : ℕ
  pub overheat_coverage : ℕ
  pub unhealthy_miners : ℕ
  pub overheating_miners : ℕ

abbrev pub no_totals : Totals
no_totals = record {
  hashrates = [];
  powers = [];
  uptimes = [];
  best_difficulties = [];
  best_session_difficulties = [];
  unhealthy_coverage = 0;
  overheat_coverage = 0;
  unhealthy_miners = 0;
  overheating_miners = 0;
}

-- `if value is not None: values.append(value)`
abbrev pub append_some {ℓ} : {A : Type ℓ} → List A → Option A → List A
append_some xs none = xs
append_some xs (some x) = xs ++ x ∷ []

-- `condition != "unknown"`
abbrev pub is_known : SnapshotCondition → Bool
is_known unknown = false
is_known _ = true

-- `condition not in {"healthy", "paused"}`, of a known one
abbrev pub is_unhealthy : SnapshotCondition → Bool
is_unhealthy healthy = false
is_unhealthy paused = false
is_unhealthy unknown = false
is_unhealthy _ = true

-- `overheat_mode is not None`, and `overheat_mode != 0` of one
abbrev pub is_hot : Option ℤ → Bool
is_hot none = false
is_hot (some mode) = not (eq_ℤ mode (pos 0))

abbrev pub one_if : Bool → ℕ
one_if b = if b then 1 else 0

-- One round of the loop.
unfoldable pub add_snapshot : Totals → MinerSnapshot → Totals
add_snapshot t s = record {
  hashrates = append_some t.hashrates s.telemetry.hashrate_gh_s;
  powers = append_some t.powers s.telemetry.power_w;
  uptimes = append_some t.uptimes s.telemetry.uptime_seconds;
  best_difficulties = append_some t.best_difficulties s.telemetry.best_difficulty;
  best_session_difficulties =
      append_some t.best_session_difficulties s.telemetry.best_session_difficulty;
  unhealthy_coverage = t.unhealthy_coverage + one_if (is_known (snapshot_condition s));
  overheat_coverage = t.overheat_coverage + one_if (is_some s.health.overheat_mode);
  unhealthy_miners = t.unhealthy_miners + one_if (is_unhealthy (snapshot_condition s));
  overheating_miners = t.overheating_miners + one_if (is_hot s.health.overheat_mode);
}

unfoldable pub add_snapshots : Totals → List MinerSnapshot → Totals
unfolding add_snapshot
add_snapshots t [] = t
add_snapshots t (s ∷ ss) = add_snapshots (add_snapshot t s) ss

-- `max(values)`, the first of the greatest
unfoldable pub max_from : Float → List Float → Float
max_from best [] = best
max_from best (x ∷ xs) = max_from (if float_lt best x then x else best) xs

unfoldable pub max_or_none : List Float → Option Float
unfolding max_from
max_or_none [] = none
max_or_none (x ∷ xs) = some (max_from x xs)

unfoldable pub sum_from : ℤ → List ℤ → ℤ
sum_from total [] = total
sum_from total (n ∷ ns) = sum_from (total +ℤ n) ns

unfoldable pub sum_ints_or_none : List ℤ → Option ℤ
unfolding sum_from
sum_ints_or_none [] = none
sum_ints_or_none (n ∷ ns) = some (sum_from (pos 0) (n ∷ ns))

-- `count if coverage else None`
abbrev pub if_covered : ℕ → ℕ → Option ℕ
if_covered zero n = none
if_covered (suc coverage) n = some n

-- An expression that may raise, behind `if value is not None`.
abbrev pub option_bind {ℓ κ} : {A : Type ℓ} {B : Type κ} → Option A → (A → Option B) → Option B
option_bind none next = none
option_bind (some a) next = next a

abbrev pub over_some : Option Float → (Float → Option Float) → Option (Option Float)
over_some none f = some none
over_some (some x) f = option_bind (f x) (λ y. some (some y))

module _ (math : Arithmetic) where
  -- `_sum_or_none`
  unfoldable pub sum_or_none : List Float → Option (Option Float)
  sum_or_none [] = some none
  sum_or_none (x ∷ xs) = option_bind (math.fsum (x ∷ xs)) (λ y. some (some y))

  unfoldable pub terahashes : Option Float → Option (Option Float)
  terahashes total = over_some total (λ x. math.divide x (of_ℤ (pos 1000)))

  unfoldable pub efficiency : Option Float → Option Float → Option (Option Float)
  efficiency (some power) (some hashrate) =
      if float_lt (of_ℤ (pos 0)) hashrate
      then option_bind (math.divide hashrate (of_ℤ (pos 1000)))
          (λ th. option_bind (math.divide power th) (λ y. some (some y)))
      else some none
  efficiency _ _ = some none

  -- The totals, behind the loop.
  unfoldable pub summarize : ℕ → ℕ → Totals → Option FleetAggregates
  unfolding sum_or_none terahashes efficiency max_or_none sum_ints_or_none
  summarize enabled online t = option_bind (sum_or_none t.hashrates) (λ total_hashrate.
      option_bind (sum_or_none t.powers) (λ total_power.
        option_bind (terahashes total_hashrate) (λ total_hashrate_th.
          option_bind (efficiency total_power total_hashrate) (λ per_th. some (record {
            enabled_miners = enabled;
            online_miners = online;
            hashrate_coverage = length t.hashrates;
            power_coverage = length t.powers;
            uptime_coverage = length t.uptimes;
            best_difficulty_coverage = length t.best_difficulties;
            best_session_difficulty_coverage = length t.best_session_difficulties;
            unhealthy_coverage = t.unhealthy_coverage;
            overheat_coverage = t.overheat_coverage;
            total_hashrate_gh_s = total_hashrate;
            total_hashrate_th_s = total_hashrate_th;
            total_power_w = total_power;
            efficiency_j_th = per_th;
            total_uptime_seconds = sum_ints_or_none t.uptimes;
            best_difficulty = max_or_none t.best_difficulties;
            best_session_difficulty = max_or_none t.best_session_difficulties;
            unhealthy_miners = if_covered t.unhealthy_coverage t.unhealthy_miners;
            overheating_miners = if_covered t.overheat_coverage t.overheating_miners;
          })))))

  unfoldable pub calculate_fleet_aggregates : ℕ → List MinerSnapshot → Option FleetAggregates
  unfolding add_snapshots summarize
  calculate_fleet_aggregates enabled snapshots =
      summarize enabled (length snapshots) (add_snapshots no_totals snapshots)

-- ===== src/Fleet/Aggregates/Coverage.antt =====
-- What every result of the aggregates shows of its coverage.
use bitaxe_fleet.Prelude.{ℕ, ◌≡◌, ◌≤◌, ◌<◌, ◌↔◌, true, Option, none, some, is_some}
use bitaxe_fleet.Python.Float.{Float}
use bitaxe_fleet.Fleet.Aggregates.{FleetAggregates}

-- A total is absent exactly when nothing covers it.
abbrev pub IsAbsentAt {ℓ} : {A : Type ℓ} → Option A → ℕ → Type 0
IsAbsentAt o coverage = (is_some o ≡ true) ↔ (0 < coverage)

-- A number of miners is absent where nothing covers it, and is at most the coverage.
abbrev pub IsWithin : Option ℕ → ℕ → Type 0
IsWithin none coverage = coverage ≡ 0
IsWithin (some n) coverage = (0 < coverage) × (n ≤ coverage)

pub record IsCovered (a : FleetAggregates) : Type 0 where
  pub hashrate :
      (a.hashrate_coverage ≤ a.online_miners) × IsAbsentAt a.total_hashrate_gh_s a.hashrate_coverage
  pub power : (a.power_coverage ≤ a.online_miners) × IsAbsentAt a.total_power_w a.power_coverage
  pub unhealthy :
      (a.unhealthy_coverage ≤ a.online_miners) × IsWithin a.unhealthy_miners a.unhealthy_coverage
  pub overheating :
      (a.overheat_coverage ≤ a.online_miners) × IsWithin a.overheating_miners a.overheat_coverage

-- ===== src/Fleet/Aggregates/Reference.antt =====
-- The loop of the aggregates against a description with one comprehension for each of its variables.
use bitaxe_fleet.Prelude.{
  ℕ, ◌≡◌, ◌≤◌, ◌+◌, refl, ap, sym, ◌∙◌, Bool, true, Option, none, some, List, [], ◌∷◌, ◌++◌, arith,
  is_some, length, length-append, count,
}
use mathlib.Core.List.{append-nil, append_assoc}
use bitaxe_fleet.Axeos.Models.{MinerSnapshot}
use bitaxe_fleet.Recovery.State.{snapshot_condition}
use bitaxe_fleet.Fleet.Aggregates.{
  Arithmetic, Totals, no_totals, append_some, is_known, is_unhealthy, is_hot, one_if, add_snapshot,
  add_snapshots, summarize, calculate_fleet_aggregates,
}

-- `[f(s) for s in snapshots if f(s) is not None]`
unfoldable pub present {ℓ} : {A : Type ℓ} → (MinerSnapshot → Option A) → List MinerSnapshot → List A
present f [] = []
present f (s ∷ ss) = append_some [] (f s) ++ present f ss

-- Each variable by itself, over all snapshots.
unfoldable pub totals_of : List MinerSnapshot → Totals
unfolding present
totals_of ss = record {
  hashrates = present (λ s. s.telemetry.hashrate_gh_s) ss;
  powers = present (λ s. s.telemetry.power_w) ss;
  uptimes = present (λ s. s.telemetry.uptime_seconds) ss;
  best_difficulties = present (λ s. s.telemetry.best_difficulty) ss;
  best_session_difficulties = present (λ s. s.telemetry.best_session_difficulty) ss;
  unhealthy_coverage = count (λ s. is_known (snapshot_condition s)) ss;
  overheat_coverage = count (λ s. is_some s.health.overheat_mode) ss;
  unhealthy_miners = count (λ s. is_unhealthy (snapshot_condition s)) ss;
  overheating_miners = count (λ s. is_hot s.health.overheat_mode) ss;
}

-- The two totals one after the other.
abbrev plus : Totals → Totals → Totals
plus t u = record {
  hashrates = t.hashrates ++ u.hashrates;
  powers = t.powers ++ u.powers;
  uptimes = t.uptimes ++ u.uptimes;
  best_difficulties = t.best_difficulties ++ u.best_difficulties;
  best_session_difficulties = t.best_session_difficulties ++ u.best_session_difficulties;
  unhealthy_coverage = t.unhealthy_coverage + u.unhealthy_coverage;
  overheat_coverage = t.overheat_coverage + u.overheat_coverage;
  unhealthy_miners = t.unhealthy_miners + u.unhealthy_miners;
  overheating_miners = t.overheating_miners + u.overheating_miners;
}

append_some-append {ℓ} :
    {A : Type ℓ} (xs : List A) (o : Option A) (ys : List A)
    → append_some xs o ++ ys ≡ xs ++ (append_some [] o ++ ys)
append_some-append xs none ys = refl
append_some-append xs (some x) ys = append_assoc xs (x ∷ []) ys

add-zero : (n : ℕ) → n + 0 ≡ n
add-zero n = omega arith

add_assoc : (a b c : ℕ) → a + b + c ≡ a + (b + c)
add_assoc a b c = omega arith

plus-add :
    (t : Totals) (s : MinerSnapshot) (ss : List MinerSnapshot)
    → plus (add_snapshot t s) (totals_of ss) ≡ plus t (totals_of (s ∷ ss))
unfolding add_snapshot totals_of count
plus-add t s ss = λ i. record {
  hashrates = append_some-append t.hashrates (s.telemetry.hashrate_gh_s) (totals_of ss).hashrates i;
  powers = append_some-append t.powers (s.telemetry.power_w) (totals_of ss).powers i;
  uptimes = append_some-append t.uptimes (s.telemetry.uptime_seconds) (totals_of ss).uptimes i;
  best_difficulties =
      append_some-append t.best_difficulties (s.telemetry.best_difficulty)
        (totals_of ss).best_difficulties i;
  best_session_difficulties =
      append_some-append t.best_session_difficulties (s.telemetry.best_session_difficulty)
        (totals_of ss).best_session_difficulties i;
  unhealthy_coverage =
      add_assoc t.unhealthy_coverage (one_if (is_known (snapshot_condition s)))
        (totals_of ss).unhealthy_coverage i;
  overheat_coverage =
      add_assoc t.overheat_coverage (one_if (is_some s.health.overheat_mode))
        (totals_of ss).overheat_coverage i;
  unhealthy_miners =
      add_assoc t.unhealthy_miners (one_if (is_unhealthy (snapshot_condition s)))
        (totals_of ss).unhealthy_miners i;
  overheating_miners =
      add_assoc t.overheating_miners (one_if (is_hot s.health.overheat_mode))
        (totals_of ss).overheating_miners i;
}

plus_none : (t : Totals) → plus t (totals_of []) ≡ t
unfolding totals_of count
plus_none t = λ i. record {
  hashrates = append-nil t.hashrates i;
  powers = append-nil t.powers i;
  uptimes = append-nil t.uptimes i;
  best_difficulties = append-nil t.best_difficulties i;
  best_session_difficulties = append-nil t.best_session_difficulties i;
  unhealthy_coverage = add-zero t.unhealthy_coverage i;
  overheat_coverage = add-zero t.overheat_coverage i;
  unhealthy_miners = add-zero t.unhealthy_miners i;
  overheating_miners = add-zero t.overheating_miners i;
}

add_snapshots-plus :
    (ss : List MinerSnapshot) (t : Totals) → add_snapshots t ss ≡ plus t (totals_of ss)
unfolding add_snapshots
add_snapshots-plus [] t = sym (plus_none t)
add_snapshots-plus (s ∷ ss) t = add_snapshots-plus ss (add_snapshot t s) ∙ plus-add t s ss

zero-add : (n : ℕ) → 0 + n ≡ n
zero-add n = omega arith

none-plus : (t : Totals) → plus no_totals t ≡ t
none-plus t = λ i. record {
  hashrates = t.hashrates;
  powers = t.powers;
  uptimes = t.uptimes;
  best_difficulties = t.best_difficulties;
  best_session_difficulties = t.best_session_difficulties;
  unhealthy_coverage = zero-add t.unhealthy_coverage i;
  overheat_coverage = zero-add t.overheat_coverage i;
  unhealthy_miners = zero-add t.unhealthy_miners i;
  overheating_miners = zero-add t.overheating_miners i;
}

-- The loop gives what one comprehension for each variable gives.
pub add_snapshots_lem : (ss : List MinerSnapshot) → add_snapshots no_totals ss ≡ totals_of ss
add_snapshots_lem ss = add_snapshots-plus ss no_totals ∙ none-plus (totals_of ss)

pub length-present {ℓ} :
    {A : Type ℓ} (f : MinerSnapshot → Option A) (ss : List MinerSnapshot)
    → length (present f ss) ≡ count (λ s. is_some (f s)) ss
unfolding present count
length-present f [] = refl
length-present f (s ∷ ss) =
    ground (arith, length-present f ss, length-append (append_some [] (f s)) (present f ss))

pub count-le-count :
    (p q : MinerSnapshot → Bool) (ss : List MinerSnapshot)
    → ((s : MinerSnapshot) → p s ≡ true → q s ≡ true)
    → count p ss ≤ count q ss
unfolding count
count-le-count p q [] h = omega arith
count-le-count p q (s ∷ ss) h = ground (arith, h s, count-le-count p q ss h)

pub count-le-length : (p : MinerSnapshot → Bool) (ss : List MinerSnapshot) → count p ss ≤ length ss
unfolding count
count-le-length p [] = omega arith
count-le-length p (s ∷ ss) = ground (arith, count-le-length p ss)

module _ (math : Arithmetic) (enabled : ℕ) (ss : List MinerSnapshot) where
  -- The totals are those of the descriptions: each list holds the values that are there, in the order of
  -- the snapshots, and each count the snapshots that meet its test.
  pub calculate_fleet_aggregates_lem :
      calculate_fleet_aggregates math enabled ss ≡ summarize math enabled (length ss) (totals_of ss)
  unfolding calculate_fleet_aggregates
  calculate_fleet_aggregates_lem = ap (summarize math enabled (length ss)) (add_snapshots_lem ss)

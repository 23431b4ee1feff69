-- ===== src/Storage/Tests.antt =====
-- A registry with one miner, and the theorems of the storage at it.
use bitaxe_fleet.Prelude.{
  ℕ, ◌≡◌, refl, true, false, none, some, List, [], ◌∷◌, ◌++◌, arith, inl, if◌then◌else◌, zero, suc,
  all, keep,
}
use bitaxe_fleet.Python.Text.{Text, codes, strip, text_eq, lower_char}
use bitaxe_fleet.Redaction.{redact_text}
use bitaxe_fleet.Storage.Storable.{IsStoredText, IsStorable}
use bitaxe_fleet.Storage.Deserialize.{as_string_mapping, LoadedState}
use bitaxe_fleet.Storage.Load.{
  stored_required_text, stored_datetime, deserialize_state, load_incidents, stored_incident,
}
use bitaxe_fleet.Axeos.Parser.Fields.{get}
use bitaxe_fleet.Axeos.Parser.MinerId.{normalize_miner_id}
use bitaxe_fleet.Python.Value.{string_entries, fields_of, null, Value, str, dict}
use bitaxe_fleet.Python.Dict.{Dict, lookup}
use bitaxe_fleet.Python.Library.{Library}
use bitaxe_fleet.Python.Tests.{plain_library}
use bitaxe_fleet.Axeos.Errors.{ok, err, value_error}
use bitaxe_fleet.Axeos.Models.{MinerId, EnrolledMiner, default_policy}
use bitaxe_fleet.Axeos.Parser.MinerId.Canonical.{IsMac, normalize_miner_id-IsMac}
use bitaxe_fleet.Axeos.Parser.SystemInfo.Tests.{
  bare_snapshot, normalized, gateway-IsPrivate, default_policy-IsBounded, miner_a,
}
use bitaxe_fleet.Storage.State.{FleetIncident, MinerRegistry, contains_id, validate_text}
use bitaxe_fleet.Storage.Serialize.{serialize}
use bitaxe_fleet.Storage.Faults.{IsOvergrown, load_incidents_overgrown}
use bitaxe_fleet.Storage.RoundTrip.{deserialize-serialize}
use bitaxe_fleet.Storage.Operations
use bitaxe_fleet.Storage.Operations.{load, save, enrolled_from_snapshot}
use bitaxe_fleet.Storage.Operations.Invariant.{IsDurable, IsStorableSnapshot}
use bitaxe_fleet.Storage.Operations.Requests.{Request, enroll, set_enabled, remove, perform_all}
use bitaxe_fleet.Storage.Operations.Requests.Restart.{restart, perform_all-restart}
use bitaxe_fleet.Storage.Operations.Effects.{Describes, OnlyChanges, enroll_lem}
use bitaxe_fleet.Storage.Operations.Effects.Incidents.{Recorded, record_incident_lem}

miner_a-IsMac : IsMac miner_a
miner_a-IsMac = normalize_miner_id-IsMac (str (codes "A4-CF-12-00-00-01")) normalized

abbrev miner : EnrolledMiner
miner = record {
  endpoint = bare_snapshot.endpoint;
  identity = bare_snapshot.identity;
  display_name = none;
  enabled = true;
  recovery_profile = none;
  recovery_policy = default_policy;
}

abbrev registry : MinerRegistry
registry = record {
  miners = (miner_a, miner) ∷ [];
  rejected_candidates = [];
  incidents = [];
  loaded = true;
  document = none;
}

model-IsStored : IsStoredText plain_library 128 (codes "BM1370")
unfolding strip all
model-IsStored = record { stripped = refl; not_blank = refl; short = omega arith; printed = refl }

snapshot-IsStorable : IsStorableSnapshot plain_library bare_snapshot
snapshot-IsStorable = record {
  endpoint_storable = record { local = gateway-IsPrivate; http = refl };
  identity_storable = record {
    identified = miner_a-IsMac;
    named = tt;
    model = model-IsStored;
    board = tt;
    firmware = tt;
  };
}

registry-IsStorable : IsStorable plain_library registry
unfolding lookup
registry-IsStorable = record {
  distinct = (refl, tt);
  miners_storable = (
    record {
      keyed = refl;
      miner_storable = record {
        endpoint_storable = snapshot-IsStorable.endpoint_storable;
        identity_storable = snapshot-IsStorable.identity_storable;
        name_storable = tt;
        profile_bounded = tt;
        policy_bounded = default_policy-IsBounded;
      };
    },
    tt,
  );
  ids_storable = tt;
  incidents_storable = tt;
  incidents_bounded = omega arith;
}

abbrev stored : MinerRegistry
stored = record registry { document = some (serialize plain_library registry) }

stored-IsDurable : IsDurable plain_library stored
unfolding serialize
stored-IsDurable = record {
  storable = record {
    distinct = registry-IsStorable.distinct;
    miners_storable = registry-IsStorable.miners_storable;
    ids_storable = tt;
    incidents_storable = tt;
    incidents_bounded = omega arith;
  };
  saved = refl;
  running = refl;
}

abbrev requests : List Request
requests = enroll bare_snapshot ∷ set_enabled miner_a false ∷ remove miner_a ∷ []

deserialize-serialize_example :
    (l : LoadedState) × (deserialize_state plain_library (serialize plain_library registry) ≡ ok l)
    × (l.miners ≡ registry.miners)
    × (l.incidents ≡ registry.incidents)
    × ((x : Text)
        → contains_id x l.rejected_candidates ≡ contains_id x registry.rejected_candidates)
    × (l.needs_migration_save ≡ false)
deserialize-serialize_example = deserialize-serialize plain_library registry registry-IsStorable

perform_all-restart_example :
    let before = perform_all plain_library requests stored in
    let (result, after) = load plain_library (restart plain_library before) in
    (result ≡ ok tt)
    × (after.miners ≡ before.miners)
    × (after.incidents ≡ before.incidents)
    × ((x : MinerId)
        → contains_id x after.rejected_candidates ≡ contains_id x before.rejected_candidates)
perform_all-restart_example =
    perform_all-restart plain_library requests stored (snapshot-IsStorable, (tt, (tt, tt)))
      stored-IsDurable

enroll_lem_example :
    let (result, r) = Operations.enroll plain_library bare_snapshot registry in
    (m : EnrolledMiner) × (result ≡ ok m)
    × Describes bare_snapshot (lookup miner_a registry.miners) m
    × OnlyChanges miner_a (some m) registry r
    × ((j : MinerId)
        → contains_id j r.rejected_candidates
          ≡ (if text_eq j miner_a then false else contains_id j registry.rejected_candidates))
    × (r.incidents ≡ registry.incidents)
enroll_lem_example = enroll_lem plain_library bare_snapshot registry refl

record_incident_lem_example :
    Recorded
      (codes "1")
      5
      miner_a
      (validate_text plain_library (str (codes "cause")) 128)
      (validate_text plain_library (str (codes "failed")) 128)
      (validate_text plain_library (str (redact_text plain_library (codes "x"))) 512)
      registry
      (Operations.record_incident plain_library
        (codes "1")
        5
        miner_a
        (codes "cause")
        (codes "failed")
        (codes "x")
        registry)
record_incident_lem_example =
    record_incident_lem plain_library (codes "1") 5 miner_a (codes "cause") (codes "failed")
      (codes "x") registry refl

repeated : ℕ → Text
repeated zero = []
repeated (suc n) = 97 ∷ repeated n

-- Each pattern is found once, at the end.
abbrev growing_library : Library
growing_library = record plain_library { sub = λ pattern replacement s. s ++ replacement }

abbrev long_incident : FleetIncident
long_incident = record {
  incident_id = codes "1";
  miner_id = miner_a;
  occurred_at = 5;
  cause = codes "cause";
  outcome = codes "failed";
  detail = repeated 500;
}

abbrev incident_entries : Dict Value
incident_entries =
    (codes "incident_id", str (codes "1"))
    ∷ (codes "miner_id", str miner_a)
    ∷ (codes "occurred_at", str (5 ∷ []))
    ∷ (codes "cause", str (codes "cause"))
    ∷ (codes "outcome", str (codes "failed"))
    ∷ (codes "detail", str (repeated 500))
    ∷ []

long_incident-IsOvergrown :
    IsOvergrown growing_library value_error (dict (fields_of incident_entries))
unfolding repeated as_string_mapping string_entries fields_of stored_incident stored_required_text
    get text_eq validate_text strip all normalize_miner_id keep lower_char stored_datetime
    redact_text
long_incident-IsOvergrown = (incident_entries, long_incident, refl, refl, refl)

load_incidents_overgrown_example :
    load_incidents growing_library (null ∷ dict (fields_of incident_entries) ∷ []) []
    ≡ err value_error
unfolding as_string_mapping
load_incidents_overgrown_example =
    load_incidents_overgrown growing_library (null ∷ []) [] (dict (fields_of incident_entries))
      value_error [] (inl refl, tt) long_incident-IsOvergrown

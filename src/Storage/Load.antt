-- ===== src/Storage/Load.antt =====
-- storage.py: the stored miners, rejections and incidents, and the whole document.
use bitaxe_fleet.Prelude.{
  ℕ, Bool, true, false, ◌||◌, not, Option, none, some, List, [], ◌∷◌, ◌++◌, ◌-◌, if◌then◌else◌, ℤ,
  pos, eq_ℤ, length, drop,
}
use bitaxe_fleet.Python.Text.{Text, codes, text_eq}
use bitaxe_fleet.Python.Float.{float_eq, of_ℤ}
use bitaxe_fleet.Python.Value.{Value, null, boolean, int, float, str, array, list_of}
use bitaxe_fleet.Python.Dict.{Dict, insert}
use bitaxe_fleet.Python.Library.{Library, Timestamp, naive, aware}
use bitaxe_fleet.Axeos.Errors.{value_error, Result, ok, err, ◌>>=◌, or_raise}
use bitaxe_fleet.Axeos.Models.{Time, EnrolledMiner, default_policy, default_http_port}
use bitaxe_fleet.Axeos.Parser.Address.{parse_private_ipv4}
use bitaxe_fleet.Axeos.Parser.Fields.{get}
use bitaxe_fleet.Axeos.Parser.MinerId.{normalize_miner_id}
use bitaxe_fleet.Axeos.Parser.SystemInfo.{is_hostname}
use bitaxe_fleet.Redaction.{redact_text}
use bitaxe_fleet.Storage.State.{
  FleetIncident, IdSet, add_id, max_text_length, max_incident_detail_length, max_stored_incidents,
  validate_text,
}
use bitaxe_fleet.Storage.Deserialize.{
  LoadedState, nothing_loaded, as_string_mapping, stored_bool_or_true, deserialize_profile,
  deserialize_policy, none_on_error,
}

-- The last `n` items, `items[-n:]`.
abbrev pub last_items {ℓ} : {A : Type ℓ} → ℕ → List A → List A
last_items n xs = drop (length xs - n) xs

-- `schema_version == n`: Python compares numbers across their types, and True is 1.
unfoldable pub equals_number : Value → ℤ → Bool
equals_number (int m) n = eq_ℤ m n
equals_number (float x) n = float_eq x (of_ℤ n)
equals_number (boolean true) n = eq_ℤ (pos 1) n
equals_number (boolean false) n = eq_ℤ (pos 0) n
equals_number _ n = false

unfoldable pub is_bool : Value → Bool
is_bool (boolean _) = true
is_bool _ = false

-- `_deserialize_rejections`
unfoldable pub add_valid : Result Text → IdSet → IdSet
add_valid (ok m) s = add_id m s
add_valid (err _) s = s

unfoldable pub load_rejections : List Value → IdSet → IdSet
unfolding add_valid
load_rejections [] s = s
load_rejections (v ∷ vs) s = load_rejections vs (add_valid (normalize_miner_id v) s)

unfoldable pub deserialize_rejections : Value → IdSet
deserialize_rejections (array items) = load_rejections (list_of items) []
deserialize_rejections _ = []

module _ (lib : Library) where
  -- `_stored_optional_text`
  optional_str : Value → Result (Option Text)
  optional_str null = ok none
  optional_str v = validate_text lib v max_text_length >>= λ s. ok (some s)

  unfoldable pub stored_optional_text : Dict Value → Text → Result (Option Text)
  unfolding optional_str
  stored_optional_text r key = optional_str (get key r)

  -- `_stored_required_text`
  required_str : Value → ℕ → Result Text
  required_str null limit = err value_error
  required_str v limit = validate_text lib v limit

  unfoldable pub stored_required_text : Dict Value → Text → ℕ → Result Text
  unfolding required_str
  stored_required_text r key limit = required_str (get key r) limit

  -- `_stored_optional_hostname`
  checked_hostname : Option Text → Result (Option Text)
  checked_hostname none = ok none
  checked_hostname (some h) = if is_hostname h then ok (some h) else err value_error

  unfoldable pub stored_optional_hostname : Dict Value → Result (Option Text)
  unfolding checked_hostname
  stored_optional_hostname r = stored_optional_text r (codes "hostname") >>= λ h. checked_hostname h

  -- `_stored_datetime`
  moment : Timestamp → Result Time
  moment (naive t) = err value_error
  moment (aware t) = ok t

  unfoldable pub stored_datetime : Value → Result Time
  unfolding moment
  stored_datetime (str s) = or_raise (lib.fromisoformat s) value_error >>= λ t. moment t
  stored_datetime _ = err value_error

  -- The part of a stored miner that both schemas have, as the miner that the first schema gives.
  unfoldable pub stored_base : Dict Value → Result EnrolledMiner
  stored_base r = do
    miner_id ← normalize_miner_id (get (codes "miner_id") r)
    hostname ← stored_optional_hostname r
    asic_model ← stored_optional_text r (codes "asic_model")
    board_version ← stored_optional_text r (codes "board_version")
    firmware_version ← stored_optional_text r (codes "firmware_version")
    host ← parse_private_ipv4 (get (codes "host") r)
    ok (record {
      endpoint = record { host = host; port = default_http_port };
      identity = record {
        miner_id = miner_id;
        hostname = hostname;
        asic_model = asic_model;
        board_version = board_version;
        firmware_version = firmware_version;
      };
      display_name = none;
      enabled = true;
      recovery_profile = none;
      recovery_policy = default_policy;
    })

  -- The settings of the second schema.
  unfoldable pub stored_settings : Dict Value → EnrolledMiner → Result EnrolledMiner
  stored_settings r base = do
    display_name ← stored_optional_text r (codes "display_name")
    enabled ← stored_bool_or_true r (codes "enabled")
    profile ← deserialize_profile (get (codes "recovery_profile") r)
    policy ← deserialize_policy (get (codes "recovery_policy") r)
    ok (record base {
      display_name = display_name;
      enabled = enabled;
      recovery_profile = profile;
      recovery_policy = policy;
    })

  -- `_deserialize_miner`
  miner_fields : Option (Dict Value) → Bool → Result (Option EnrolledMiner)
  miner_fields none legacy = ok none
  miner_fields (some r) legacy =
      none_on_error (stored_base r >>= λ base. if legacy then ok base else stored_settings r base)

  unfoldable pub deserialize_miner : Value → Bool → Result (Option EnrolledMiner)
  unfolding miner_fields
  deserialize_miner v legacy = miner_fields (as_string_mapping v) legacy

  -- `_deserialize_miners`: a record whose key is not its id is dropped
  unfoldable pub accept_miner :
      Text → Option EnrolledMiner → Dict EnrolledMiner → Dict EnrolledMiner
  accept_miner key none miners = miners
  accept_miner key (some m) miners =
      if text_eq key m.identity.miner_id then insert m.identity.miner_id m miners else miners

  unfoldable pub load_miners : Dict Value → Bool → Dict EnrolledMiner → Result (Dict EnrolledMiner)
  load_miners [] legacy miners = ok miners
  load_miners ((key, v) ∷ rest) legacy miners =
      deserialize_miner v legacy >>= λ m. load_miners rest legacy (accept_miner key m miners)

  all_miners : Option (Dict Value) → Bool → Result (Dict EnrolledMiner)
  all_miners none legacy = ok []
  all_miners (some records) legacy = load_miners records legacy []

  unfoldable pub deserialize_miners : Value → Bool → Result (Dict EnrolledMiner)
  unfolding all_miners
  deserialize_miners v legacy = all_miners (as_string_mapping v) legacy

  -- `_deserialize_incident`: what its `try` reads; the detail is redacted and validated again behind
  -- it, where an error is not caught
  unfoldable pub stored_incident : Dict Value → Result FleetIncident
  stored_incident r = do
    incident_id ← stored_required_text r (codes "incident_id") 64
    miner_id ← normalize_miner_id (get (codes "miner_id") r)
    occurred_at ← stored_datetime (get (codes "occurred_at") r)
    cause ← stored_required_text r (codes "cause") max_text_length
    outcome ← stored_required_text r (codes "outcome") max_text_length
    detail ← stored_required_text r (codes "detail") max_incident_detail_length
    ok (record {
      incident_id = incident_id;
      miner_id = miner_id;
      occurred_at = occurred_at;
      cause = cause;
      outcome = outcome;
      detail = detail;
    })

  unfoldable pub redacted_incident : Option FleetIncident → Result (Option FleetIncident)
  redacted_incident none = ok none
  redacted_incident (some i) = do
    detail ← validate_text lib (str (redact_text lib i.detail)) max_incident_detail_length
    ok (some (record i { detail = detail }))

  incident_fields : Option (Dict Value) → Result (Option FleetIncident)
  incident_fields none = ok none
  incident_fields (some r) = none_on_error (stored_incident r) >>= redacted_incident

  unfoldable pub deserialize_incident : Value → Result (Option FleetIncident)
  unfolding incident_fields
  deserialize_incident v = incident_fields (as_string_mapping v)

  -- `_deserialize_incidents`
  unfoldable pub load_incidents : List Value → List FleetIncident → Result (List FleetIncident)
  load_incidents [] incidents = ok incidents
  load_incidents (v ∷ vs) incidents = deserialize_incident v >>= elim [
    | none ↦ load_incidents vs incidents
    | some i ↦ load_incidents vs (incidents ++ i ∷ [])
  ]

  unfoldable pub deserialize_incidents : Value → Result (List FleetIncident)
  deserialize_incidents (array items) =
      load_incidents (last_items max_stored_incidents (list_of items)) []
  deserialize_incidents _ = ok []

  -- `_deserialize_state`
  unfoldable pub load_document : Option (Dict Value) → Result LoadedState
  load_document none = ok nothing_loaded
  load_document (some root) =
      if equals_number (get (codes "schema_version") root) (pos 1)
      then (deserialize_miners (get (codes "miners") root) true >>= λ miners. ok (record {
        miners = miners;
        rejected_candidates = [];
        incidents = [];
        needs_migration_save = true;
      }))
      else if not (equals_number (get (codes "schema_version") root) (pos 2))
          || is_bool (get (codes "schema_version") root)
      then ok nothing_loaded
      else (do
        miners ← deserialize_miners (get (codes "miners") root) false
        let rejected = deserialize_rejections (get (codes "rejected_candidates") root)
        incidents ← deserialize_incidents (get (codes "incidents") root)
        ok (record {
          miners = miners;
          rejected_candidates = rejected;
          incidents = incidents;
          needs_migration_save = false;
        }))

  unfoldable pub deserialize_state : Value → Result LoadedState
  deserialize_state data' = load_document (as_string_mapping data')

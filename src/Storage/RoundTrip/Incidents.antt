-- ===== src/Storage/RoundTrip/Incidents.antt =====
-- About the incidents in the document.
use bitaxe_fleet.Prelude.{
  ℕ, ◌≡◌, ◌≤◌, refl, ap, some, List, [], ◌∷◌, ◌++◌, ◌-◌, arith, length, All, suc,
}
use mathlib.Core.List.{append_assoc, append-nil}
use bitaxe_fleet.Python.Text.{Text, codes, text_eq}
use bitaxe_fleet.Python.Value.{Value, str, string_entries, list_of}
use bitaxe_fleet.Python.Dict.{Dict, lookup}
use bitaxe_fleet.Python.Library.{Library}
use bitaxe_fleet.Axeos.Errors.{ok}
use bitaxe_fleet.Axeos.Parser.Fields.{get}
use bitaxe_fleet.Axeos.Parser.MinerId.Canonical.{normalize_miner_id_keeps}
use bitaxe_fleet.Storage.State.{FleetIncident, max_stored_incidents}
use bitaxe_fleet.Storage.Serialize.{serialize_incident, serialize_incidents}
use bitaxe_fleet.Storage.Deserialize.{as_string_mapping, none_on_error}
use bitaxe_fleet.Storage.Load.{
  stored_required_text, stored_datetime, stored_incident, redacted_incident, deserialize_incident,
  load_incidents, last_items,
}
use bitaxe_fleet.Storage.Storable.{IsStoredText, IsStorableIncident}
use bitaxe_fleet.Storage.RoundTrip.Fields.{validate_text_keeps}

module _ (lib : Library) where
  stored_required_text_keeps :
      (r : Dict Value) (key s : Text) (limit : ℕ)
      → get key r ≡ str s
      → IsStoredText lib limit s
      → stored_required_text lib r key limit ≡ ok s
  unfolding stored_required_text
  stored_required_text_keeps r key s limit e h = rw (e, validate_text_keeps lib s limit h)

  abbrev entries : FleetIncident → Dict Value
  entries i =
      (codes "cause", str i.cause)
      ∷ (codes "detail", str i.detail)
      ∷ (codes "incident_id", str i.incident_id)
      ∷ (codes "miner_id", str i.miner_id)
      ∷ (codes "occurred_at", str (lib.isoformat i.occurred_at))
      ∷ (codes "outcome", str i.outcome)
      ∷ []

  stored_incident_keeps :
      (i : FleetIncident) → IsStorableIncident lib i → stored_incident lib (entries i) ≡ ok i
  unfolding stored_incident stored_datetime get lookup text_eq
  stored_incident_keeps i h = rw (
    stored_required_text_keeps (entries i) (codes "incident_id") i.incident_id 64 refl h.id_text,
    normalize_miner_id_keeps i.miner_id h.about,
    h.dated,
    stored_required_text_keeps (entries i) (codes "cause") i.cause 128 refl h.cause_text,
    stored_required_text_keeps (entries i) (codes "outcome") i.outcome 128 refl h.outcome_text,
    stored_required_text_keeps (entries i) (codes "detail") i.detail 512 refl h.detail_text,
  )

  deserialize-serialize_incident :
      (i : FleetIncident)
      → IsStorableIncident lib i
      → deserialize_incident lib (serialize_incident lib i) ≡ ok (some i)
  unfolding deserialize_incident serialize_incident as_string_mapping string_entries none_on_error
      redacted_incident
  deserialize-serialize_incident i h = rw (
    stored_incident_keeps i h,
    h.detail_redacted,
    validate_text_keeps lib i.detail 512 h.detail_text,
  )

  load_incidents_keeps :
      (is acc : List FleetIncident)
      → All (IsStorableIncident lib) is
      → load_incidents lib (list_of (serialize_incidents lib is)) acc ≡ ok (acc ++ is)
  unfolding load_incidents list_of serialize_incidents
  load_incidents_keeps [] acc h = rw append-nil
  load_incidents_keeps (i ∷ is) acc h = rw (
    deserialize-serialize_incident i h.0,
    load_incidents_keeps is (acc ++ i ∷ []) h.1,
    append_assoc,
  )

  length-serialize_incidents :
      (is : List FleetIncident) → length (list_of (serialize_incidents lib is)) ≡ length is
  unfolding serialize_incidents list_of
  length-serialize_incidents [] = refl
  length-serialize_incidents (i ∷ is) = ap suc (length-serialize_incidents is)

  pub last_items_all {ℓ} : {A : Type ℓ} (n : ℕ) (xs : List A) → length xs ≤ n → last_items n xs ≡ xs
  last_items_all n xs h = let e : length xs - n ≡ 0 = omega arith in rw e

  -- At most a hundred storable incidents read back as they were.
  pub incidents_keep :
      (is : List FleetIncident)
      → All (IsStorableIncident lib) is
      → length is ≤ max_stored_incidents
      → load_incidents lib
          (last_items max_stored_incidents (list_of (serialize_incidents lib is)))
          []
        ≡ ok is
  incidents_keep is h short =
      rw
        (last_items_all max_stored_incidents (list_of (serialize_incidents lib is))
          (rw (length-serialize_incidents is) short))
        (load_incidents_keeps is [] h)

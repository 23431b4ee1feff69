-- ===== src/Storage/Faults.antt =====
-- How the reading of stored incidents treats an entry that it cannot read.
use bitaxe_fleet.Prelude.{◌≡◌, refl, ◌∙◌, true, none, some, List, [], ◌∷◌, ◌++◌, ◌⊎◌, inl, inr, All}
use bitaxe_fleet.Python.Value.{Value, str}
use bitaxe_fleet.Python.Dict.{Dict}
use bitaxe_fleet.Python.Library.{Library}
use bitaxe_fleet.Axeos.Errors.{Error, is_axeos_or_value_error, ok, err}
use bitaxe_fleet.Redaction.{redact_text}
use bitaxe_fleet.Storage.State.{FleetIncident, validate_text, max_incident_detail_length}
use bitaxe_fleet.Storage.Deserialize.{as_string_mapping, none_on_error}
use bitaxe_fleet.Storage.Load.{
  stored_incident, redacted_incident, deserialize_incident, load_incidents,
}

module _ (lib : Library) where
  -- An entry that is no mapping, or whose reading raises a device error or a ValueError.
  abbrev pub IsUnreadable : Value → Type 0
  IsUnreadable v =
      (as_string_mapping v ≡ none)
      ⊎ ((fields : Dict Value) × (e : Error) × (as_string_mapping v ≡ some fields)
          × (stored_incident lib fields ≡ err e)
          × (is_axeos_or_value_error e ≡ true))

  -- An entry that reads as an incident whose detail is refused once it is redacted.
  abbrev pub IsOvergrown : Error → Value → Type 0
  IsOvergrown e v =
      (fields : Dict Value) × (i : FleetIncident) × (as_string_mapping v ≡ some fields)
      × (stored_incident lib fields ≡ ok i)
      × (validate_text lib (str (redact_text lib i.detail)) max_incident_detail_length ≡ err e)

  unreadable_lem : (v : Value) → IsUnreadable v → deserialize_incident lib v ≡ ok none
  unfolding deserialize_incident none_on_error redacted_incident
  unreadable_lem v (inl absent) = rw absent refl
  unreadable_lem v (inr (fields, e, mapped, failed, caught)) = rw (mapped, failed, caught) refl

  overgrown_lem : (e : Error) (v : Value) → IsOvergrown e v → deserialize_incident lib v ≡ err e
  unfolding deserialize_incident none_on_error redacted_incident
  overgrown_lem e v (fields, i, mapped, read, refused) = rw (mapped, read, refused) refl

  -- Unreadable entries are passed over, wherever they stand before the others.
  pub load_incidents_unreadable :
      (bad rest : List Value) (incidents : List FleetIncident)
      → All IsUnreadable bad
      → load_incidents lib (bad ++ rest) incidents ≡ load_incidents lib rest incidents
  unfolding load_incidents
  load_incidents_unreadable [] rest incidents h = refl
  load_incidents_unreadable (v ∷ bad) rest incidents h =
      rw (unreadable_lem v h.0) (load_incidents_unreadable bad rest incidents h.1)

  -- Behind any unreadable entries, which are passed over, an entry that reads as an incident but whose
  -- redacted detail is refused is not: the reading of the whole list raises its error, whatever stands
  -- behind it and was read before.
  pub load_incidents_overgrown :
      (bad rest : List Value) (v : Value) (e : Error) (incidents : List FleetIncident)
      → All IsUnreadable bad
      → IsOvergrown e v
      → load_incidents lib (bad ++ v ∷ rest) incidents ≡ err e
  unfolding load_incidents
  load_incidents_overgrown bad rest v e incidents h g =
      load_incidents_unreadable bad (v ∷ rest) incidents h ∙ rw (overgrown_lem e v g) refl

-- ===== src/Storage/Storable.antt =====
-- What a registry holds that can be written and read back: the invariant of storage.py.
use bitaxe_fleet.Prelude.{ℕ, ◌≡◌, ◌≤◌, true, false, Option, none, some, length, all, All}
use bitaxe_fleet.Python.Text.{Text, strip, is_empty}
use bitaxe_fleet.Python.Dict.{Distinct, AllEntries}
use bitaxe_fleet.Python.Library.{Library, aware}
use bitaxe_fleet.Axeos.Models.{
  MinerEndpoint, MinerIdentity, EnrolledMiner, RecoveryProfile, IsBoundedProfile, IsBoundedPolicy,
  default_http_port,
}
use bitaxe_fleet.Axeos.Parser.Address.RoundTrip.{IsPrivate}
use bitaxe_fleet.Axeos.Parser.MinerId.Canonical.{IsMac}
use bitaxe_fleet.Axeos.Parser.SystemInfo.{is_hostname}
use bitaxe_fleet.Redaction.{redact_text}
use bitaxe_fleet.Storage.State.{FleetIncident, MinerRegistry, max_stored_incidents}

abbrev pub IsBoundedOption : Option RecoveryProfile → Type 0
IsBoundedOption none = Unit
IsBoundedOption (some p) = IsBoundedProfile p

pub record IsStorableEndpoint (e : MinerEndpoint) : Type 0 where
  pub local : IsPrivate e.host
  pub http : e.port ≡ default_http_port

module _ (lib : Library) where
  -- A text that `_validate_text` returned.
  pub record IsStoredText (limit : ℕ) (s : Text) : Type 0 where
    pub stripped : strip s ≡ s
    pub not_blank : is_empty s ≡ false
    pub short : length s ≤ limit
    pub printed : all lib.printable s ≡ true

  abbrev pub IsStoredOption : Option Text → Type 0
  IsStoredOption none = Unit
  IsStoredOption (some s) = IsStoredText 128 s

  abbrev pub IsStoredHostname : Option Text → Type 0
  IsStoredHostname none = Unit
  IsStoredHostname (some h) = IsStoredText 128 h × (is_hostname h ≡ true)

  pub record IsStorableIdentity (i : MinerIdentity) : Type 0 where
    pub identified : IsMac i.miner_id
    pub named : IsStoredHostname i.hostname
    pub model : IsStoredOption i.asic_model
    pub board : IsStoredOption i.board_version
    pub firmware : IsStoredOption i.firmware_version

  pub record IsStorableMiner (m : EnrolledMiner) : Type 0 where
    pub endpoint_storable : IsStorableEndpoint m.endpoint
    pub identity_storable : IsStorableIdentity m.identity
    pub name_storable : IsStoredOption m.display_name
    pub profile_bounded : IsBoundedOption m.recovery_profile
    pub policy_bounded : IsBoundedPolicy m.recovery_policy

  -- A miner under its own id.
  pub record IsStorableEntry (k : Text) (m : EnrolledMiner) : Type 0 where
    pub keyed : k ≡ m.identity.miner_id
    pub miner_storable : IsStorableMiner m

  -- The detail was redacted before, and a second pass finds nothing.
  pub record IsStorableIncident (i : FleetIncident) : Type 0 where
    pub id_text : IsStoredText 64 i.incident_id
    pub about : IsMac i.miner_id
    pub dated : lib.fromisoformat (lib.isoformat i.occurred_at) ≡ some (aware i.occurred_at)
    pub cause_text : IsStoredText 128 i.cause
    pub outcome_text : IsStoredText 128 i.outcome
    pub detail_text : IsStoredText 512 i.detail
    pub detail_redacted : redact_text lib i.detail ≡ i.detail

  pub record IsStorable (r : MinerRegistry) : Type 0 where
    pub distinct : Distinct r.miners
    pub miners_storable : AllEntries IsStorableEntry r.miners
    pub ids_storable : All IsMac r.rejected_candidates
    pub incidents_storable : All IsStorableIncident r.incidents
    pub incidents_bounded : length r.incidents ≤ max_stored_incidents

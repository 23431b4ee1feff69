-- ===== src/Storage/Operations/Requests.antt =====
-- storage.py: requests to the registry, in any order.
pub mod Steps
pub mod Restart
use bitaxe_fleet.Prelude.{
  ℕ, ◌≡◌, refl, ap, sym, ◌∙◌, Bool, true, false, Option, none, some, List, [], ◌∷◌, ◌++◌, arith,
  if◌then◌else◌, All,
}
use mathlib.Core.Path.{subst}
use bitaxe_fleet.Python.Text.{Text, strip, strip-strip}
use bitaxe_fleet.Python.Value.{Value, null, str}
use bitaxe_fleet.Python.Library.{Library, aware}
use bitaxe_fleet.Axeos.Errors
use bitaxe_fleet.Axeos.Errors.{Error, Result, ok, err}
use bitaxe_fleet.Axeos.Models.{
  MinerId, Time, MinerSnapshot, EnrolledMiner, RecoveryProfile, RecoveryPolicy, IsBoundedPolicy,
}
use bitaxe_fleet.Axeos.Parser.MinerId.Canonical.{IsMac}
use bitaxe_fleet.Redaction.{redact_text}
use bitaxe_fleet.Storage.State.{
  FleetIncident, MinerRegistry, contains_id, validate_text, validate_optional_display_name,
}
use bitaxe_fleet.Storage.Storable.{
  IsStorable, IsStorableMiner, IsStorableIncident, IsBoundedOption, IsStoredText, IsStoredOption,
}
use bitaxe_fleet.Storage.Serialize.{serialize}
use bitaxe_fleet.Storage.Deserialize.{LoadedState}
use bitaxe_fleet.Storage.Load.{deserialize_state}
use bitaxe_fleet.Storage.RoundTrip.{deserialize-serialize}
use bitaxe_fleet.Storage.Operations
use bitaxe_fleet.Storage.Operations.{load, take_over, rename_loaded, record_valid, record_loaded}
use bitaxe_fleet.Storage.Operations.Invariant.{
  IsDurable, IsStorableSnapshot, IsSettingsChange, enroll_loaded-IsDurable, update_loaded-IsDurable,
  change_miner-IsDurable, reject_loaded-IsDurable, remove_loaded-IsDurable,
  append_incident-IsDurable,
}

-- A call of one public method, with its arguments.
pub data Request : Type 0 where
  enroll update_from_snapshot : MinerSnapshot → Request
  set_enabled : MinerId → Bool → Request
  set_display_name : MinerId → Value → Request
  set_recovery_profile : MinerId → Option RecoveryProfile → Request
  set_recovery_policy : MinerId → RecoveryPolicy → Request
  reject_candidate remove : MinerId → Request
  record_incident : Text → Time → MinerId → Text → Text → Text → Request

module _ (lib : Library) where
  -- The registry after the call, whether it returned or raised.
  pub perform : Request → MinerRegistry → MinerRegistry
  perform (enroll s) r = (Operations.enroll lib s r).1
  perform (update_from_snapshot s) r = (Operations.update_from_snapshot lib s r).1
  perform (set_enabled k b) r = (Operations.set_enabled lib k b r).1
  perform (set_display_name k v) r = (Operations.set_display_name lib k v r).1
  perform (set_recovery_profile k p) r = (Operations.set_recovery_profile lib k p r).1
  perform (set_recovery_policy k p) r = (Operations.set_recovery_policy lib k p r).1
  perform (reject_candidate k) r = (Operations.reject_candidate lib k r).1
  perform (remove k) r = (Operations.remove lib k r).1
  perform (record_incident i t k c o d) r = (Operations.record_incident lib i t k c o d r).1

  pub perform_all : List Request → MinerRegistry → MinerRegistry
  perform_all [] r = r
  perform_all (q ∷ qs) r = perform_all qs (perform q r)

  -- Each incident that could result is storable: its id and time can be written, its miner id is one,
  -- and a second redaction finds nothing in its detail.
  pub record IsSettled (incident_id : Text) (t : Time) (k : MinerId) (detail : Text) : Type 0 where
    pub id_text : IsStoredText lib 64 incident_id
    pub dated : lib.fromisoformat (lib.isoformat t) ≡ some (aware t)
    pub about : IsMac k
    pub settled : redact_text lib (strip (redact_text lib detail)) ≡ strip (redact_text lib detail)

  -- What the callers see to: ids and snapshots come from the parser, profiles and policies from
  -- their constructors.
  abbrev pub IsValidRequest : Request → Type 0
  IsValidRequest (enroll s) = IsStorableSnapshot lib s
  IsValidRequest (update_from_snapshot s) = IsStorableSnapshot lib s
  IsValidRequest (set_enabled k b) = Unit
  IsValidRequest (set_display_name k v) = Unit
  IsValidRequest (set_recovery_profile k p) = IsBoundedOption p
  IsValidRequest (set_recovery_policy k p) = IsBoundedPolicy p
  IsValidRequest (reject_candidate k) = IsMac k
  IsValidRequest (remove k) = Unit
  IsValidRequest (record_incident i t k c o d) = IsSettled i t k d

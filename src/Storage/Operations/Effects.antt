-- ===== src/Storage/Operations/Effects.antt =====
-- About what the operations of a loaded registry change; here the approval.
pub mod Settings
pub mod Incidents
use bitaxe_fleet.Prelude.{
  ℕ, ◌≡◌, ◌≤◌, refl, ap, sym, ◌∙◌, Bool, true, false, not, Option, none, some, List, [], ◌∷◌, ◌++◌,
  arith, if◌then◌else◌, length, keep, Bool-cases, inl, inr,
}
use bitaxe_fleet.Python.Text.{Text, text_eq, text_eq_refl}
use bitaxe_fleet.Python.Dict.{Dict, lookup, lookup-insert, lookup-erase}
use bitaxe_fleet.Python.Library.{Library}
use bitaxe_fleet.Axeos.Errors.{Error, key_error, Result, ok, err}
use bitaxe_fleet.Python.Value.{Value}
use mathlib.Core.Path.{subst}
use bitaxe_fleet.Axeos.Models.{
  RecoveryProfile, RecoveryPolicy, MinerId, Time, MinerSnapshot, EnrolledMiner, default_policy,
}
use bitaxe_fleet.Storage.State.{
  FleetIncident, MinerRegistry, contains_id, max_stored_incidents, max_text_length,
  max_incident_detail_length, validate_text, validate_optional_display_name,
}
use bitaxe_fleet.Storage.Serialize.{serialize}
use bitaxe_fleet.Storage.Load.{last_items}
use bitaxe_fleet.Storage.RoundTrip.{contains_id-add_id, contains_id-discard_id}
use bitaxe_fleet.Storage.Operations.{
  ◌>>◌, load, save, enrolled_from_snapshot, enroll, enroll_loaded, update_from_snapshot,
  update_loaded, change_miner, change_found, set_enabled, with_recovery_profile,
  with_recovery_policy, with_display_name, set_recovery_profile, set_recovery_policy,
  set_display_name, rename_loaded, with_enabled, remove, remove_loaded, remove_found, other_miner,
  reject_candidate, reject_loaded, append_incident,
}

-- Whether the second registry offers the same miner under every id but one.
abbrev pub OnlyChanges : MinerId → Option EnrolledMiner → MinerRegistry → MinerRegistry → Type 0
OnlyChanges k o r r' =
    (j : MinerId) → lookup j r'.miners ≡ (if text_eq j k then o else lookup j r.miners)

-- A miner with a snapshot's endpoint and identity, and with the settings of an earlier approval or,
-- where there is none, the defaults.
abbrev pub settings_of : Option EnrolledMiner → EnrolledMiner → EnrolledMiner
settings_of none m = record m {
  display_name = none;
  enabled = true;
  recovery_profile = none;
  recovery_policy = default_policy;
}
settings_of (some old) m = old

abbrev pub Describes : MinerSnapshot → Option EnrolledMiner → EnrolledMiner → Type 0
Describes s o m =
    (m.endpoint ≡ s.endpoint)
    × (m.identity ≡ s.identity)
    × (m.display_name ≡ (settings_of o m).display_name)
    × (m.enabled ≡ (settings_of o m).enabled)
    × (m.recovery_profile ≡ (settings_of o m).recovery_profile)
    × (m.recovery_policy ≡ (settings_of o m).recovery_policy)

module _ (lib : Library) where
  pub load_then :
      {B : Type 0} (k : MinerRegistry → Result B × MinerRegistry) (r : MinerRegistry)
      → r.loaded ≡ true
      → ◌>>◌ (load lib) k r ≡ k r
  unfolding load
  load_then k r h = rw h

  described :
      (s : MinerSnapshot) (o : Option EnrolledMiner) → Describes s o (enrolled_from_snapshot s o)
  unfolding enrolled_from_snapshot
  described s none = (refl, refl, refl, refl, refl, refl)
  described s (some old) = (refl, refl, refl, refl, refl, refl)

  -- Approval puts the snapshot's endpoint and identity under its id, with the settings that an
  -- earlier approval left there or the defaults, ends a rejection of that id, and leaves every other
  -- miner, every other rejection and the incidents alone.
  pub enroll_lem :
      (s : MinerSnapshot) (r : MinerRegistry)
      → r.loaded ≡ true
      → let k = s.identity.miner_id in
        let (result, r') = enroll lib s r in
        (miner : EnrolledMiner) × (result ≡ ok miner)
        × Describes s (lookup k r.miners) miner
        × OnlyChanges k (some miner) r r'
        × ((j : MinerId)
            → contains_id j r'.rejected_candidates
              ≡ (if text_eq j k then false else contains_id j r.rejected_candidates))
        × (r'.incidents ≡ r.incidents)
  unfolding enroll
  enroll_lem s r h =
      let k = s.identity.miner_id in
      (
        enrolled_from_snapshot s (lookup k r.miners),
        rw (load_then (enroll_loaded lib s) r h, ◌>>◌) (unfold enroll_loaded in refl),
        described s (lookup k r.miners),
        rw (load_then (enroll_loaded lib s) r h, ◌>>◌)
            (unfold enroll_loaded save in λ j. lookup-insert k j _ r.miners),
        rw (load_then (enroll_loaded lib s) r h, ◌>>◌)
            (unfold enroll_loaded save in λ j. contains_id-discard_id j k r.rejected_candidates),
        rw (load_then (enroll_loaded lib s) r h, ◌>>◌) (unfold enroll_loaded save in refl),
      )

-- ===== src/Storage/Operations/Effects/Settings.antt =====
-- What the setters and the removal change.
use bitaxe_fleet.Prelude.{◌≡◌, refl, sym, Bool, true, false, Option, none, some, keep}
use bitaxe_fleet.Python.Text.{Text}
use bitaxe_fleet.Python.Dict.{lookup, lookup-insert, lookup-erase}
use bitaxe_fleet.Python.Library.{Library}
use bitaxe_fleet.Axeos.Errors.{key_error, Result, ok, err}
use bitaxe_fleet.Python.Value.{Value}
use mathlib.Core.Path.{subst}
use bitaxe_fleet.Axeos.Models.{RecoveryProfile, RecoveryPolicy, MinerId, EnrolledMiner}
use bitaxe_fleet.Storage.State.{MinerRegistry, validate_optional_display_name}
use bitaxe_fleet.Storage.Operations.{
  save, change_miner, change_found, with_display_name, set_display_name, rename_loaded, remove,
  remove_loaded, remove_found, other_miner,
}
use bitaxe_fleet.Storage.Operations.Effects.{OnlyChanges, load_then}

-- How a setter ends: an unknown id is refused and nothing changes; of a known miner the new version
-- is returned and stored, and the rejections and incidents stay.
abbrev pub Changed :
    MinerId
    → (EnrolledMiner → EnrolledMiner)
    → Option EnrolledMiner
    → MinerRegistry
    → Result EnrolledMiner × MinerRegistry
    → Type 0
Changed k f none r (result, r') = (result ≡ err key_error) × (r' ≡ r)
Changed k f (some m) r (result, r') =
    (result ≡ ok (f m))
    × (OnlyChanges k (some (f m)) r r'
        × (r'.rejected_candidates ≡ r.rejected_candidates)
        × (r'.incidents ≡ r.incidents))

-- A miner with one field given and every other one as it was, field by field.
abbrev pub enabled_as : Bool → EnrolledMiner → EnrolledMiner
enabled_as x m = record {
  endpoint = m.endpoint;
  identity = m.identity;
  display_name = m.display_name;
  enabled = x;
  recovery_profile = m.recovery_profile;
  recovery_policy = m.recovery_policy;
}

abbrev pub profile_as : Option RecoveryProfile → EnrolledMiner → EnrolledMiner
profile_as x m = record {
  endpoint = m.endpoint;
  identity = m.identity;
  display_name = m.display_name;
  enabled = m.enabled;
  recovery_profile = x;
  recovery_policy = m.recovery_policy;
}

abbrev pub policy_as : RecoveryPolicy → EnrolledMiner → EnrolledMiner
policy_as x m = record {
  endpoint = m.endpoint;
  identity = m.identity;
  display_name = m.display_name;
  enabled = m.enabled;
  recovery_profile = m.recovery_profile;
  recovery_policy = x;
}

module _ (lib : Library) where
  -- A setter refuses an unknown id and changes nothing; of a known miner it replaces the one field
  -- and leaves every other miner, the rejections and the incidents alone.
  change_miner_lem :
      (k : MinerId) (f : EnrolledMiner → EnrolledMiner) (r : MinerRegistry)
      (o : Option EnrolledMiner)
      → lookup k r.miners ≡ o
      → Changed k f o r (change_miner lib k f r)
  unfolding change_miner save
  change_miner_lem k f r none e = rw (e, change_found) (refl, refl)
  change_miner_lem k f r (some m) e =
      rw (e, change_found) (refl, ((λ j. lookup-insert k j (f m) r.miners), refl, refl))

  -- How a renaming ends: an invalid name is refused with its error and nothing changes, else it is set
  -- like the other fields.
  abbrev pub Renamed :
      MinerId → Result (Option Text) → MinerRegistry → Result EnrolledMiner × MinerRegistry → Type 0
  Renamed k (err e) r (result, r') = (result ≡ err e) × (r' ≡ r)
  Renamed k (ok name) r out = Changed k (with_display_name name) (lookup k r.miners) r out

  renamed :
      (k : MinerId) (name : Result (Option Text)) (r : MinerRegistry)
      → Renamed k name r (rename_loaded lib k name r)
  unfolding rename_loaded
  renamed k (err e) r = (refl, refl)
  renamed k (ok name) r = change_miner_lem k (with_display_name name) r (lookup k r.miners) refl

  -- In a loaded registry a name that the validator refuses is refused with the validator's error and
  -- nothing changes; a valid one, or none, is set like the other fields, an unknown id refused.
  pub set_display_name_lem :
      (k : MinerId) (display_name : Value) (r : MinerRegistry)
      → r.loaded ≡ true
      → Renamed k
          (validate_optional_display_name lib display_name)
          r
          (set_display_name lib k display_name r)
  unfolding set_display_name
  set_display_name_lem k v r h =
      subst (λ x. Renamed k (validate_optional_display_name lib v) r x)
        (sym (load_then lib (rename_loaded lib k (validate_optional_display_name lib v)) r h))
        (renamed k (validate_optional_display_name lib v) r)

  -- How a removal ends.
  abbrev pub Removed :
      MinerId → Option EnrolledMiner → MinerRegistry → Result Bool × MinerRegistry → Type 0
  Removed k none r (result, r') = (result ≡ ok false) × (r' ≡ r)
  Removed k (some m) r (result, r') =
      (result ≡ ok true)
      × (OnlyChanges k none r r'
          × (r'.rejected_candidates ≡ r.rejected_candidates)
          × (r'.incidents ≡ keep (other_miner k) r.incidents))

  removed :
      (k : MinerId) (o : Option EnrolledMiner) (r : MinerRegistry)
      → Removed k o r (remove_found lib k o r)
  unfolding remove_found save
  removed k none r = (refl, refl)
  removed k (some m) r = (refl, ((λ j. lookup-erase k j r.miners), refl, refl))

  -- In a loaded registry the removal of an unknown id answers no and changes nothing; that of a known
  -- miner answers yes and drops it and its incidents, and every other miner, the rejections and the
  -- other incidents stay, in their order.
  pub remove_lem :
      (k : MinerId) (r : MinerRegistry)
      → r.loaded ≡ true
      → Removed k (lookup k r.miners) r (remove lib k r)
  unfolding remove remove_loaded
  remove_lem k r h =
      subst (λ x. Removed k (lookup k r.miners) r x) (sym (load_then lib (remove_loaded lib k) r h))
        (removed k (lookup k r.miners) r)

-- ===== src/Storage/Operations.antt =====
-- storage.py: the operations of `MinerRegistry`. Each first loads the document, then works under the
-- lock; `async_save` is taken to return, and the checks of argument types are the types here.
pub mod Invariant
pub mod Requests
pub mod Effects
use bitaxe_fleet.Prelude.{
  ℕ, Bool, true, false, not, Option, none, some, List, [], ◌∷◌, ◌++◌, ◌-◌, if◌then◌else◌, length,
  drop, keep,
}
use bitaxe_fleet.Python.Text.{Text, text_eq}
use bitaxe_fleet.Python.Value.{Value, null, str}
use bitaxe_fleet.Python.Dict.{Dict, lookup, insert, erase}
use bitaxe_fleet.Python.Library.{Library}
use bitaxe_fleet.Axeos.Errors.{Error, key_error, Result, ok, err}
use bitaxe_fleet.Axeos.Models.{
  MinerId, Time, MinerSnapshot, EnrolledMiner, RecoveryProfile, RecoveryPolicy, default_policy,
}
use bitaxe_fleet.Axeos.Models.Equality.{miner_eq}
use bitaxe_fleet.Redaction.{redact_text}
use bitaxe_fleet.Storage.State.{
  FleetIncident, MinerRegistry, add_id, discard_id, max_stored_incidents, max_text_length,
  max_incident_detail_length, validate_text, validate_optional_display_name,
}
use bitaxe_fleet.Storage.Serialize.{serialize}
use bitaxe_fleet.Storage.Deserialize.{LoadedState}
use bitaxe_fleet.Storage.Load.{deserialize_state, last_items}

-- A method call: what was written before an exception stays written.
abbrev pub Action : Type 0 → Type 0
Action A = MinerRegistry → Result A × MinerRegistry

infixl 5 ◌>>=◌ ◌>>◌
abbrev pub ◌>>=◌ : {A B : Type 0} → Action A → (A → Action B) → Action B
◌>>=◌ m f r = let (a, r') = m r in elim a [ ok x ↦ f x r' | err e ↦ (err e, r') ]

abbrev pub ◌>>◌ : {B : Type 0} → Action (Unit {0}) → Action B → Action B
m >> k = m >>= λ _. k

abbrev pub pure : {A : Type 0} → A → Action A
pure a r = (ok a, r)

abbrev pub gets : {A : Type 0} → (MinerRegistry → A) → Action A
gets f r = (ok (f r), r)

abbrev pub lift : {A : Type 0} → Result A → Action A
lift a r = (a, r)

abbrev pub modify : (MinerRegistry → MinerRegistry) → Action (Unit {0})
modify f r = (ok tt, f r)

-- `_enrolled_from_snapshot`
unfoldable pub enrolled_from_snapshot : MinerSnapshot → Option EnrolledMiner → EnrolledMiner
enrolled_from_snapshot s none = record {
  endpoint = s.endpoint;
  identity = s.identity;
  display_name = none;
  enabled = true;
  recovery_profile = none;
  recovery_policy = default_policy;
}
enrolled_from_snapshot s (some existing) = record existing {
  endpoint = s.endpoint;
  identity = s.identity;
}

-- `self._miners[miner_id] = miner`
abbrev pub put_miner : MinerId → EnrolledMiner → MinerRegistry → MinerRegistry
put_miner k m r = record r { miners = insert k m r.miners }

-- the incidents of the others
abbrev pub other_miner : MinerId → FleetIncident → Bool
other_miner k i = not (text_eq i.miner_id k)

-- what `async_load` takes over from a valid document
adopt : LoadedState → MinerRegistry → MinerRegistry
adopt l r = record r {
  miners = l.miners;
  rejected_candidates = l.rejected_candidates;
  incidents = l.incidents;
}

-- The copies of a miner that the four setters build, every other field taken over.
abbrev pub with_enabled : Bool → EnrolledMiner → EnrolledMiner
with_enabled x m = record m { enabled = x }

abbrev pub with_display_name : Option Text → EnrolledMiner → EnrolledMiner
with_display_name x m = record m { display_name = x }

abbrev pub with_recovery_profile : Option RecoveryProfile → EnrolledMiner → EnrolledMiner
with_recovery_profile x m = record m { recovery_profile = x }

abbrev pub with_recovery_policy : RecoveryPolicy → EnrolledMiner → EnrolledMiner
with_recovery_policy x m = record m { recovery_policy = x }

module _ (lib : Library) where
  -- `self._store.async_save(self._serialize())`
  unfoldable pub save : Action (Unit {0})
  save r = (ok tt, record r { document = some (serialize lib r) })

  migrate : LoadedState → MinerRegistry → MinerRegistry
  migrate l r = if l.needs_migration_save then record r { document = some (serialize lib r) } else r

  take_over : Result LoadedState → Action (Unit {0})
  unfolding adopt migrate
  take_over (err e) r = (err e, r)
  take_over (ok l) r = (ok tt, record (migrate l (adopt l r)) { loaded = true })

  load_from : Option Value → Action (Unit {0})
  load_from none r = (ok tt, record r { loaded = true })
  load_from (some data') r = take_over (deserialize_state lib data') r

  -- `async_load`
  unfoldable pub load : Action (Unit {0})
  unfolding load_from take_over
  load r = if r.loaded then (ok tt, r) else load_from r.document r

  -- the body of `async_enroll` behind the load
  unfoldable pub enroll_loaded : MinerSnapshot → Action EnrolledMiner
  enroll_loaded s r =
      let k = s.identity.miner_id in
      let miner = enrolled_from_snapshot s (lookup k r.miners) in
      let r' = record r {
        miners = insert k miner r.miners;
        rejected_candidates = discard_id k r.rejected_candidates;
      } in
      (ok miner, (save r').1)

  -- `async_enroll`
  unfoldable pub enroll : MinerSnapshot → Action EnrolledMiner
  enroll s = load >> enroll_loaded s

  -- `async_update_from_snapshot`
  unfoldable pub replace_changed : MinerSnapshot → EnrolledMiner → Action (Option EnrolledMiner)
  replace_changed s existing r =
      let miner = enrolled_from_snapshot s (some existing) in
      if miner_eq miner existing
      then (ok (some miner), r)
      else (ok (some miner), (save (put_miner s.identity.miner_id miner r)).1)

  unfoldable pub update_known : MinerSnapshot → Option EnrolledMiner → Action (Option EnrolledMiner)
  unfolding replace_changed
  update_known s none r = (ok none, r)
  update_known s (some existing) r = replace_changed s existing r

  unfoldable pub update_loaded : MinerSnapshot → Action (Option EnrolledMiner)
  unfolding update_known
  update_loaded s r = update_known s (lookup s.identity.miner_id r.miners) r

  unfoldable pub update_from_snapshot : MinerSnapshot → Action (Option EnrolledMiner)
  update_from_snapshot s = load >> update_loaded s

  -- `_require_miner`, and the four methods that rewrite one field of an approved miner
  change_found :
      MinerId → (EnrolledMiner → EnrolledMiner) → Option EnrolledMiner → Action EnrolledMiner
  change_found k f none r = (err key_error, r)
  change_found k f (some m) r = (ok (f m), (save (put_miner k (f m) r)).1)

  unfoldable pub change_miner : MinerId → (EnrolledMiner → EnrolledMiner) → Action EnrolledMiner
  unfolding change_found
  change_miner k f r = change_found k f (lookup k r.miners) r

  -- `async_set_enabled`
  unfoldable pub set_enabled : MinerId → Bool → Action EnrolledMiner
  set_enabled k enabled = load >> change_miner k (with_enabled enabled)

  -- `async_set_display_name`, behind the validation of the name
  unfoldable pub rename_loaded : MinerId → Result (Option Text) → Action EnrolledMiner
  rename_loaded k (err e) r = (err e, r)
  rename_loaded k (ok normalized) r = change_miner k (with_display_name normalized) r

  unfoldable pub set_display_name : MinerId → Value → Action EnrolledMiner
  set_display_name k display_name =
      load >> rename_loaded k (validate_optional_display_name lib display_name)

  -- `async_set_recovery_profile`
  unfoldable pub set_recovery_profile : MinerId → Option RecoveryProfile → Action EnrolledMiner
  set_recovery_profile k profile = load >> change_miner k (with_recovery_profile profile)

  -- `async_set_recovery_policy`
  unfoldable pub set_recovery_policy : MinerId → RecoveryPolicy → Action EnrolledMiner
  set_recovery_policy k policy = load >> change_miner k (with_recovery_policy policy)

  -- `async_reject_candidate`
  unfoldable pub reject_loaded : MinerId → Action (Unit {0})
  reject_loaded k r = save (record r { rejected_candidates = add_id k r.rejected_candidates })

  unfoldable pub reject_candidate : MinerId → Action (Unit {0})
  reject_candidate k = load >> reject_loaded k

  -- `async_remove`
  unfoldable pub remove_found : MinerId → Option EnrolledMiner → Action Bool
  remove_found k none r = (ok false, r)
  remove_found k (some _) r = (
    ok true,
    (save (record r { miners = erase k r.miners; incidents = keep (other_miner k) r.incidents })).1,
  )

  unfoldable pub remove_loaded : MinerId → Action Bool
  unfolding remove_found
  remove_loaded k r = remove_found k (lookup k r.miners) r

  unfoldable pub remove : MinerId → Action Bool
  remove k = load >> remove_loaded k

  -- `async_record_incident`; the id and the time are drawn when it is called
  unfoldable pub append_incident : FleetIncident → Action FleetIncident
  append_incident i r = (
    ok i,
    (save (record r { incidents = last_items max_stored_incidents (r.incidents ++ i ∷ []) })).1,
  )

  -- the three texts are validated in turn
  unfoldable pub record_valid :
      Text → Time → MinerId → Result Text → Result Text → Result Text → Action FleetIncident
  record_valid incident_id now k (err e) outcome detail r = (err e, r)
  record_valid incident_id now k (ok cause) (err e) detail r = (err e, r)
  record_valid incident_id now k (ok cause) (ok outcome) (err e) r = (err e, r)
  record_valid incident_id now k (ok cause) (ok outcome) (ok detail) r =
      append_incident
        (record {
          incident_id = incident_id;
          miner_id = k;
          occurred_at = now;
          cause = cause;
          outcome = outcome;
          detail = detail;
        })
        r

  unfoldable pub record_loaded : Text → Time → MinerId → Text → Text → Text → Action FleetIncident
  record_loaded incident_id now k cause outcome detail =
      record_valid incident_id now k (validate_text lib (str cause) max_text_length)
        (validate_text lib (str outcome) max_text_length)
        (validate_text lib (str (redact_text lib detail)) max_incident_detail_length)

  unfoldable pub record_incident : Text → Time → MinerId → Text → Text → Text → Action FleetIncident
  record_incident incident_id now k cause outcome detail =
      load >> record_loaded incident_id now k cause outcome detail

-- ===== src/Storage/Operations/Requests/Steps.antt =====
-- About one request to a durable registry.
use bitaxe_fleet.Prelude.{ℕ, ◌≡◌, refl, sym, Bool, true, Option, none, some, arith}
use mathlib.Core.Path.{subst}
use bitaxe_fleet.Python.Text.{Text, strip, strip-strip}
use bitaxe_fleet.Python.Value.{Value, null, str}
use bitaxe_fleet.Python.Library.{Library}
use bitaxe_fleet.Axeos.Errors
use bitaxe_fleet.Axeos.Errors.{Error, Result, ok, err}
use bitaxe_fleet.Axeos.Models.{
  MinerId, Time, EnrolledMiner, RecoveryProfile, RecoveryPolicy, IsBoundedPolicy,
}
use bitaxe_fleet.Redaction.{redact_text}
use bitaxe_fleet.Storage.State.{MinerRegistry, validate_text, validate_optional_display_name}
use bitaxe_fleet.Storage.Storable.{IsBoundedOption, IsStoredText, IsStoredOption}
use bitaxe_fleet.Storage.Operations
use bitaxe_fleet.Storage.Operations.{load, take_over, rename_loaded, record_valid, record_loaded}
use bitaxe_fleet.Storage.Operations.Invariant.{
  IsDurable, IsSettingsChange, enroll_loaded-IsDurable, update_loaded-IsDurable,
  change_miner-IsDurable, reject_loaded-IsDurable, remove_loaded-IsDurable,
  append_incident-IsDurable,
}
use bitaxe_fleet.Storage.Operations.Requests.{
  Request, enroll, update_from_snapshot, set_enabled, set_display_name, set_recovery_profile,
  set_recovery_policy, reject_candidate, remove, record_incident, perform, IsSettled,
  IsValidRequest,
}

module _ (lib : Library) where
  pub validate_text-IsStoredText :
      (v : Value) (limit : ℕ) {s : Text}
      → validate_text lib v limit ≡ ok s
      → IsStoredText lib limit s
  unfolding validate_text
  validate_text-IsStoredText (str t) limit {s} h =
      let e : strip t ≡ s = ground arith in
      record {
        stripped = subst (λ (u : Text). strip u ≡ u) e (strip-strip t);
        not_blank = ground arith;
        short = ground arith;
        printed = ground arith;
      }
  validate_text-IsStoredText null limit h = cc
  validate_text-IsStoredText _ limit h = cc

  -- The load of a registry that is loaded does nothing.
  pub load_then :
      {B : Type 0} (k : Operations.Action B) (r : MinerRegistry)
      → r.loaded ≡ true
      → Operations.◌>>◌ (load lib) k r ≡ k r
  unfolding load
  load_then k r h = rw h

  after_load :
      {B : Type 0} (k : Operations.Action B) (r : MinerRegistry)
      → IsDurable lib r
      → IsDurable lib (k r).1
      → IsDurable lib (Operations.◌>>◌ (load lib) k r).1
  after_load {B} k r h p =
      subst (λ (x : Result B × MinerRegistry). IsDurable lib x.1) (sym (load_then k r h.running)) p

  name-IsStoredOption :
      (v : Value) {o : Option Text}
      → validate_optional_display_name lib v ≡ ok o
      → IsStoredOption lib o
  unfolding validate_optional_display_name
  name-IsStoredOption null {o} h = let e : none ≡ o = cc in subst (IsStoredOption lib) e tt
  name-IsStoredOption v {o} h =
      let (s, valid, rest) = Errors.>>=-eq-ok (validate_text lib v 128) _ h in
      let e : some s ≡ o = cc in
      subst (IsStoredOption lib) e (validate_text-IsStoredText v 128 valid)

  with_enabled-IsSettingsChange : (x : Bool) → IsSettingsChange lib (Operations.with_enabled x)
  with_enabled-IsSettingsChange x = record {
    same_identity = λ m. refl;
    keeps_storable = λ m s. record {
      endpoint_storable = s.endpoint_storable;
      identity_storable = s.identity_storable;
      name_storable = s.name_storable;
      profile_bounded = s.profile_bounded;
      policy_bounded = s.policy_bounded;
    };
  }

  with_display_name-IsSettingsChange :
      (x : Option Text)
      → IsStoredOption lib x
      → IsSettingsChange lib (Operations.with_display_name x)
  with_display_name-IsSettingsChange x v = record {
    same_identity = λ m. refl;
    keeps_storable = λ m s. record {
      endpoint_storable = s.endpoint_storable;
      identity_storable = s.identity_storable;
      name_storable = v;
      profile_bounded = s.profile_bounded;
      policy_bounded = s.policy_bounded;
    };
  }

  with_recovery_profile-IsSettingsChange :
      (x : Option RecoveryProfile)
      → IsBoundedOption x
      → IsSettingsChange lib (Operations.with_recovery_profile x)
  with_recovery_profile-IsSettingsChange x v = record {
    same_identity = λ m. refl;
    keeps_storable = λ m s. record {
      endpoint_storable = s.endpoint_storable;
      identity_storable = s.identity_storable;
      name_storable = s.name_storable;
      profile_bounded = v;
      policy_bounded = s.policy_bounded;
    };
  }

  with_recovery_policy-IsSettingsChange :
      (x : RecoveryPolicy)
      → IsBoundedPolicy x
      → IsSettingsChange lib (Operations.with_recovery_policy x)
  with_recovery_policy-IsSettingsChange x v = record {
    same_identity = λ m. refl;
    keeps_storable = λ m s. record {
      endpoint_storable = s.endpoint_storable;
      identity_storable = s.identity_storable;
      name_storable = s.name_storable;
      profile_bounded = s.profile_bounded;
      policy_bounded = v;
    };
  }

  change_after :
      (k : MinerId) (f : EnrolledMiner → EnrolledMiner) (r : MinerRegistry)
      → IsSettingsChange lib f
      → IsDurable lib r
      → IsDurable lib (Operations.◌>>◌ (load lib) (Operations.change_miner lib k f) r).1
  change_after k f r c h =
      after_load (Operations.change_miner lib k f) r h (change_miner-IsDurable lib k f r c h)

  rename_loaded-IsDurable :
      (k : MinerId) (o : Result (Option Text)) (r : MinerRegistry)
      → ((n : Option Text) → o ≡ ok n → IsStoredOption lib n)
      → IsDurable lib r
      → IsDurable lib (rename_loaded lib k o r).1
  unfolding rename_loaded
  rename_loaded-IsDurable k (err e) r valid h = h
  rename_loaded-IsDurable k (ok n) r valid h =
      change_miner-IsDurable lib k (Operations.with_display_name n) r
        (with_display_name-IsSettingsChange n (valid n refl)) h

  record_valid-IsDurable :
      (incident_id : Text) (t : Time) (k : MinerId) (detail : Text) (c o d : Result Text)
      (r : MinerRegistry)
      → IsSettled lib incident_id t k detail
      → ((s : Text) → c ≡ ok s → IsStoredText lib 128 s)
      → ((s : Text) → o ≡ ok s → IsStoredText lib 128 s)
      → ((s : Text) → d ≡ ok s → IsStoredText lib 512 s × (redact_text lib s ≡ s))
      → IsDurable lib r
      → IsDurable lib (record_valid lib incident_id t k c o d r).1
  unfolding record_valid
  record_valid-IsDurable i t k detail (err e) o d r settled hc ho hd h = h
  record_valid-IsDurable i t k detail (ok c) (err e) d r settled hc ho hd h = h
  record_valid-IsDurable i t k detail (ok c) (ok o) (err e) r settled hc ho hd h = h
  record_valid-IsDurable i t k detail (ok c) (ok o) (ok d) r settled hc ho hd h =
      append_incident-IsDurable lib _ r
        (record {
          id_text = settled.id_text;
          about = settled.about;
          dated = settled.dated;
          cause_text = hc c refl;
          outcome_text = ho o refl;
          detail_text = (hd d refl).0;
          detail_redacted = (hd d refl).1;
        })
        h

  settled_detail :
      (detail s : Text)
      → redact_text lib (strip (redact_text lib detail)) ≡ strip (redact_text lib detail)
      → validate_text lib (str (redact_text lib detail)) 512 ≡ ok s
      → IsStoredText lib 512 s × (redact_text lib s ≡ s)
  unfolding validate_text
  settled_detail detail s h e =
      let q : strip (redact_text lib detail) ≡ s = ground arith in
      (
        validate_text-IsStoredText (str (redact_text lib detail)) 512 e,
        subst (λ (u : Text). redact_text lib u ≡ u) q h,
      )

  -- One valid call of any method keeps the registry durable, also where it raises.
  pub perform-IsDurable :
      (q : Request) (r : MinerRegistry)
      → IsValidRequest lib q
      → IsDurable lib r
      → IsDurable lib (perform lib q r)
  unfolding perform Operations.enroll Operations.update_from_snapshot Operations.set_enabled
      Operations.set_display_name Operations.set_recovery_profile Operations.set_recovery_policy
      Operations.reject_candidate Operations.remove Operations.record_incident
  perform-IsDurable (enroll s) r v h =
      after_load (Operations.enroll_loaded lib s) r h (enroll_loaded-IsDurable lib s v r h)
  perform-IsDurable (update_from_snapshot s) r v h =
      after_load (Operations.update_loaded lib s) r h (update_loaded-IsDurable lib s v r h)
  perform-IsDurable (set_enabled k b) r v h =
      change_after k (Operations.with_enabled b) r (with_enabled-IsSettingsChange b) h
  perform-IsDurable (set_display_name k n) r v h =
      after_load (rename_loaded lib k (validate_optional_display_name lib n)) r h (
        rename_loaded-IsDurable k (validate_optional_display_name lib n) r
          (λ o e. name-IsStoredOption n e) h)
  perform-IsDurable (set_recovery_profile k p) r v h =
      change_after k (Operations.with_recovery_profile p) r
        (with_recovery_profile-IsSettingsChange p v) h
  perform-IsDurable (set_recovery_policy k p) r v h =
      change_after k (Operations.with_recovery_policy p) r
        (with_recovery_policy-IsSettingsChange p v) h
  perform-IsDurable (reject_candidate k) r v h =
      after_load (Operations.reject_loaded lib k) r h (reject_loaded-IsDurable lib k r v h)
  perform-IsDurable (remove k) r v h =
      after_load (Operations.remove_loaded lib k) r h (remove_loaded-IsDurable lib k r h)
  perform-IsDurable (record_incident i t k c o d) r v h =
      after_load (record_loaded lib i t k c o d) r h (
        unfold record_loaded in
        record_valid-IsDurable i t k d _ _ _ r v (λ s. validate_text-IsStoredText (str c) 128)
          (λ s. validate_text-IsStoredText (str o) 128) (λ s. settled_detail d s v.settled) h)

-- ===== src/Fleet/ReadBack.antt =====
-- The read after a patch, and what its success means.
use mathlib.Core.Path.{subst}
use bitaxe_fleet.Prelude.{
  ◌≡◌, refl, ap, sym, ◌∙◌, true, Option, none, some, if◌then◌else◌, Bool-cases, inl, inr,
}
use bitaxe_fleet.Python.Text.{Text, codes}
use bitaxe_fleet.Python.Library.{Library}
use bitaxe_fleet.Axeos.Errors.{
  mutation_uncertain, value_error, overflow_error, key_error, Result, ok, err,
}
use bitaxe_fleet.Axeos.Models.{
  MinerId, MinerSnapshot, RecoveryProfile, to_recovery_profile, profile_eq,
}
use bitaxe_fleet.Axeos.Client.{axeos}
use bitaxe_fleet.Fleet.Device.{system_info, DeviceClient}
use bitaxe_fleet.Fleet.Coordinator.{
  Trouble, fleet_action, fault, Ending, failed, returned, UpdateCoordinator, IsUpdateCoordinator,
  Context, Act, ◌>>=◌, ◌>>◌, pure, fail, of_result, go_on,
}
use bitaxe_fleet.Fleet.Actions.{
  Moment, is_profile, current_profile, report, fresh_snapshot, read_back, patch_ended,
}
use bitaxe_fleet.Fleet.Refresh.{with_call, IsFresh, fresh_or_lem}

go_on-eq-returned :
    {A B : Type 0} (r : Ending A) (f : A → Act B) (c : Context) {b : B}
    → (go_on r f c).0 ≡ returned b
    → (a : A) × (r ≡ returned a) × ((f a c).0 ≡ returned b) × (go_on r f c ≡ f a c)
go_on-eq-returned (failed t) f c h = cc
go_on-eq-returned (returned a) f c h = (a, refl, h, refl)

pub bind-eq-returned :
    {A B : Type 0} (m : Act A) (f : A → Act B) (c : Context) {b : B}
    → ((m >>= f) c).0 ≡ returned b
    → (a : A) × ((m c).0 ≡ returned a)
      × ((f a (m c).1).0 ≡ returned b)
      × ((m >>= f) c ≡ f a (m c).1)
bind-eq-returned m f c h = go_on-eq-returned (m c).0 f (m c).1 h

returned-injective : {A : Type 0} {a b : A} → returned a ≡ returned b → a ≡ b
returned-injective h = cc

pub failed-ne-returned : {A : Type 0} {t : Trouble} {a : A} → failed t ≡ returned a → ⊥
failed-ne-returned h = cc

ok_of_returned : {A : Type 0} (r : Result A) {a : A} → of_result r ≡ returned a → r ≡ ok a
ok_of_returned (err e) h = cc
ok_of_returned (ok a) h = ap ok (returned-injective h)

never :
    {A B : Type 0} (m : Act A) (t : Trouble) (c : Context) {b : B}
    → ((m >>= λ _. fail t) c).0 ≡ returned b
    → ⊥
never m t c h =
    let (a, _, rest, _) = bind-eq-returned m (λ _. fail t) c h in failed-ne-returned rest

module _ (lib : Library) (u : UpdateCoordinator) (w : IsUpdateCoordinator u) (client : DeviceClient)
    (k : MinerId) (t : Moment) where
  -- The read after the patch, from a context whose history ends with the calls so far: it gave the
  -- snapshot that is shown, and the settings in it are those of the profile.
  pub record IsReadBack (p : RecoveryProfile) (c c' : Context) : Type 0 where
    pub current : MinerSnapshot
    pub found : RecoveryProfile
    pub fresh : IsFresh lib u w client t.now c c' current
    pub call : c'.history ≡ with_call system_info c
    pub settings : to_recovery_profile current.configuration ≡ ok (some found)
    pub equal : profile_eq found p ≡ true

  -- the read of the settings that fresh_snapshot makes
  pub called_once :
      (c : Context) → (fresh_snapshot lib u client k t c).1.history ≡ with_call system_info c
  unfolding fresh_snapshot
  called_once c =
      (fresh_or_lem lib u w client (fleet_action (codes "miner could not be read")) t.now c).0

  pub returned-IsFresh :
      (c : Context) {s : MinerSnapshot}
      → (fresh_snapshot lib u client k t c).0 ≡ returned s
      → IsFresh lib u w client t.now c (fresh_snapshot lib u client k t c).1 s
  unfolding fresh_snapshot
  returned-IsFresh c {s} h =
      elim (fresh_or_lem lib u w client (fleet_action (codes "miner could not be read")) t.now
        c).1 [
          | inl (s', e, fresh) ↦
              subst (λ x. IsFresh lib u w client t.now c (fresh_snapshot lib u client k t c).1 x)
                (returned-injective (sym e ∙ h)) fresh
          | inr e ↦ absurd (failed-ne-returned (sym e ∙ h))
        ]

  matched :
      (p : RecoveryProfile) (found : Option RecoveryProfile) (outcome message : Text) (c : Context)
      → let m =
          if is_profile p found
          then pure tt
          else (report lib u client k t
                (codes "profile_apply")
                outcome
                (codes "read-back did not match")
              >> fail (fleet_action message)) in
        (m c).0 ≡ returned tt → (is_profile p found ≡ true) × (m c ≡ (returned tt, c))
  matched p found outcome message c h = elim (Bool-cases (is_profile p found)) [
    | inl e ↦ (e, rw e refl)
    | inr e ↦ absurd (
        never
          (report lib u client k t (codes "profile_apply") outcome
            (codes "read-back did not match"))
          (fleet_action message) c (rw e at h))
  ]

  read_as :
      (p : RecoveryProfile) (c c₁ : Context) (s : MinerSnapshot) (found : Option RecoveryProfile)
      → IsFresh lib u w client t.now c c₁ s
      → c₁.history ≡ with_call system_info c
      → to_recovery_profile s.configuration ≡ ok found
      → is_profile p found ≡ true
      → IsReadBack p c c₁
  read_as p c c₁ s none fresh call got equal = cc
  read_as p c c₁ s (some q) fresh call got equal = record {
    current = s;
    found = q;
    fresh = fresh;
    call = call;
    settings = got;
    equal = equal;
  }

  read_back-IsReadBack :
      (p : RecoveryProfile) (outcome message : Text) (c : Context)
      → (read_back lib u client k t p outcome message c).0 ≡ returned tt
      → IsReadBack p c (read_back lib u client k t p outcome message c).1
  unfolding read_back
  read_back-IsReadBack p outcome message c h =
      let (s, read, rest, same) = bind-eq-returned (fresh_snapshot lib u client k t) _ c h in
      let (found, got, last, same') =
        bind-eq-returned (current_profile s) _ (fresh_snapshot lib u client k t c).1 rest in
      let (equal, stays) =
        matched p found outcome message (fresh_snapshot lib u client k t c).1 last in
      subst (λ (r : Ending (Unit {0}) × Context). IsReadBack p c r.1) (sym (same ∙ same' ∙ stays))
        (read_as p c _ s found (returned-IsFresh c read) (called_once c) (ok_of_returned _ got)
          equal)

  -- What the end of the patch leaves to be shown.
  pub patch_ended-IsReadBack :
      (p : RecoveryProfile) (r : Ending (Unit {0})) (c : Context)
      → (patch_ended lib u client k t p r c).0 ≡ returned tt
      → IsReadBack p c (patch_ended lib u client k t p r c).1
  unfolding patch_ended
  patch_ended-IsReadBack p (returned _) c h = read_back-IsReadBack p _ _ c h
  patch_ended-IsReadBack p (failed (fault (axeos (mutation_uncertain _)))) c h =
      read_back-IsReadBack p _ _ c h
  patch_ended-IsReadBack p (failed (fault (axeos value_error))) c h = absurd (failed-ne-returned h)
  patch_ended-IsReadBack p (failed (fault (axeos overflow_error))) c h =
      absurd (failed-ne-returned h)
  patch_ended-IsReadBack p (failed (fault (axeos key_error))) c h = absurd (failed-ne-returned h)
  patch_ended-IsReadBack p (failed (fault (axeos _))) c h =
      absurd (never (report lib u client k t _ _ _) _ c h)
  patch_ended-IsReadBack p (failed _) c h = absurd (failed-ne-returned h)

-- ===== src/Fleet/Limits.antt =====
-- How many mutations the operations of an administrator ask for, and what was read before.
use mathlib.Core.Path.{subst}
use bitaxe_fleet.Prelude.{
  ◌≡◌, refl, ap, sym, ◌∙◌, ◌⊎◌, Bool, true, false, Option, none, some, List, [], ◌∷◌, ◌++◌, inl,
  inr,
}
use bitaxe_fleet.Python.Text.{Text, codes, text_eq}
use bitaxe_fleet.Python.Library.{Library}
use bitaxe_fleet.Python.Dict.{lookup}
use bitaxe_fleet.Axeos.Errors.{Error, mutation_uncertain, value_error, overflow_error, key_error}
use bitaxe_fleet.Axeos.Models.{
  MinerId, Time, MinerSnapshot, AsicCapabilities, RecoveryProfile, supports_profile,
}
use bitaxe_fleet.Axeos.Client.{axeos, done}
use bitaxe_fleet.Storage.Operations
use bitaxe_fleet.Fleet.Device.{
  Action, Command, system_info, system_asic, patch_system, act, DeviceClient,
}
use bitaxe_fleet.Fleet.Coordinator.{
  Trouble, fleet_action, update_failed, fault, Ending, failed, returned, UpdateCoordinator,
  IsUpdateCoordinator, Context, ◌>>=◌, ◌>>◌, pure, ask,
}
use bitaxe_fleet.Fleet.Coordinator.Methods.{
  modify, fresh_or, named_action, perform_action, capabilities_or, get_capabilities, patch_profile,
  call_client_action,
}
use bitaxe_fleet.Fleet.Actions.{
  Moment, is_profile, current_profile, or_fail, saved_profile, require, report, fresh_snapshot,
  fresh_capabilities, capture_profile, read_back, patch_ended, patch_and_verify, apply_saved,
  apply_profile,
}
use bitaxe_fleet.Fleet.Refresh.{id_of, IsFresh, fresh_or_lem}
use bitaxe_fleet.Fleet.Mutations.{
  mutations, mutations-append, mutations_call, Quiet, AtMost, bind-returned, bind-failed,
  Quiet-bind, AtMost-then, Quiet-then, Quiet-pure, Quiet-fail, Quiet-store, Quiet-modify, Quiet-if,
  Quiet-ask, AtMost-ask,
}

module _ (lib : Library) (u : UpdateCoordinator) (w : IsUpdateCoordinator u)
    (client : DeviceClient) where
  pub Quiet-fresh_or : (t : Trouble) (now : Time) → Quiet (fresh_or lib u client t now)
  Quiet-fresh_or t now = record {
    quiet = λ c.
        ap mutations (fresh_or_lem lib u w client t now c).0 ∙ mutations_call system_info c refl;
  }

  Quiet-asked : Quiet (
      ask system_asic client.get_system_asic >>= λ found.
      modify (λ m. record m { capabilities = some found }) >> pure found)
  Quiet-asked = Quiet-bind (Quiet-ask system_asic client.get_system_asic refl) (λ found.
      Quiet-bind (Quiet-modify (λ m. record m { capabilities = some found }))
        (λ _. Quiet-pure found))

  Quiet-capabilities_or :
      (o : Option AsicCapabilities) (force : Bool) → Quiet (capabilities_or lib u client o force)
  unfolding capabilities_or
  Quiet-capabilities_or (some known) false = Quiet-pure known
  Quiet-capabilities_or (some known) true = Quiet-asked
  Quiet-capabilities_or none force = Quiet-asked

  -- what the end of an action says of the mutations
  Performed : Time → Text → Context → Context → Type 0
  Performed now name c c' =
      (mutations c'.history ≡ mutations c.history)
      ⊎ ((a : Action) × (s : MinerSnapshot) × (named_action name ≡ some a)
          × (client.get_system_info c.history now c.coordinator.client_endpoint ≡ done s)
          × (text_eq s.identity.miner_id (id_of c) ≡ true)
          × (mutations c'.history ≡ mutations c.history ++ act a ∷ []))

  performed :
      (now : Time) (name : Text) (o : Option Action) (s : MinerSnapshot) (c c₁ : Context)
      → named_action name ≡ o
      → IsFresh lib u w client now c c₁ s
      → mutations c₁.history ≡ mutations c.history
      → Performed now name c (perform_action lib u client o c₁).1
  unfolding perform_action Performed mutations
  performed now name none s c c₁ named fresh same = inl same
  performed now name (some a) s c c₁ named fresh same = inr (
    a,
    s,
    named,
    fresh.read,
    fresh.same_miner,
    mutations-append c₁.history _ ∙ ap (λ (l : List Command). l ++ act a ∷ []) same,
  )

  -- An action is asked of the miner at most once, and only after a miner with the id that the coordinator
  -- is bound to has answered a read.
  pub call_client_action_lem :
      (now : Time) (name : Text) (c : Context)
      → let (result, c') = call_client_action lib u client now name c in
        (mutations c'.history ≡ mutations c.history)
        ⊎ ((a : Action) × (s : MinerSnapshot) × (named_action name ≡ some a)
            × (client.get_system_info c.history now c.coordinator.client_endpoint ≡ done s)
            × (text_eq s.identity.miner_id (id_of c) ≡ true)
            × (mutations c'.history ≡ mutations c.history ++ act a ∷ []))
  unfolding call_client_action Performed
  call_client_action_lem now name c =
      let (called, ended) = fresh_or_lem lib u w client update_failed now c in
      let same = (Quiet-fresh_or update_failed now).quiet c in
      elim ended [
        | inl (s, e, fresh) ↦
            subst (λ (r : Ending (Unit {0}) × Context). Performed now name c r.1)
              (sym (
                bind-returned (fresh_or lib u client update_failed now)
                  (λ _. perform_action lib u client (named_action name)) c e))
              (performed now name (named_action name) s c _ refl fresh same)
        | inr e ↦
            subst (λ (r : Ending (Unit {0}) × Context). Performed now name c r.1)
              (sym (
                bind-failed (fresh_or lib u client update_failed now)
                  (λ _. perform_action lib u client (named_action name)) c e))
              (inl same)
      ]

  module _ (k : MinerId) (t : Moment) where
    pub Quiet-report :
        (cause outcome detail : Text) → Quiet (report lib u client k t cause outcome detail)
    unfolding report
    Quiet-report cause outcome detail = Quiet-bind (Quiet-store _) (λ _. Quiet-pure tt)

    pub Quiet-fresh_snapshot : Quiet (fresh_snapshot lib u client k t)
    unfolding fresh_snapshot
    Quiet-fresh_snapshot = Quiet-fresh_or (fleet_action (codes "miner could not be read")) t.now

    pub Quiet-fresh_capabilities : Quiet (fresh_capabilities lib u client k t)
    unfolding fresh_capabilities get_capabilities
    Quiet-fresh_capabilities = record {
      quiet = λ c. (Quiet-capabilities_or c.coordinator.capabilities true).quiet c;
    }

    pub Quiet-current_profile : (s : MinerSnapshot) → Quiet (current_profile s)
    Quiet-current_profile s = record { quiet = λ c. refl }

    pub Quiet-or_fail : {A : Type 0} (message : Text) (o : Option A) → Quiet (or_fail message o)
    Quiet-or_fail message none = Quiet-fail _
    Quiet-or_fail message (some a) = Quiet-pure a

    pub Quiet-require : (b : Bool) (message : Text) → Quiet (require b message)
    Quiet-require true message = Quiet-pure tt
    Quiet-require false message = Quiet-fail _

    -- Capturing a profile asks for no mutation.
    pub capture_profile-Quiet : Quiet (capture_profile lib u client k t)
    unfolding capture_profile
    capture_profile-Quiet = Quiet-bind Quiet-fresh_snapshot (λ s.
        Quiet-bind (Quiet-current_profile s) (λ current.
          Quiet-bind (Quiet-or_fail _ current) (λ profile.
            Quiet-bind Quiet-fresh_capabilities (λ capabilities.
              Quiet-bind
                (Quiet-require (supports_profile capabilities profile)
                  (codes "miner does not support its current profile"))
                (λ _.
                  Quiet-bind (Quiet-store (Operations.set_recovery_profile lib k (some profile)))
                    (λ _.
                      Quiet-bind
                        (Quiet-report (codes "profile_capture") (codes "captured")
                          (codes "six approved settings"))
                        (λ _. Quiet-pure profile)))))))

    pub Quiet-read_back :
        (p : RecoveryProfile) (outcome message : Text)
        → Quiet (read_back lib u client k t p outcome message)
    unfolding read_back
    Quiet-read_back p outcome message = Quiet-bind Quiet-fresh_snapshot (λ s.
        Quiet-bind (Quiet-current_profile s) (λ found.
          Quiet-if (is_profile p found) (Quiet-pure tt)
            (Quiet-bind (Quiet-report _ _ _) (λ _. Quiet-fail _))))

    refused :
        (p : RecoveryProfile) (e : Error)
        → Quiet (patch_ended lib u client k t p (failed (fault (axeos e))))
    unfolding patch_ended
    refused p (mutation_uncertain o) = Quiet-read_back p _ _
    refused p value_error = Quiet-fail _
    refused p overflow_error = Quiet-fail _
    refused p key_error = Quiet-fail _
    refused p _ = Quiet-bind (Quiet-report _ _ _) (λ _. Quiet-fail _)

    pub Quiet-patch_ended :
        (p : RecoveryProfile) (r : Ending (Unit {0})) → Quiet (patch_ended lib u client k t p r)
    unfolding patch_ended
    Quiet-patch_ended p (returned _) = Quiet-read_back p _ _
    Quiet-patch_ended p (failed (fault (axeos e))) = refused p e
    Quiet-patch_ended p (failed _) = Quiet-fail _

    AtMost-apply_saved :
        (p : RecoveryProfile) → AtMost (patch_system p) (apply_saved lib u client k t p)
    unfolding apply_saved patch_and_verify
    AtMost-apply_saved p = Quiet-then Quiet-fresh_snapshot (λ _.
        Quiet-then Quiet-fresh_capabilities (λ capabilities.
          Quiet-then (Quiet-require _ _) (λ _. AtMost-then patched (λ _. Quiet-report _ _ _))))
      where
        patched : AtMost (patch_system p) (patch_and_verify lib u client k t p)
        patched = record {
          at_most = λ c.
              elim ((AtMost-ask (patch_system p) (λ h e. client.patch h e p) refl).at_most c) [
                | inl e ↦ inl (
                    (Quiet-patch_ended p (patch_profile lib u client p c).0).quiet
                      (patch_profile lib u client p c).1
                    ∙ unfold patch_profile in e)
                | inr e ↦ inr (
                    (Quiet-patch_ended p (patch_profile lib u client p c).0).quiet
                      (patch_profile lib u client p c).1
                    ∙ unfold patch_profile in e)
              ];
        }

    -- Applying a profile asks for no mutation without a saved profile, and else at most for one patch, of
    -- the profile that was saved when it began, whatever the miner answers.
    pub apply_profile_lem :
        (c : Context)
        → let c' = (apply_profile lib u client k t c).1 in
          (mutations c'.history ≡ mutations c.history)
          ⊎ ((p : RecoveryProfile) × (saved_profile (lookup k c.registry.miners) ≡ some p)
              × (mutations c'.history ≡ mutations c.history ++ patch_system p ∷ []))
    unfolding apply_profile
    apply_profile_lem c = applied (saved_profile (lookup k c.registry.miners)) refl
      where
        applied :
            (o : Option RecoveryProfile)
            → saved_profile (lookup k c.registry.miners) ≡ o
            → let c' =
                ((or_fail (codes "miner has no saved recovery profile") o
                    >>= apply_saved lib u client k t)
                  c).1 in
              (mutations c'.history ≡ mutations c.history)
              ⊎ ((p : RecoveryProfile) × (saved_profile (lookup k c.registry.miners) ≡ some p)
                  × (mutations c'.history ≡ mutations c.history ++ patch_system p ∷ []))
        applied none e = inl refl
        applied (some p) e = elim ((AtMost-apply_saved p).at_most c) [
          | inl same ↦ inl same
          | inr more ↦ inr (p, e, more)
        ]

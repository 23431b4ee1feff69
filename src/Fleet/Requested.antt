-- ===== src/Fleet/Requested.antt =====
-- What the return of an action that an administrator asks for means.
use mathlib.Core.Path.{subst}
use bitaxe_fleet.Prelude.{
  true, Bool-cases, inl, inr, ◌≡◌, refl, ap, ◌∙◌, Option, none, some, List, [], ◌∷◌, ◌++◌,
}
use bitaxe_fleet.Python.Text.{Text, codes, text_eq, text_eq→eq}
use bitaxe_fleet.Python.Library.{Library}
use bitaxe_fleet.Axeos.Errors.{value_error, overflow_error, key_error}
use bitaxe_fleet.Axeos.Models.{MinerId, Time, MinerSnapshot}
use bitaxe_fleet.Axeos.Client.{axeos, timed_out, client_fault}
use bitaxe_fleet.Fleet.Device.{Action, restart, pause, resume, identify, Command, act, DeviceClient}
use bitaxe_fleet.Fleet.Coordinator.{
  Trouble, fleet_action, update_failed, runtime_error, arithmetic_error, fault, Ending, failed,
  returned, UpdateCoordinator, IsUpdateCoordinator, Context, fail, go_on,
}
use bitaxe_fleet.Fleet.Coordinator.Methods.{
  fresh_or, named_action, perform_action, call_client_action,
}
use bitaxe_fleet.Fleet.Actions.{Moment, report, action_ended, run_action}
use bitaxe_fleet.Fleet.Mutations.{mutations, mutations_mutation}
use bitaxe_fleet.Fleet.Limits.{Quiet-fresh_or, Quiet-report}

-- An operation that ends with a failure does not return.
fails_after :
    {A : Type 0} (r : Ending (Unit {0})) (t : Trouble) (c : Context) {a : A}
    → (go_on r (λ _. fail t) c).0 ≡ returned a
    → ⊥
fails_after (failed s) t c h = cc
fails_after (returned tt) t c h = cc

-- The word for each action.
abbrev pub action_text : Action → Text
action_text restart = codes "restart"
action_text pause = codes "pause"
action_text resume = codes "resume"
action_text identify = codes "identify"

-- A name is read as the action that it is the word for.
named_action-eq-some :
    (name : Text) {a : Action} → named_action name ≡ some a → name ≡ action_text a
unfolding named_action
named_action-eq-some name {a} h = elim (Bool-cases (text_eq name (codes "restart"))) [
  | inl e ↦ text_of restart e (rw e at h)
  | inr e ↦ elim (Bool-cases (text_eq name (codes "pause"))) [
    | inl f ↦ text_of pause f (rw (e, f) at h)
    | inr f ↦ elim (Bool-cases (text_eq name (codes "resume"))) [
      | inl g ↦ text_of resume g (rw (e, f, g) at h)
      | inr g ↦ elim (Bool-cases (text_eq name (codes "identify"))) [
        | inl k ↦ text_of identify k (rw (e, f, g, k) at h)
        | inr k ↦ absurd (none_is_some (rw (e, f, g, k) at h))
      ]
    ]
  ]
]
  where
    text_of :
        (b : Action) → text_eq name (action_text b) ≡ true → some b ≡ some a → name ≡ action_text a
    text_of b e same =
        let q : b ≡ a = cc in
        subst (λ (x : Action). name ≡ action_text x) q (text_eq→eq name (action_text b) e)

    none_is_some : none ≡ some a → ⊥
    none_is_some e = cc

module _ (lib : Library) (u : UpdateCoordinator) (w : IsUpdateCoordinator u)
    (client : DeviceClient) where
  -- The action that was asked of the miner.
  abbrev pub Sent : Text → Context → Context → Type 0
  Sent name c c' =
      (a : Action) × (name ≡ action_text a)
      × (mutations c'.history ≡ mutations c.history ++ act a ∷ [])

  action-Sent :
      (name : Text) (o : Option Action) (c : Context)
      → named_action name ≡ o
      → (perform_action lib u client o c).0 ≡ returned tt
      → Sent name c (perform_action lib u client o c).1
  unfolding perform_action
  action-Sent name none c e h = absurd cc
  action-Sent name (some a) c e h =
      (a, named_action-eq-some name e, mutations_mutation (act a) c refl)

  -- what was asked of the miner before changes nothing of it
  after_quiet :
      (name : Text) (c c₁ c₂ : Context)
      → mutations c₁.history ≡ mutations c.history
      → Sent name c₁ c₂
      → Sent name c c₂
  after_quiet name c c₁ c₂ same (a, e, sent) =
      (a, e, sent ∙ ap (λ (l : List Command). l ++ act a ∷ []) same)

  read_then-Sent :
      (name : Text) (r : Ending MinerSnapshot) (c c₁ : Context)
      → mutations c₁.history ≡ mutations c.history
      → let x = go_on r (λ _. perform_action lib u client (named_action name)) c₁ in
        x.0 ≡ returned tt → Sent name c x.1
  read_then-Sent name (failed t) c c₁ same h = absurd cc
  read_then-Sent name (returned s) c c₁ same h =
      after_quiet name c c₁ (perform_action lib u client (named_action name) c₁).1 same
        (action-Sent name (named_action name) c₁ refl h)

  call-Sent :
      (now : Time) (name : Text) (c : Context)
      → (call_client_action lib u client now name c).0 ≡ returned tt
      → Sent name c (call_client_action lib u client now name c).1
  unfolding call_client_action
  call-Sent now name c h =
      let read = fresh_or lib u client update_failed now c in
      read_then-Sent name read.0 c read.1
        ((Quiet-fresh_or lib u w client update_failed now).quiet c) h

  module _ (k : MinerId) (t : Moment) where
    ended-Sent :
        (name : Text) (r : Ending (Unit {0})) (c c₁ : Context)
        → (r ≡ returned tt → Sent name c c₁)
        → (action_ended lib u client k t name r c₁).0 ≡ returned tt
        → Sent name c (action_ended lib u client k t name r c₁).1
    unfolding action_ended
    ended-Sent name (returned tt) c c₁ sent h =
        let (a, e, asked) = sent refl in
        (a, e, (Quiet-report lib u w client k t _ _ _).quiet c₁ ∙ asked)
    ended-Sent name (failed (fault (axeos value_error))) c c₁ sent h = absurd cc
    ended-Sent name (failed (fault (axeos overflow_error))) c c₁ sent h = absurd cc
    ended-Sent name (failed (fault (axeos key_error))) c c₁ sent h = absurd cc
    ended-Sent name (failed (fault (axeos _))) c c₁ sent h =
        absurd (fails_after (report lib u client k t _ _ _ c₁).0 _ _ h)
    ended-Sent name (failed (fault timed_out)) c c₁ sent h = absurd cc
    ended-Sent name (failed (fault client_fault)) c c₁ sent h = absurd cc
    ended-Sent name (failed (fleet_action _)) c c₁ sent h = absurd cc
    ended-Sent name (failed update_failed) c c₁ sent h =
        absurd (fails_after (report lib u client k t _ _ _ c₁).0 _ _ h)
    ended-Sent name (failed runtime_error) c c₁ sent h = absurd cc
    ended-Sent name (failed arithmetic_error) c c₁ sent h = absurd cc

    -- When an action of an administrator returns, its name is the word for an action, and exactly that
    -- action was asked of the miner, once.
    pub run_action-Sent :
        (name : Text) (c : Context)
        → (run_action lib u client k t name c).0 ≡ returned tt
        → (a : Action) × (name ≡ action_text a)
          × (mutations (run_action lib u client k t name c).1.history
              ≡ mutations c.history ++ act a ∷ [])
    unfolding run_action
    run_action-Sent name c h =
        let (result, c₁) = call_client_action lib u client t.now name c in
        ended-Sent name result c c₁ (call-Sent t.now name c) h

-- ===== src/Fleet/Verified.antt =====
-- What it means that a profile was applied.
use mathlib.Core.Path.{subst}
use mathlib.Core.List.{append_assoc}
use bitaxe_fleet.Prelude.{
  ◌≡◌, refl, ap, sym, ◌∙◌, Bool, true, false, Option, none, some, [], ◌∷◌, ◌++◌,
}
use bitaxe_fleet.Storage.State.{MinerRegistry, FleetIncident}
use bitaxe_fleet.Python.Text.{Text, codes, text_eq}
use bitaxe_fleet.Python.Library.{Library}
use bitaxe_fleet.Python.Dict.{lookup}
use bitaxe_fleet.Axeos.Errors.{Result, ok, err}
use bitaxe_fleet.Axeos.Models.{
  MinerId, MinerEndpoint, MinerSnapshot, AsicCapabilities, RecoveryProfile, supports_profile,
  to_recovery_profile, profile_eq,
}
use bitaxe_fleet.Axeos.Client.{Attempt, raised, done}
use bitaxe_fleet.Storage.Operations
use bitaxe_fleet.Fleet.Device.{
  Command, system_info, system_asic, patch_system, History, DeviceClient,
}
use bitaxe_fleet.Fleet.Coordinator.{
  Ending, returned, UpdateCoordinator, IsUpdateCoordinator, MinerCoordinator, Context, ◌>>=◌, ◌>>◌,
  pure, of_result, of_attempt, go_on, snapshot,
}
use bitaxe_fleet.Fleet.Coordinator.Methods.{
  modify, capabilities_or, get_capabilities, patch_profile,
}
use bitaxe_fleet.Fleet.Actions.{
  Moment, or_fail, saved_profile, require, report, fresh_snapshot, fresh_capabilities,
  patch_and_verify, apply_saved, apply_profile,
}
use bitaxe_fleet.Fleet.Refresh.{id_of, with_call, IsFresh}
use bitaxe_fleet.Fleet.Mutations.{mutations, mutations-append}
use bitaxe_fleet.Fleet.ReadBack.{
  bind-eq-returned, failed-ne-returned, IsReadBack, called_once, returned-IsFresh,
  patch_ended-IsReadBack,
}

module _ (lib : Library) (u : UpdateCoordinator) (w : IsUpdateCoordinator u) (client : DeviceClient)
    (k : MinerId) (t : Moment) where
  require_same : (b : Bool) (message : Text) (c : Context) → (require b message c).1 ≡ c
  require_same true message c = refl
  require_same false message c = refl

  -- A report writes to the registry alone.
  report_lem :
      (cause outcome detail : Text) (c : Context)
      → let c' = (report lib u client k t cause outcome detail c).1 in
        (c'.coordinator ≡ c.coordinator) × (c'.history ≡ c.history)
  unfolding report
  report_lem cause outcome detail c =
      stored (Operations.record_incident lib t.incident_id t.now k cause outcome detail c.registry)
    where
      stored :
          (r : Result FleetIncident × MinerRegistry)
          → let c' = (go_on (of_result r.0) (λ _. pure tt) (record c { registry = r.1 })).1 in
            (c'.coordinator ≡ c.coordinator) × (c'.history ≡ c.history)
      stored (err e, registry) = (refl, refl)
      stored (ok i, registry) = (refl, refl)

  -- the calls of an application up to its last read, all at the endpoint of the coordinator
  abbrev pub calls_before_read_back : RecoveryProfile → Context → History
  calls_before_read_back p c =
      let e = c.coordinator.client_endpoint in
      c.history
      ++ record { endpoint = e; command = system_info }
        ∷ record { endpoint = e; command = system_asic }
        ∷ record { endpoint = e; command = patch_system p }
        ∷ []

  -- The profile was patched once, between two reads of the settings, and the last read, which is the
  -- last call, gave the settings of the profile and the id that the coordinator was bound to at first.
  pub record IsVerified (p : RecoveryProfile) (c c' : Context) : Type 0 where
    pub current : MinerSnapshot
    pub found : RecoveryProfile
    pub read :
        client.get_system_info (calls_before_read_back p c) t.now c.coordinator.client_endpoint
        ≡ done current
    pub same_miner : text_eq current.identity.miner_id (id_of c) ≡ true
    pub settings : to_recovery_profile current.configuration ≡ ok (some found)
    pub equal : profile_eq found p ≡ true
    pub shown : snapshot c'.coordinator ≡ some current
    pub succeeded : c'.coordinator.polled.last_update_success ≡ true
    pub calls :
        c'.history
        ≡ calls_before_read_back p c
          ++ record { endpoint = c.coordinator.client_endpoint; command = system_info } ∷ []
    pub mutated : mutations c'.history ≡ mutations c.history ++ patch_system p ∷ []

  -- Where the capabilities are read: one call, and the same id and endpoint.
  record IsAsked (c c' : Context) : Type 0 where
    pub call : c'.history ≡ with_call system_asic c
    pub same_id : id_of c' ≡ id_of c
    pub same_endpoint : c'.coordinator.client_endpoint ≡ c.coordinator.client_endpoint

  asked : (c : Context) → IsAsked c (fresh_capabilities lib u client k t c).1
  unfolding fresh_capabilities get_capabilities capabilities_or
  asked c = by_known c.coordinator.capabilities
    where
      by_answer :
          (a : Attempt AsicCapabilities)
          → IsAsked c
              (go_on
                (of_attempt a)
                (λ found. modify (λ m. record m { capabilities = some found }) >> pure found)
                (record c { history = with_call system_asic c })).1
      by_answer (raised f) = record { call = refl; same_id = refl; same_endpoint = refl }
      by_answer (done a) = record { call = refl; same_id = refl; same_endpoint = refl }

      by_known : (o : Option AsicCapabilities) → IsAsked c (capabilities_or lib u client o true c).1
      by_known none = by_answer (client.get_system_asic c.history c.coordinator.client_endpoint)
      by_known (some known) =
          by_answer (client.get_system_asic c.history c.coordinator.client_endpoint)

  -- The context before the patch: two calls on record, and the same id and endpoint.
  record IsReady (c c' : Context) : Type 0 where
    pub calls :
        c'.history
        ≡ c.history
          ++ record { endpoint = c.coordinator.client_endpoint; command = system_info }
            ∷ record { endpoint = c.coordinator.client_endpoint; command = system_asic }
            ∷ []
    pub same_id : id_of c' ≡ id_of c
    pub same_endpoint : c'.coordinator.client_endpoint ≡ c.coordinator.client_endpoint

  call_at :
      (command : Command) (c : Context) {e : MinerEndpoint} {h : History}
      → c.coordinator.client_endpoint ≡ e
      → c.history ≡ h
      → with_call command c ≡ h ++ record { endpoint = e; command = command } ∷ []
  call_at command c same_endpoint same_history = rw (same_endpoint, same_history) refl

  fresh-IsReady :
      (c c₁ c₂ : Context) (s : MinerSnapshot)
      → IsFresh lib u w client t.now c c₁ s
      → c₁.history ≡ with_call system_info c
      → IsAsked c₁ c₂
      → IsReady c c₂
  fresh-IsReady c c₁ c₂ s fresh call asked = record {
    calls =
        asked.call ∙ call_at system_asic c₁ fresh.same_endpoint call ∙ append_assoc c.history _ _;
    same_id = asked.same_id ∙ fresh.same_id;
    same_endpoint = asked.same_endpoint ∙ fresh.same_endpoint;
  }

  mutated :
      (p : RecoveryProfile) (c : Context)
      → mutations (
          calls_before_read_back p c
          ++ record { endpoint = c.coordinator.client_endpoint; command = system_info } ∷ [])
        ≡ mutations c.history ++ patch_system p ∷ []
  unfolding mutations
  mutated p c = ap mutations (append_assoc c.history _ _) ∙ mutations-append c.history _

  ready-IsVerified :
      (p : RecoveryProfile) (c c₂ c₃ c' : Context)
      → IsReady c c₂
      → IsReadBack lib u w client k t p (patch_profile lib u client p c₂).1 c₃
      → c'.coordinator ≡ c₃.coordinator
      → c'.history ≡ c₃.history
      → IsVerified p c c'
  unfolding patch_profile
  ready-IsVerified p c c₂ c₃ c' ready v same_coordinator same_history =
      let patched =
        call_at (patch_system p) c₂ ready.same_endpoint ready.calls ∙ append_assoc c.history _ _ in
      let calls =
        same_history
        ∙ v.call
        ∙ call_at system_info (patch_profile lib u client p c₂).1 ready.same_endpoint patched in
      record {
        current = v.current;
        found = v.found;
        read = rw (sym patched, sym ready.same_endpoint) v.fresh.read;
        same_miner = rw (sym ready.same_id) v.fresh.same_miner;
        settings = v.settings;
        equal = v.equal;
        shown = ap snapshot same_coordinator ∙ v.fresh.shown;
        succeeded =
            ap (λ (x : MinerCoordinator). x.polled.last_update_success) same_coordinator
            ∙ v.fresh.succeeded;
        calls = calls;
        mutated = ap mutations calls ∙ mutated p c;
      }

  apply_saved-IsVerified :
      (p : RecoveryProfile) (c : Context)
      → (apply_saved lib u client k t p c).0 ≡ returned tt
      → IsVerified p c (apply_saved lib u client k t p c).1
  unfolding apply_saved patch_and_verify
  apply_saved-IsVerified p c h =
      let (s, e0, r0, same0) = bind-eq-returned (fresh_snapshot lib u client k t) _ c h in
      let c₁ = (fresh_snapshot lib u client k t c).1 in
      let (found, e1, r1, same1) = bind-eq-returned (fresh_capabilities lib u client k t) _ c₁ r0 in
      let c₂ = (fresh_capabilities lib u client k t c₁).1 in
      let (_, e2, r2, same2) = bind-eq-returned (require (supports_profile found p) _) _ c₂ r1 in
      let c₃ =
        (require (supports_profile found p) (codes "saved profile is not supported by this miner")
          c₂).1 in
      let (_, e3, r3, same3) = bind-eq-returned (patch_and_verify lib u client k t p) _ c₃ r2 in
      let c₄ = (patch_and_verify lib u client k t p c₃).1 in
      let ready =
        fresh-IsReady c c₁ c₂ s (returned-IsFresh lib u w client k t c e0)
          (called_once lib u w client k t c) (asked c₁) in
      let reported = report_lem _ _ _ c₄ in
      subst (λ (r : Ending (Unit {0}) × Context). IsVerified p c r.1)
        (sym (same0 ∙ same1 ∙ same2 ∙ same3))
        (ready-IsVerified p c c₃ c₄ _
          (subst (IsReady c) (sym (require_same (supports_profile found p) _ c₂)) ready)
          (patch_ended-IsReadBack lib u w client k t p (patch_profile lib u client p c₃).0
            (patch_profile lib u client p c₃).1 e3)
          reported.0 reported.1)

  -- When applying a profile returns without an error, four calls were made, all at the endpoint that the
  -- coordinator had at first: a read, the capabilities, one patch of the saved profile, and a read after
  -- it. The last read was answered with the id that the coordinator was bound to at first, the settings
  -- in the answer are those of the profile, and the answer is the snapshot that is shown.
  pub apply_profile-IsVerified :
      (c : Context)
      → (apply_profile lib u client k t c).0 ≡ returned tt
      → (p : RecoveryProfile) × (saved_profile (lookup k c.registry.miners) ≡ some p)
        × IsVerified p c (apply_profile lib u client k t c).1
  unfolding apply_profile
  apply_profile-IsVerified c = by_saved (saved_profile (lookup k c.registry.miners))
    where
      by_saved :
          (o : Option RecoveryProfile)
          → let r =
              (or_fail (codes "miner has no saved recovery profile") o
                  >>= apply_saved lib u client k t)
                c in
            r.0 ≡ returned tt → (p : RecoveryProfile) × (o ≡ some p) × IsVerified p c r.1
      by_saved none h = absurd (failed-ne-returned h)
      by_saved (some p) h = (p, refl, apply_saved-IsVerified p c h)

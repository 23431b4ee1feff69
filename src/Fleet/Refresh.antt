-- ===== src/Fleet/Refresh.antt =====
-- What a refresh of a coordinator does, and the reads before an action.
use bitaxe_fleet.Prelude.{
  ◌≡◌, refl, ap, ◌∙◌, ◌⊎◌, true, false, Option, none, some, [], ◌∷◌, ◌++◌, if◌then◌else◌,
  Bool-cases, inl, inr,
}
use bitaxe_fleet.Python.Text.{text_eq, text_eq→eq}
use bitaxe_fleet.Python.Dict.{lookup}
use bitaxe_fleet.Python.Library.{Library}
use bitaxe_fleet.Axeos.Errors.{Error, Result, ok, err}
use bitaxe_fleet.Axeos.Models.{MinerId, Time, MinerSnapshot, MinerIdentity, EnrolledMiner}
use bitaxe_fleet.Axeos.Models.Equality.{miner_eq}
use bitaxe_fleet.Axeos.Client.{Fault, axeos, timed_out, client_fault, Attempt, raised, done}
use bitaxe_fleet.Storage.State.{MinerRegistry}
use bitaxe_fleet.Storage.Operations
use bitaxe_fleet.Fleet.Device.{Command, system_info, History, DeviceClient}
use bitaxe_fleet.Fleet.Coordinator.{
  Trouble, failed, returned, Polled, UpdateCoordinator, IsUpdateCoordinator, MinerCoordinator,
  Context, ◌>>=◌, snapshot,
}
use bitaxe_fleet.Fleet.Coordinator.Methods.{
  info_read, accept_update, keep_snapshot, refresh_ended, read_info, take_snapshot, update_data,
  refresh, or_stale, fresh_or,
}

or_stale_failed : (t : Trouble) (o : Option MinerSnapshot) → or_stale t false o ≡ failed t
or_stale_failed t none = refl
or_stale_failed t (some s) = refl

abbrev pub id_of : Context → MinerId
id_of c = c.coordinator.miner.identity.miner_id

-- one more call on record, at the endpoint of the client
abbrev pub with_call : Command → Context → History
with_call command c =
    c.history ++ record { endpoint = c.coordinator.client_endpoint; command = command } ∷ []

-- what an update that the registry took says of the miner it gives back
Named : MinerSnapshot → Result (Option EnrolledMiner) → Type 0
Named s (ok (some m)) = m.identity ≡ s.identity
Named s (ok none) = Unit {0}
Named s (err e) = Unit {0}

module _ (lib : Library) where
  update_known-Named :
      (s : MinerSnapshot) (o : Option EnrolledMiner) (r : MinerRegistry)
      → Named s (Operations.update_known lib s o r).0
  unfolding Operations.update_known Operations.replace_changed Operations.enrolled_from_snapshot
      Named
  update_known-Named s none r = tt
  update_known-Named s (some m) r =
      elim (Bool-cases (miner_eq (record m { endpoint = s.endpoint; identity = s.identity }) m)) [
        | inl e ↦ rw e refl
        | inr e ↦ rw e refl
      ]

  update_from_snapshot-Named :
      (s : MinerSnapshot) (r : MinerRegistry) → Named s (Operations.update_from_snapshot lib s r).0
  unfolding Operations.update_from_snapshot Operations.update_loaded Named
  update_from_snapshot-Named s r = loaded (Operations.load lib r)
    where
      loaded :
          (a : Result (Unit {0}) × MinerRegistry)
          → Named s
              (Operations.◌>>◌ (λ (r' : MinerRegistry). a) (Operations.update_loaded lib s) r).0
      loaded (err e, r') = tt
      loaded (ok x, r') = update_known-Named s (lookup s.identity.miner_id r'.miners) r'

module _ (lib : Library) (u : UpdateCoordinator) (w : IsUpdateCoordinator u)
    (client : DeviceClient) where
  -- what the miner at the endpoint of the coordinator answers
  answer : Time → Context → Attempt MinerSnapshot
  answer now c = client.get_system_info c.history now c.coordinator.client_endpoint

  -- The read gave a snapshot of the miner that the coordinator is bound to and the registry took it: it
  -- is the snapshot of the coordinator, and its time that of the last success.
  pub record IsFresh (now : Time) (c c' : Context) (s : MinerSnapshot) : Type 0 where
    pub read : client.get_system_info c.history now c.coordinator.client_endpoint ≡ done s
    pub same_miner : text_eq s.identity.miner_id (id_of c) ≡ true
    pub updated : Option EnrolledMiner
    pub recorded : Operations.update_from_snapshot lib s c.registry ≡ (ok updated, c'.registry)
    pub shown : snapshot c'.coordinator ≡ some s
    pub succeeded : c'.coordinator.polled.last_update_success ≡ true
    pub dated : c'.coordinator.last_success_at ≡ some now
    pub same_id : id_of c' ≡ id_of c
    pub same_endpoint : c'.coordinator.client_endpoint ≡ c.coordinator.client_endpoint

  -- Why a refresh fails: the read raised, another miner answered, or the registry refused the update.
  pub data Refused (now : Time) (c c' : Context) : Type 0 where
    read_raised :
        (f : Fault)
        → client.get_system_info c.history now c.coordinator.client_endpoint ≡ raised f
        → c'.registry ≡ c.registry
        → Refused now c c'
    other_answered :
        (s : MinerSnapshot)
        → client.get_system_info c.history now c.coordinator.client_endpoint ≡ done s
        → text_eq s.identity.miner_id (id_of c) ≡ false
        → c'.registry ≡ c.registry
        → Refused now c c'
    not_recorded :
        (s : MinerSnapshot) (e : Error)
        → client.get_system_info c.history now c.coordinator.client_endpoint ≡ done s
        → text_eq s.identity.miner_id (id_of c) ≡ true
        → Operations.update_from_snapshot lib s c.registry ≡ (err e, c'.registry)
        → Refused now c c'

  -- The refresh failed for one of these reasons: the last snapshot is still shown with the time of the
  -- last success, and the update counts as failed.
  pub record IsStale (now : Time) (c c' : Context) : Type 0 where
    pub reason : Refused now c c'
    pub kept : snapshot c'.coordinator ≡ snapshot c.coordinator
    pub failed_update : c'.coordinator.polled.last_update_success ≡ false
    pub same_date : c'.coordinator.last_success_at ≡ c.coordinator.last_success_at
    pub same_enrollment : c'.coordinator.miner ≡ c.coordinator.miner
    pub same_endpoint : c'.coordinator.client_endpoint ≡ c.coordinator.client_endpoint

  Refreshed : Time → Context → Context → Type 0
  Refreshed now c c' =
      (c'.history ≡ with_call system_info c)
      × (((s : MinerSnapshot) × IsFresh now c c' s) ⊎ IsStale now c c')

  -- the context after the read
  called : Context → Context
  called c = record c { history = with_call system_info c }

  stale :
      (now : Time) (c c' : Context)
      → c'.coordinator ≡ record c.coordinator { polled = u.refreshed none c.coordinator.polled }
      → Refused now c c'
      → IsStale now c c'
  stale now c c' e reason = record {
    reason = reason;
    kept =
        ap snapshot e
        ∙ ap (λ (p : Polled). if c.coordinator.has_snapshot then p.latest else none)
            (w.fails c.coordinator.polled);
    failed_update =
        ap (λ (x : MinerCoordinator). x.polled.last_update_success) e
        ∙ ap (λ (p : Polled). p.last_update_success) (w.fails c.coordinator.polled);
    same_date = ap (λ (x : MinerCoordinator). x.last_success_at) e;
    same_enrollment = ap (λ (x : MinerCoordinator). x.miner) e;
    same_endpoint = ap (λ (x : MinerCoordinator). x.client_endpoint) e;
  }

  -- the context after an update that the registry took
  taken : Time → MinerSnapshot → Option EnrolledMiner → MinerRegistry → Context → Context
  taken now s updated registry c = refresh_ended u (
    returned s,
    record (called c) {
      coordinator = accept_update now updated c.coordinator;
      registry = registry;
    },
  )

  fresh :
      (now : Time) (s : MinerSnapshot) (c : Context) (updated : Option EnrolledMiner)
      (registry : MinerRegistry)
      → answer now c ≡ done s
      → text_eq s.identity.miner_id (id_of c) ≡ true
      → Operations.update_from_snapshot lib s c.registry ≡ (ok updated, registry)
      → Named s (ok updated)
      → IsFresh now c (taken now s updated registry c) s
  unfolding refresh_ended called answer taken Named
  fresh now s c none registry got own took named = record {
    read = got;
    same_miner = own;
    updated = none;
    recorded = took;
    shown = ap (λ (p : Polled). p.latest) (w.succeeds s c.coordinator.polled);
    succeeded = ap (λ (p : Polled). p.last_update_success) (w.succeeds s c.coordinator.polled);
    dated = refl;
    same_id = refl;
    same_endpoint = refl;
  }
  fresh now s c (some m) registry got own took named = record {
    read = got;
    same_miner = own;
    updated = some m;
    recorded = took;
    shown = ap (λ (p : Polled). p.latest) (w.succeeds s c.coordinator.polled);
    succeeded = ap (λ (p : Polled). p.last_update_success) (w.succeeds s c.coordinator.polled);
    dated = refl;
    same_id =
        ap (λ (i : MinerIdentity). i.miner_id) named ∙ text_eq→eq s.identity.miner_id (id_of c) own;
    same_endpoint = refl;
  }

  kept_by :
      (now : Time) (s : MinerSnapshot) (c : Context)
      (o : Result (Option EnrolledMiner) × MinerRegistry)
      → answer now c ≡ done s
      → text_eq s.identity.miner_id (id_of c) ≡ true
      → Operations.update_from_snapshot lib s c.registry ≡ o
      → Named s o.0
      → Refreshed now c (refresh_ended u (keep_snapshot now s o (called c)))
  unfolding refresh_ended keep_snapshot Refreshed called answer taken
  kept_by now s c (err e, registry) got own took named =
      (refl, inr (stale now c _ refl (not_recorded s e got own took)))
  kept_by now s c (ok none, registry) got own took named =
      (refl, inl (s, fresh now s c none registry got own took named))
  kept_by now s c (ok (some m), registry) got own took named =
      (refl, inl (s, fresh now s c (some m) registry got own took named))

  read_ended :
      (now : Time) (c : Context) (a : Attempt MinerSnapshot)
      → answer now c ≡ a
      → Refreshed now c (refresh_ended u ((info_read a >>= take_snapshot lib u client now) c))
  unfolding info_read take_snapshot refresh_ended Refreshed answer
  read_ended now c (raised (axeos e)) got =
      (refl, inr (stale now c _ refl (read_raised (axeos e) got refl)))
  read_ended now c (raised timed_out) got =
      (refl, inr (stale now c _ refl (read_raised timed_out got refl)))
  read_ended now c (raised client_fault) got =
      (refl, inr (stale now c _ refl (read_raised client_fault got refl)))
  read_ended now c (done s) got = elim (Bool-cases (text_eq s.identity.miner_id (id_of c))) [
    | inl own ↦ rw own (
        unfold called in
        kept_by now s c (Operations.update_from_snapshot lib s c.registry) got own refl
          (update_from_snapshot-Named lib s c.registry))
    | inr other ↦ rw other (refl, inr (stale now c _ refl (other_answered s got other refl)))
  ]

  -- A refresh is one read at the endpoint of the coordinator. Either a miner with the id that the
  -- coordinator is bound to answered and the registry took the update: its snapshot is shown, the update
  -- counts as successful and is dated now. Or the read raised, another miner answered, or the registry
  -- refused the update: the snapshot and the date from before are kept, and the update counts as failed.
  -- In both cases the id and the endpoint stay.
  pub refresh_lem :
      (now : Time) (c : Context)
      → let c' = refresh lib u client now c in
        (c'.history ≡ with_call system_info c)
        × (((s : MinerSnapshot) × IsFresh now c c' s) ⊎ IsStale now c c')
  unfolding refresh update_data read_info Refreshed answer
  refresh_lem now c =
      read_ended now c (client.get_system_info c.history now c.coordinator.client_endpoint) refl

  -- What a read before an action ends with.
  pub fresh_or_lem :
      (t : Trouble) (now : Time) (c : Context)
      → let (result, c') = fresh_or lib u client t now c in
        (c'.history ≡ with_call system_info c)
        × (((s : MinerSnapshot) × (result ≡ returned s) × IsFresh now c c' s) ⊎ (result ≡ failed t))
  unfolding fresh_or
  fresh_or_lem t now c = elim (refresh_lem now c).1 [
    | inl (s, fresh) ↦
        ((refresh_lem now c).0, inl (s, rw (fresh.shown, fresh.succeeded) refl, fresh))
    | inr gone ↦ (
      (refresh_lem now c).0,
      inr (
          rw gone.failed_update
            (or_stale_failed t (snapshot (refresh lib u client now c).coordinator))),
    )
  ]

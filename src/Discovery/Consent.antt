-- ===== src/Discovery/Consent.antt =====
-- About what enters the registry, and what is pending.
use bitaxe_fleet.Prelude.{
  Bool, true, false, not, Option, none, some, [], ◌∷◌, ◌++◌, if◌then◌else◌, is_some, ◌&&◌, ◌||◌,
  ◌≡◌, refl, arith, sym, Bool-cases, inl, inr,
}
use mathlib.Core.Option
use mathlib.Core.Path.{subst}
use bitaxe_fleet.Python.Text.{text_eq, text_eq_iff}
use bitaxe_fleet.Python.Dict.{lookup, erase, lookup-insert}
use bitaxe_fleet.Python.Library.{Library}
use bitaxe_fleet.Axeos.Errors.{is_axeos_error, Result, ok, err}
use bitaxe_fleet.Axeos.Models.{MinerId, MinerEndpoint, MinerSnapshot, EnrolledMiner}
use bitaxe_fleet.Axeos.Models.Equality.{miner_eq}
use bitaxe_fleet.Storage.State.{MinerRegistry, contains_id}
use bitaxe_fleet.Storage.Operations
use bitaxe_fleet.Storage.Operations.{
  load, save, enrolled_from_snapshot, update_loaded, update_known, replace_changed, enroll_loaded,
  reject_loaded, put_miner,
}
use bitaxe_fleet.Storage.Operations.Effects.{Describes, OnlyChanges, load_then, enroll_lem}
use bitaxe_fleet.Discovery.Manager.{
  DiscoverySource, DiscoveryCandidate, DiscoveryManager, candidate_not_found, candidate_changed,
  not_revalidated, passed, Outcome, failure, success, Client, approved, merged, drop_candidate,
  known_updated, route, probed, probe_endpoint, approval_ended, revalidated, approve_found,
  approve_candidate,
}

-- Whether the second registry holds the same ids as miners and as rejections, and stays loaded.
abbrev pub SameIds : MinerRegistry → MinerRegistry → Type 0
SameIds r r' =
    (r'.loaded ≡ true)
    × (r'.rejected_candidates ≡ r.rejected_candidates)
    × ((j : MinerId) → is_some (lookup j r'.miners) ≡ is_some (lookup j r.miners))

-- A pending candidate is neither approved nor rejected.
abbrev pub IsUndecided : DiscoveryManager → MinerId → Type 0
IsUndecided d k =
    (is_some (lookup k d.candidates)
      && (contains_id k d.registry.rejected_candidates || is_some (lookup k d.registry.miners)))
    ≡ false

-- What every operation keeps.
pub record IsConsistent (d : DiscoveryManager) : Type 0 where
  pub running : d.registry.loaded ≡ true
  pub undecided : (k : MinerId) → IsUndecided d k

module _ (lib : Library) where
  replaced-SameIds :
      (s : MinerSnapshot) (old : EnrolledMiner) (r : MinerRegistry)
      → r.loaded ≡ true
      → lookup s.identity.miner_id r.miners ≡ some old
      → SameIds r (replace_changed lib s old r).1
  unfolding replace_changed save
  replaced-SameIds s old r h e =
      let new = enrolled_from_snapshot s (some old) in
      elim (miner_eq new old)
        as (λ (same : Bool).
          SameIds r
            (if◌then◌else◌ {A = Result (Option EnrolledMiner) × MinerRegistry} same
              (ok (some new), r)
              (ok (some new), (save lib (put_miner s.identity.miner_id new r)).1)).1) [
                | true ↦ (h, refl, λ j. refl)
                | false ↦ (
                  h,
                  refl,
                  λ j. ground (
                    arith,
                    e,
                    lookup-insert s.identity.miner_id j new r.miners,
                    text_eq_iff j s.identity.miner_id,
                  ),
                )
              ]

  known-SameIds :
      (s : MinerSnapshot) (o : Option EnrolledMiner) (r : MinerRegistry)
      → r.loaded ≡ true
      → lookup s.identity.miner_id r.miners ≡ o
      → SameIds r (update_known lib s o r).1
  unfolding update_known
  known-SameIds s none r h e = (h, refl, λ j. refl)
  known-SameIds s (some old) r h e = replaced-SameIds s old r h e

  update-SameIds :
      (s : MinerSnapshot) (r : MinerRegistry)
      → r.loaded ≡ true
      → SameIds r (Operations.update_from_snapshot lib s r).1
  unfolding Operations.update_from_snapshot update_loaded
  update-SameIds s r h =
      subst (λ x. SameIds r x.1) (sym (load_then lib (update_loaded lib s) r h))
        (known-SameIds s (lookup s.identity.miner_id r.miners) r h refl)

  -- A probe that leaves the registry's ids alone and the decisions open.
  abbrev Observed : DiscoveryManager → DiscoveryManager → Type 0
  Observed d d' = SameIds d.registry d'.registry × IsConsistent d'

  kept-IsConsistent :
      (d d' : DiscoveryManager)
      → SameIds d.registry d'.registry
      → d'.candidates ≡ d.candidates
      → IsConsistent d
      → IsConsistent d'
  kept-IsConsistent d d' (loaded, rejected, miners) kept h = record {
    running = loaded;
    undecided = λ k. rw (kept, rejected, miners k) (h.undecided k);
  }

  known_lem :
      (s : MinerSnapshot) (result : Result (Option EnrolledMiner)) (d d' : DiscoveryManager)
      → SameIds d.registry d'.registry
      → d'.candidates ≡ d.candidates
      → IsConsistent d
      → Observed d (known_updated s result d').1
  unfolding known_updated
  known_lem s (err e) d d' same kept h = (same, kept-IsConsistent d d' same kept h)
  known_lem s (ok none) d d' same kept h = (same, kept-IsConsistent d d' same kept h)
  known_lem s (ok (some m)) d d' same kept h =
      (same, kept-IsConsistent d (known_updated s (ok (some m)) d').1 same kept h)

  route_lem :
      (source : DiscoverySource) (s : MinerSnapshot) (o : Option EnrolledMiner)
      (d : DiscoveryManager)
      → lookup s.identity.miner_id d.registry.miners ≡ o
      → IsConsistent d
      → Observed d (route lib source s o d).1
  unfolding route
  route_lem source s (some enrolled) d e h =
      let (result, registry) = Operations.update_from_snapshot lib s d.registry in
      known_lem s result d (record d { registry = registry })
        (update-SameIds s d.registry h.running) refl h
  route_lem source s none d e h =
      elim (Bool-cases (contains_id s.identity.miner_id d.registry.rejected_candidates)) [
        | inl refused ↦ rw refused ((h.running, refl, λ j. refl), h)
        | inr free ↦ rw free (
          (h.running, refl, λ j. refl),
          record {
            running = h.running;
            undecided = λ k. ground (
              arith,
              e,
              free,
              h.undecided k,
              text_eq_iff k s.identity.miner_id,
              lookup-insert s.identity.miner_id k
                  (merged (lookup s.identity.miner_id d.candidates) s source) d.candidates,
            );
          },
        )
      ]

  probed_lem :
      (source : DiscoverySource) (reply : Result MinerSnapshot) (d : DiscoveryManager)
      → IsConsistent d
      → Observed d (probed lib source reply d).1
  unfolding probed
  probed_lem source (err e) d h =
      elim (is_axeos_error e)
        as (λ b.
          Observed d
            (if◌then◌else◌ {A = Outcome Bool × DiscoveryManager} b (success false, d)
              (failure (passed e), d)).1) [
                | true ↦ ((h.running, refl, λ j. refl), h)
                | false ↦ ((h.running, refl, λ j. refl), h)
              ]
  probed_lem source (ok s) d h =
      route_lem source s (lookup s.identity.miner_id d.registry.miners) d refl h

  -- A probe of any endpoint, whatever the client finds there, approves no miner and rejects none: from a
  -- consistent state the registry holds the same ids as before, and the state stays consistent.
  pub probe_endpoint_lem :
      (client : Client) (endpoint : MinerEndpoint) (source : DiscoverySource) (d : DiscoveryManager)
      → IsConsistent d
      → let (found, d') = probe_endpoint lib client endpoint source d in
        SameIds d.registry d'.registry × IsConsistent d'
  unfolding probe_endpoint
  probe_endpoint_lem client endpoint source d h =
      elim d.closed
        as (λ b.
          Observed d
            (if◌then◌else◌ {A = Outcome Bool × DiscoveryManager} b (success false, d)
              (probed lib source (client endpoint) d)).1) [
                | true ↦ ((h.running, refl, λ j. refl), h)
                | false ↦ probed_lem source (client endpoint) d h
              ]

  pub enroll_loaded_lem :
      (s : MinerSnapshot) (r : MinerRegistry)
      → r.loaded ≡ true
      → (Operations.enroll lib s r).1.loaded ≡ true
  unfolding Operations.enroll enroll_loaded save
  enroll_loaded_lem s r h = rw (load_then lib (enroll_loaded lib s) r h) h

  -- How an approval ends, by the pending candidate and what the client finds at its endpoint: with none
  -- pending, or no miner there, nothing changes; a different miner there ends the candidacy and nothing
  -- else; else the miner is approved under its id, its candidacy ends, and one call is made.
  abbrev pub Approval :
      MinerId
      → Option (Result MinerSnapshot)
      → DiscoveryManager
      → Outcome EnrolledMiner × DiscoveryManager
      → Type 0
  Approval k none d (o, d') = (o ≡ failure candidate_not_found) × (d' ≡ d)
  Approval k (some (err e)) d (o, d') =
      (o ≡ failure (if is_axeos_error e then not_revalidated else passed e)) × (d' ≡ d)
  Approval k (some (ok s)) d (o, d') =
      if text_eq s.identity.miner_id k
      then ((m : EnrolledMiner) × (o ≡ success m)
          × Describes s (lookup s.identity.miner_id d.registry.miners) m
          × OnlyChanges s.identity.miner_id (some m) d.registry d'.registry
          × (d'.candidates ≡ erase k d.candidates)
          × (d'.calls ≡ d.calls ++ approved m ∷ []))
      else ((o ≡ failure candidate_changed) × (d' ≡ drop_candidate k d))

  pub approval_ended_lem :
      (k : MinerId) (result : Result EnrolledMiner) (m : EnrolledMiner) (d : DiscoveryManager)
      → result ≡ ok m
      → approval_ended lib k result d
        ≡ (success m, record (drop_candidate k d) { calls = d.calls ++ approved m ∷ [] })
  unfolding approval_ended
  approval_ended_lem k result m d e = rw e refl

  revalidated_lem :
      (k : MinerId) (reply : Result MinerSnapshot) (d : DiscoveryManager)
      → d.registry.loaded ≡ true
      → Approval k (some reply) d (revalidated lib k reply d)
  unfolding revalidated
  revalidated_lem k (err e) d h = (refl, refl)
  revalidated_lem k (ok s) d h =
      elim (text_eq s.identity.miner_id k)
        as (λ same.
          let out =
            if◌then◌else◌ {A = Outcome EnrolledMiner × DiscoveryManager} (not same)
              (failure candidate_changed, drop_candidate k d)
              (approval_ended lib k (Operations.enroll lib s d.registry).0
                (record d { registry = (Operations.enroll lib s d.registry).1 })) in
          if same
          then ((m : EnrolledMiner) × (out.0 ≡ success m)
              × Describes s (lookup s.identity.miner_id d.registry.miners) m
              × OnlyChanges s.identity.miner_id (some m) d.registry out.1.registry
              × (out.1.candidates ≡ erase k d.candidates)
              × (out.1.calls ≡ d.calls ++ approved m ∷ []))
          else ((out.0 ≡ failure candidate_changed) × (out.1 ≡ drop_candidate k d))) [
            | true ↦
                let (m, returned, described, changes, rejected, incidents) =
                  enroll_lem lib s d.registry h in
                let ended =
                  approval_ended_lem k (Operations.enroll lib s d.registry).0 m
                    (record d { registry = (Operations.enroll lib s d.registry).1 }) returned in
                (m, rw ended refl, described, rw ended changes, rw ended refl, rw ended refl)
            | false ↦ (refl, refl)
          ]

  -- In a manager over a loaded registry: with no candidate pending under the id, or with no miner at the
  -- endpoint of the candidate, an approval fails and changes nothing; with a different miner there it
  -- fails and the candidate alone is dropped; else exactly that miner is approved, with the address and
  -- identity just read and earlier settings or the defaults, its candidate is dropped, and one call is made.
  pub approve_candidate_lem :
      (client : Client) (k : MinerId) (d : DiscoveryManager)
      → d.registry.loaded ≡ true
      → Approval k
          (Option.map (λ (c : DiscoveryCandidate). client c.endpoint) (lookup k d.candidates))
          d
          (approve_candidate lib client k d)
  unfolding approve_candidate approve_found
  approve_candidate_lem client k d h = found (lookup k d.candidates)
    where
      found :
          (o : Option DiscoveryCandidate)
          → Approval k
              (Option.map (λ (c : DiscoveryCandidate). client c.endpoint) o)
              d
              (approve_found lib client k o d)
      found none = (refl, refl)
      found (some c) = revalidated_lem k (client c.endpoint) d h

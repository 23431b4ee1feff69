-- ===== src/Discovery/Decisions.antt =====
-- About sequences of probes, approvals and rejections.
use bitaxe_fleet.Prelude.{Option, none, some, List, [], ◌∷◌, ◌≡◌, arith, Bool-cases, inl, inr}
use bitaxe_fleet.Python.Text.{text_eq, text_eq_iff}
use bitaxe_fleet.Python.Dict.{lookup, lookup-erase}
use bitaxe_fleet.Python.Library.{Library}
use bitaxe_fleet.Axeos.Errors.{Result, ok, err}
use bitaxe_fleet.Axeos.Models.{MinerId, MinerEndpoint, MinerSnapshot}
use bitaxe_fleet.Storage.RoundTrip.{contains_id-add_id}
use bitaxe_fleet.Storage.Operations
use bitaxe_fleet.Storage.Operations.{
  load, save, enrolled_from_snapshot, update_loaded, update_known, replace_changed, enroll_loaded,
  reject_loaded, put_miner,
}
use bitaxe_fleet.Storage.Operations.Effects.{load_then, enroll_lem}
use bitaxe_fleet.Discovery.Manager.{
  DiscoverySource, DiscoveryCandidate, DiscoveryManager, Client, drop_candidate, probe_endpoint,
  approval_ended, revalidated, approve_found, approve_candidate, rejection_ended, reject_candidate,
}
use bitaxe_fleet.Discovery.Consent.{
  IsConsistent, probe_endpoint_lem, enroll_loaded_lem, approval_ended_lem,
}

-- An operation of the manager, with what the client then finds.
pub data Operation : Type 0 where
  probing : Client → MinerEndpoint → DiscoverySource → Operation
  approving : Client → MinerId → Operation
  rejecting : MinerId → Operation

module _ (lib : Library) where
  -- The manager after the operation, whether it returned or raised.
  pub perform : Operation → DiscoveryManager → DiscoveryManager
  perform (probing client endpoint source) d = (probe_endpoint lib client endpoint source d).1
  perform (approving client k) d = (approve_candidate lib client k d).1
  perform (rejecting k) d = (reject_candidate lib k d).1

  pub perform_all : List Operation → DiscoveryManager → DiscoveryManager
  unfolding perform
  perform_all [] d = d
  perform_all (o ∷ os) d = perform_all os (perform o d)

  dropped-IsConsistent :
      (k : MinerId) (d : DiscoveryManager) → IsConsistent d → IsConsistent (drop_candidate k d)
  dropped-IsConsistent k d h = record {
    running = h.running;
    undecided = λ j. ground (arith, h.undecided j, lookup-erase k j d.candidates);
  }

  enrolled-IsConsistent :
      (k : MinerId) (s : MinerSnapshot) (d : DiscoveryManager)
      → s.identity.miner_id ≡ k
      → IsConsistent d
      → IsConsistent
          (approval_ended lib k
            (Operations.enroll lib s d.registry).0
            (record d { registry = (Operations.enroll lib s d.registry).1 })).1
  enrolled-IsConsistent k s d e h =
      let (m, returned, described, changes, rejected, incidents) =
        enroll_lem lib s d.registry h.running in
      rw
        (approval_ended_lem lib k (Operations.enroll lib s d.registry).0 m
          (record d { registry = (Operations.enroll lib s d.registry).1 }) returned)
        (record {
          running = enroll_loaded_lem lib s d.registry h.running;
          undecided = λ j.
              ground
                (arith, e, h.undecided j, lookup-erase k j d.candidates, changes j, rejected j);
        })

  revalidated-IsConsistent :
      (k : MinerId) (reply : Result MinerSnapshot) (d : DiscoveryManager)
      → IsConsistent d
      → IsConsistent (revalidated lib k reply d).1
  unfolding revalidated
  revalidated-IsConsistent k (err e) d h = h
  revalidated-IsConsistent k (ok s) d h = elim (Bool-cases (text_eq s.identity.miner_id k)) [
    | inl same ↦
        rw same (enrolled-IsConsistent k s d ((text_eq_iff s.identity.miner_id k).0 same) h)
    | inr differs ↦ rw differs (dropped-IsConsistent k d h)
  ]

  approve-IsConsistent :
      (client : Client) (k : MinerId) (d : DiscoveryManager)
      → IsConsistent d
      → IsConsistent (approve_candidate lib client k d).1
  unfolding approve_candidate
  approve-IsConsistent client k d h = found (lookup k d.candidates)
    where
      found : (o : Option DiscoveryCandidate) → IsConsistent (approve_found lib client k o d).1
      found none = unfold approve_found in h
      found (some c) = unfold approve_found in revalidated-IsConsistent k (client c.endpoint) d h

  reject-IsConsistent :
      (k : MinerId) (d : DiscoveryManager)
      → IsConsistent d
      → IsConsistent (reject_candidate lib k d).1
  unfolding reject_candidate rejection_ended Operations.reject_candidate
  reject-IsConsistent k d h = rw (load_then lib (reject_loaded lib k) d.registry h.running) (
      unfold reject_loaded save in
      record {
        running = h.running;
        undecided = λ j. ground (
          arith,
          h.undecided j,
          lookup-erase k j d.candidates,
          contains_id-add_id j k d.registry.rejected_candidates,
        );
      })

  perform-IsConsistent :
      (o : Operation) (d : DiscoveryManager) → IsConsistent d → IsConsistent (perform o d)
  unfolding perform
  perform-IsConsistent (probing client endpoint source) d h =
      (probe_endpoint_lem lib client endpoint source d h).1
  perform-IsConsistent (approving client k) d h = approve-IsConsistent client k d h
  perform-IsConsistent (rejecting k) d h = reject-IsConsistent k d h

  -- Through any sequence of probes, approvals and rejections, whatever the client finds and also where
  -- one raises, a consistent manager stays consistent: the registry stays loaded, and no candidate is
  -- pending under an id that is approved or rejected.
  pub perform_all-IsConsistent :
      (os : List Operation) (d : DiscoveryManager)
      → IsConsistent d
      → IsConsistent (perform_all os d)
  unfolding perform_all
  perform_all-IsConsistent [] d h = h
  perform_all-IsConsistent (o ∷ os) d h =
      perform_all-IsConsistent os (perform o d) (perform-IsConsistent o d h)

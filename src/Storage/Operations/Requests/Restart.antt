-- ===== src/Storage/Operations/Requests/Restart.antt =====
-- About a restart after a sequence of requests.
use bitaxe_fleet.Prelude.{◌≡◌, refl, false, List, [], ◌∷◌, All}
use bitaxe_fleet.Python.Library.{Library}
use bitaxe_fleet.Axeos.Errors.{ok}
use bitaxe_fleet.Axeos.Models.{MinerId}
use bitaxe_fleet.Storage.State.{MinerRegistry, contains_id}
use bitaxe_fleet.Storage.RoundTrip.{deserialize-serialize}
use bitaxe_fleet.Storage.Operations.{load}
use bitaxe_fleet.Storage.Operations.Invariant.{IsDurable}
use bitaxe_fleet.Storage.Operations.Requests.{Request, perform, perform_all, IsValidRequest}
use bitaxe_fleet.Storage.Operations.Requests.Steps.{perform-IsDurable}

module _ (lib : Library) where
  -- The registry that a new process builds over the document of an old one.
  abbrev pub restart : MinerRegistry → MinerRegistry
  restart r = record {
    miners = [];
    rejected_candidates = [];
    incidents = [];
    loaded = false;
    document = r.document;
  }

  perform_all-IsDurable :
      (qs : List Request) (r : MinerRegistry)
      → All (IsValidRequest lib) qs
      → IsDurable lib r
      → IsDurable lib (perform_all lib qs r)
  unfolding perform_all
  perform_all-IsDurable [] r v h = h
  perform_all-IsDurable (q ∷ qs) r v h =
      perform_all-IsDurable qs (perform lib q r) v.1 (perform-IsDurable lib q r v.0 h)

  -- What `async_load` finds in the document of a durable registry.
  pub load-restart :
      (r : MinerRegistry)
      → IsDurable lib r
      → ((load lib (restart r)).0 ≡ ok tt)
        × ((load lib (restart r)).1.miners ≡ r.miners)
        × ((load lib (restart r)).1.incidents ≡ r.incidents)
        × ((x : MinerId)
            → contains_id x (load lib (restart r)).1.rejected_candidates
              ≡ contains_id x r.rejected_candidates)
  unfolding load
  load-restart r h =
      let (l, read, miners, incidents, ids, migrated) = deserialize-serialize lib r h.storable in
      rw (h.saved, read, migrated) (refl, miners, incidents, ids)

  -- From a durable registry and through any sequence of valid requests, those that raise included, a
  -- restart then loads without an error and finds the same miners, the same incidents and the same
  -- rejected ids.
  pub perform_all-restart :
      (qs : List Request) (r : MinerRegistry)
      → All (IsValidRequest lib) qs
      → IsDurable lib r
      → let before = perform_all lib qs r in
        let (result, after) = load lib (restart before) in
        (result ≡ ok tt)
        × (after.miners ≡ before.miners)
        × (after.incidents ≡ before.incidents)
        × ((x : MinerId)
            → contains_id x after.rejected_candidates ≡ contains_id x before.rejected_candidates)
  perform_all-restart qs r v h =
      load-restart (perform_all lib qs r) (perform_all-IsDurable qs r v h)

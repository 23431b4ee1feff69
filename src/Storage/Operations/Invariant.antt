-- ===== src/Storage/Operations/Invariant.antt =====
-- The invariant of a loaded registry, and the operations behind the load.
use bitaxe_fleet.Prelude.{
  ℕ, ◌≡◌, ◌≤◌, refl, ap, sym, ◌∙◌, Bool, true, false, Option, none, some, List, [], ◌∷◌, ◌++◌, ◌-◌,
  arith, if◌then◌else◌, length, All, All-append, All-drop, All-keep, length-drop, length-keep,
  Bool-cases, inl, inr,
}
use native.Mathlib.Nat.{le_trans}
use bitaxe_fleet.Python.Text.{text_eq}
use bitaxe_fleet.Python.Dict.{
  lookup, insert-Distinct, erase-Distinct, insert-AllEntries, erase-AllEntries, lookup-AllEntries,
}
use bitaxe_fleet.Python.Library.{Library}
use bitaxe_fleet.Axeos.Models.{MinerId, MinerSnapshot, EnrolledMiner, MinerIdentity}
use bitaxe_fleet.Axeos.Parser.MinerId.Canonical.{IsMac}
use bitaxe_fleet.Storage.State.{
  FleetIncident, IdSet, MinerRegistry, add_id, discard_id, max_stored_incidents, contains_id,
}
use bitaxe_fleet.Storage.Serialize.{serialize}
use bitaxe_fleet.Storage.Load.{last_items}
use bitaxe_fleet.Storage.Storable.{
  IsStorable, IsStorableEntry, IsStorableMiner, IsStorableEndpoint, IsStorableIdentity,
  IsStorableIncident,
}
use bitaxe_fleet.Storage.Operations.{
  enrolled_from_snapshot, save, put_miner, enroll_loaded, update_loaded, change_miner,
  reject_loaded, remove_loaded, append_incident, other_miner, update_known, change_found,
  remove_found, miner_eq,
}

-- The document holds what the registry holds.
pub record IsDurable (lib : Library) (r : MinerRegistry) : Type 0 where
  pub storable : IsStorable lib r
  pub saved : r.document ≡ some (serialize lib r)
  pub running : r.loaded ≡ true

module _ (lib : Library) where
  save-IsDurable :
      (r : MinerRegistry) → r.loaded ≡ true → IsStorable lib r → IsDurable lib (save lib r).1
  unfolding save serialize
  save-IsDurable r e h = record {
    storable = record {
      distinct = h.distinct;
      miners_storable = h.miners_storable;
      ids_storable = h.ids_storable;
      incidents_storable = h.incidents_storable;
      incidents_bounded = h.incidents_bounded;
    };
    saved = refl;
    running = e;
  }

  put_miner-IsStorable :
      (k : MinerId) (m : EnrolledMiner) (r : MinerRegistry)
      → IsStorable lib r
      → IsStorableEntry lib k m
      → IsStorable lib (put_miner k m r)
  put_miner-IsStorable k m r h e = record {
    distinct = insert-Distinct k m r.miners h.distinct;
    miners_storable = insert-AllEntries (IsStorableEntry lib) k m r.miners h.miners_storable e;
    ids_storable = h.ids_storable;
    incidents_storable = h.incidents_storable;
    incidents_bounded = h.incidents_bounded;
  }

discard_id-All : (P : MinerId → Type 0) (m : MinerId) (s : IdSet) → All P s → All P (discard_id m s)
unfolding discard_id
discard_id-All P m [] h = tt
discard_id-All P m (j ∷ s) h = step (text_eq m j) (discard_id-All P m s h.1)
  where
    step :
        (b : Bool)
        → All P (discard_id m s)
        → All P (if b then discard_id m s else j ∷ discard_id m s)
    step true ih = ih
    step false ih = (h.0, ih)

add_id-All : (P : MinerId → Type 0) (m : MinerId) (s : IdSet) → P m → All P s → All P (add_id m s)
unfolding add_id
add_id-All P m s p h = step (contains_id m s)
  where
    step : (b : Bool) → All P (if b then s else s ++ m ∷ [])
    step true = h
    step false = All-append P s (m ∷ []) h (p, tt)

-- What a snapshot must offer to be enrolled: a private endpoint and an identity that was parsed.
pub record IsStorableSnapshot (lib : Library) (s : MinerSnapshot) : Type 0 where
  pub endpoint_storable : IsStorableEndpoint s.endpoint
  pub identity_storable : IsStorableIdentity lib s.identity

module _ (lib : Library) (s : MinerSnapshot) (storable : IsStorableSnapshot lib s) where
  enrolled-IsStorableEntry :
      (r : MinerRegistry) (o : Option EnrolledMiner)
      → IsStorable lib r
      → lookup s.identity.miner_id r.miners ≡ o
      → IsStorableEntry lib s.identity.miner_id (enrolled_from_snapshot s o)
  unfolding enrolled_from_snapshot
  enrolled-IsStorableEntry r none h e = record {
    keyed = refl;
    miner_storable = record {
      endpoint_storable = storable.endpoint_storable;
      identity_storable = storable.identity_storable;
      name_storable = tt;
      profile_bounded = tt;
      policy_bounded = omega arith;
    };
  }
  enrolled-IsStorableEntry r (some m) h e =
      let old =
        lookup-AllEntries (IsStorableEntry lib) s.identity.miner_id m r.miners h.miners_storable
          e in
      record {
        keyed = refl;
        miner_storable = record {
          endpoint_storable = storable.endpoint_storable;
          identity_storable = storable.identity_storable;
          name_storable = old.miner_storable.name_storable;
          profile_bounded = old.miner_storable.profile_bounded;
          policy_bounded = old.miner_storable.policy_bounded;
        };
      }

  pub enroll_loaded-IsDurable :
      (r : MinerRegistry) → IsDurable lib r → IsDurable lib (enroll_loaded lib s r).1
  unfolding enroll_loaded
  enroll_loaded-IsDurable r h =
      let k = s.identity.miner_id in
      let e = enrolled-IsStorableEntry r (lookup k r.miners) h.storable refl in
      save-IsDurable lib _ h.running (record {
        distinct = insert-Distinct k _ r.miners h.storable.distinct;
        miners_storable =
            insert-AllEntries (IsStorableEntry lib) k _ r.miners h.storable.miners_storable e;
        ids_storable = discard_id-All IsMac k r.rejected_candidates h.storable.ids_storable;
        incidents_storable = h.storable.incidents_storable;
        incidents_bounded = h.storable.incidents_bounded;
      })

  pub update_loaded-IsDurable :
      (r : MinerRegistry) → IsDurable lib r → IsDurable lib (update_loaded lib s r).1
  unfolding update_loaded
  update_loaded-IsDurable r h = go (lookup s.identity.miner_id r.miners) refl
    where
      go :
          (o : Option EnrolledMiner)
          → lookup s.identity.miner_id r.miners ≡ o
          → IsDurable lib (update_known lib s o r).1
      go none e = h
      go (some m) e = elim (Bool-cases (miner_eq (enrolled_from_snapshot s (some m)) m)) [
        | inl same ↦ rw same h
        | inr new ↦ rw new (
            save-IsDurable lib _ h.running (
              put_miner-IsStorable lib s.identity.miner_id _ r h.storable
                (enrolled-IsStorableEntry r (some m) h.storable e)))
      ]

-- A change of an approved miner that leaves its identity and endpoint alone.
pub record IsSettingsChange (lib : Library) (f : EnrolledMiner → EnrolledMiner) : Type 0 where
  pub same_identity : (m : EnrolledMiner) → (f m).identity ≡ m.identity
  pub keeps_storable : (m : EnrolledMiner) → IsStorableMiner lib m → IsStorableMiner lib (f m)

module _ (lib : Library) (k : MinerId) where
  pub change_miner-IsDurable :
      (f : EnrolledMiner → EnrolledMiner) (r : MinerRegistry)
      → IsSettingsChange lib f
      → IsDurable lib r
      → IsDurable lib (change_miner lib k f r).1
  unfolding change_miner
  change_miner-IsDurable f r c h = go (lookup k r.miners) refl
    where
      go :
          (o : Option EnrolledMiner)
          → lookup k r.miners ≡ o
          → IsDurable lib (change_found lib k f o r).1
      go none e = h
      go (some m) e =
          let old =
            lookup-AllEntries (IsStorableEntry lib) k m r.miners h.storable.miners_storable e in
          save-IsDurable lib _ h.running (
            put_miner-IsStorable lib k (f m) r h.storable (record {
              keyed = old.keyed ∙ sym (ap (λ (i : MinerIdentity). i.miner_id) (c.same_identity m));
              miner_storable = c.keeps_storable m old.miner_storable;
            }))

  pub reject_loaded-IsDurable :
      (r : MinerRegistry) → IsMac k → IsDurable lib r → IsDurable lib (reject_loaded lib k r).1
  unfolding reject_loaded
  reject_loaded-IsDurable r mac h = save-IsDurable lib _ h.running (record {
    distinct = h.storable.distinct;
    miners_storable = h.storable.miners_storable;
    ids_storable = add_id-All IsMac k r.rejected_candidates mac h.storable.ids_storable;
    incidents_storable = h.storable.incidents_storable;
    incidents_bounded = h.storable.incidents_bounded;
  })

  pub remove_loaded-IsDurable :
      (r : MinerRegistry) → IsDurable lib r → IsDurable lib (remove_loaded lib k r).1
  unfolding remove_loaded
  remove_loaded-IsDurable r h = go (lookup k r.miners)
    where
      go : (o : Option EnrolledMiner) → IsDurable lib (remove_found lib k o r).1
      go none = h
      go (some m) = save-IsDurable lib _ h.running (record {
        distinct = erase-Distinct k r.miners h.storable.distinct;
        miners_storable =
            erase-AllEntries (IsStorableEntry lib) k r.miners h.storable.miners_storable;
        ids_storable = h.storable.ids_storable;
        incidents_storable = All-keep _ (other_miner k) r.incidents h.storable.incidents_storable;
        incidents_bounded =
            le_trans (length-keep (other_miner k) r.incidents) h.storable.incidents_bounded;
      })

pub length-last_items {ℓ} : {A : Type ℓ} (n : ℕ) (xs : List A) → length (last_items n xs) ≤ n
length-last_items n xs = omega (arith, length-drop (length xs - n) xs)

pub append_incident-IsDurable :
    (lib : Library) (i : FleetIncident) (r : MinerRegistry)
    → IsStorableIncident lib i
    → IsDurable lib r
    → IsDurable lib (append_incident lib i r).1
unfolding append_incident
append_incident-IsDurable lib i r new h = save-IsDurable lib _ h.running (record {
  distinct = h.storable.distinct;
  miners_storable = h.storable.miners_storable;
  ids_storable = h.storable.ids_storable;
  incidents_storable =
      All-drop _ _ (r.incidents ++ i ∷ [])
        (All-append _ r.incidents (i ∷ []) h.storable.incidents_storable (new, tt));
  incidents_bounded = length-last_items max_stored_incidents (r.incidents ++ i ∷ []);
})

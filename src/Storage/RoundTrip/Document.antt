-- ===== src/Storage/RoundTrip/Document.antt =====
-- About the whole document that `_serialize` writes and `_deserialize_state` reads.
use bitaxe_fleet.Prelude.{◌≡◌, refl, false, none, some, [], ◌∷◌, ◌++◌, arith}
use mathlib.Core.List.{append_assoc, append-nil}
use bitaxe_fleet.Python.Text.{Text, text_eq, text_eq_iff}
use bitaxe_fleet.Python.Value.{Value, list_of, string_entries}
use bitaxe_fleet.Python.Dict.{Dict, lookup, Distinct, AllEntries, insert_fresh, fresh_of_Distinct}
use bitaxe_fleet.Python.Library.{Library}
use bitaxe_fleet.Axeos.Errors.{ok}
use bitaxe_fleet.Axeos.Models.{EnrolledMiner}
use bitaxe_fleet.Axeos.Parser.Fields.{get}
use bitaxe_fleet.Storage.State.{MinerRegistry, contains_id}
use bitaxe_fleet.Storage.Serialize.{
  serialize, serialize_miner, serialize_miners, serialize_ids, sorted,
}
use bitaxe_fleet.Storage.Deserialize.{LoadedState, as_string_mapping}
use bitaxe_fleet.Storage.Load.{
  accept_miner, load_miners, deserialize_miners, deserialize_rejections, deserialize_incidents,
  load_rejections, load_document, deserialize_state, equals_number, is_bool,
}
use bitaxe_fleet.Storage.Storable.{IsStorable, IsStorableEntry}
use bitaxe_fleet.Storage.RoundTrip.Miners.{deserialize-serialize_miner}
use bitaxe_fleet.Storage.RoundTrip.Ids.{rejections_keep}
use bitaxe_fleet.Storage.RoundTrip.Incidents.{incidents_keep}

-- The entries of the stored miners.
abbrev stored : Dict EnrolledMiner → Dict Value
stored [] = []
stored ((k, m) ∷ d) = (k, serialize_miner m) ∷ stored d

string_entries-serialize_miners :
    (d : Dict EnrolledMiner) → string_entries (serialize_miners d) ≡ some (stored d)
unfolding string_entries serialize_miners
string_entries-serialize_miners [] = refl
string_entries-serialize_miners ((k, m) ∷ d) = rw (string_entries-serialize_miners d)

module _ (lib : Library) where
  accepted :
      (k : Text) (m : EnrolledMiner) (acc : Dict EnrolledMiner)
      → k ≡ m.identity.miner_id
      → lookup k acc ≡ none
      → accept_miner lib k (some m) acc ≡ acc ++ (k, m) ∷ []
  unfolding accept_miner
  accepted k m acc e fresh =
      ground (arith, text_eq_iff k m.identity.miner_id, insert_fresh k m acc fresh)

  load_miners_keeps :
      (d acc : Dict EnrolledMiner)
      → AllEntries (IsStorableEntry lib) d
      → Distinct (acc ++ d)
      → load_miners lib (stored d) false acc ≡ ok (acc ++ d)
  unfolding load_miners
  load_miners_keeps [] acc h distinct = rw append-nil
  load_miners_keeps ((k, m) ∷ d) acc h distinct = rw (
    deserialize-serialize_miner lib m h.0.miner_storable,
    accepted k m acc h.0.keyed (fresh_of_Distinct k m acc d distinct),
    load_miners_keeps d (acc ++ (k, m) ∷ []) h.1 (rw append_assoc distinct),
    append_assoc,
  )

  -- Reading the document that a storable registry writes gives its miners and its incidents back,
  -- in their order, and its rejected ids as a set; nothing asks for a migration.
  pub deserialize-serialize :
      (r : MinerRegistry)
      → IsStorable lib r
      → (l : LoadedState) × (deserialize_state lib (serialize lib r) ≡ ok l)
        × (l.miners ≡ r.miners)
        × (l.incidents ≡ r.incidents)
        × ((x : Text) → contains_id x l.rejected_candidates ≡ contains_id x r.rejected_candidates)
        × (l.needs_migration_save ≡ false)
  unfolding deserialize_state serialize as_string_mapping string_entries load_document get lookup
      text_eq equals_number is_bool deserialize_miners deserialize_rejections deserialize_incidents
  deserialize-serialize r h = (
    record {
      miners = r.miners;
      rejected_candidates =
          load_rejections (list_of (serialize_ids (sorted r.rejected_candidates))) [];
      incidents = r.incidents;
      needs_migration_save = false;
    },
    rw (
      string_entries-serialize_miners r.miners,
      load_miners_keeps r.miners [] h.miners_storable h.distinct,
      incidents_keep lib r.incidents h.incidents_storable h.incidents_bounded,
    ),
    refl,
    refl,
    (λ x. rejections_keep x r.rejected_candidates h.ids_storable),
    refl,
  )

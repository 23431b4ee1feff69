-- ===== src/Storage/Operations/Effects/Incidents.antt =====
-- What the recording of an incident and a new snapshot change.
use bitaxe_fleet.Prelude.{
  ℕ, ◌≡◌, ◌≤◌, refl, sym, Bool, true, false, Option, none, some, List, [], ◌∷◌, ◌++◌, arith,
  if◌then◌else◌, length, ◌-◌, length-drop,
}
use bitaxe_fleet.Python.Text.{Text}
use bitaxe_fleet.Python.Dict.{lookup, lookup-insert}
use bitaxe_fleet.Python.Library.{Library}
use bitaxe_fleet.Axeos.Errors.{Result, ok, err}
use mathlib.Core.Path.{subst}
use bitaxe_fleet.Axeos.Models.{MinerId, Time, MinerSnapshot, EnrolledMiner}
use bitaxe_fleet.Storage.State.{
  FleetIncident, MinerRegistry, max_stored_incidents, max_text_length, max_incident_detail_length,
  validate_text,
}
use bitaxe_fleet.Storage.Load.{last_items}
use bitaxe_fleet.Storage.Operations.{
  save, enrolled_from_snapshot, update_from_snapshot, update_loaded, append_incident, put_miner,
  record_incident, record_loaded, record_valid, update_known, replace_changed,
}
use bitaxe_fleet.Python.Value.{str}
use bitaxe_fleet.Axeos.Models.Equality.{miner_eq}
use bitaxe_fleet.Redaction.{redact_text}
use bitaxe_fleet.Storage.Operations.Effects.{OnlyChanges, load_then}

-- How the recording ends, by what the validators say of the cause, the outcome and the detail: the first
-- error is raised and nothing changes; else the incident is the last of the kept ones, which are the
-- newest hundred, and the miners and rejections stay.
abbrev pub Recorded :
    Text
    → Time
    → MinerId
    → Result Text
    → Result Text
    → Result Text
    → MinerRegistry
    → Result FleetIncident × MinerRegistry
    → Type 0
Recorded i t k (err e) outcome detail r (result, r') = (result ≡ err e) × (r' ≡ r)
Recorded i t k (ok cause) (err e) detail r (result, r') = (result ≡ err e) × (r' ≡ r)
Recorded i t k (ok cause) (ok outcome) (err e) r (result, r') = (result ≡ err e) × (r' ≡ r)
Recorded i t k (ok cause) (ok outcome) (ok detail) r (result, r') =
    let new : FleetIncident = record {
      incident_id = i;
      miner_id = k;
      occurred_at = t;
      cause = cause;
      outcome = outcome;
      detail = detail;
    } in
    (result ≡ ok new)
    × (r'.incidents ≡ last_items max_stored_incidents (r.incidents ++ new ∷ []))
    × (length r'.incidents ≤ max_stored_incidents)
    × (r'.miners ≡ r.miners)
    × (r'.rejected_candidates ≡ r.rejected_candidates)

length-last_items : (n : ℕ) (xs : List FleetIncident) → length (last_items n xs) ≤ n
length-last_items n xs = omega (arith, length-drop (length xs - n) xs)

module _ (lib : Library) where
  recorded :
      (i : Text) (t : Time) (k : MinerId) (c o d : Result Text) (r : MinerRegistry)
      → Recorded i t k c o d r (record_valid lib i t k c o d r)
  unfolding record_valid append_incident save
  recorded i t k (err e) o d r = (refl, refl)
  recorded i t k (ok c) (err e) d r = (refl, refl)
  recorded i t k (ok c) (ok o) (err e) r = (refl, refl)
  recorded i t k (ok c) (ok o) (ok d) r =
      let new : FleetIncident = record {
        incident_id = i;
        miner_id = k;
        occurred_at = t;
        cause = c;
        outcome = o;
        detail = d;
      } in
      (refl, refl, length-last_items max_stored_incidents (r.incidents ++ new ∷ []), refl, refl)

  -- In a loaded registry, an incident whose cause, outcome or redacted detail the validators refuse is
  -- refused with the first error and nothing changes; else it is stored as the last one, with the
  -- validated texts, at most the newest hundred are kept, and the miners and rejections stay.
  pub record_incident_lem :
      (i : Text) (t : Time) (k : MinerId) (cause outcome detail : Text) (r : MinerRegistry)
      → r.loaded ≡ true
      → Recorded i t k
          (validate_text lib (str cause) max_text_length)
          (validate_text lib (str outcome) max_text_length)
          (validate_text lib (str (redact_text lib detail)) max_incident_detail_length)
          r
          (record_incident lib i t k cause outcome detail r)
  unfolding record_incident record_loaded
  record_incident_lem i t k c o d r h =
      subst
        (λ x.
          Recorded i t k (validate_text lib (str c) max_text_length)
            (validate_text lib (str o) max_text_length)
            (validate_text lib (str (redact_text lib d)) max_incident_detail_length) r x)
        (sym (load_then lib (record_loaded lib i t k c o d) r h)) (recorded i t k _ _ _ r)

  -- How a new snapshot ends: of an unapproved miner nothing is kept; of an approved one the address and
  -- the identity are taken over, and where that changes nothing, nothing is written.
  abbrev pub Updated :
      MinerSnapshot
      → Option EnrolledMiner
      → MinerRegistry
      → Result (Option EnrolledMiner) × MinerRegistry
      → Type 0
  Updated s none r (result, r') = (result ≡ ok none) × (r' ≡ r)
  Updated s (some old) r (result, r') =
      let new = enrolled_from_snapshot s (some old) in
      (result ≡ ok (some new))
      × (if miner_eq new old then r' ≡ r else OnlyChanges s.identity.miner_id (some new) r r')
      × (r'.rejected_candidates ≡ r.rejected_candidates)
      × (r'.incidents ≡ r.incidents)

  updated :
      (s : MinerSnapshot) (o : Option EnrolledMiner) (r : MinerRegistry)
      → Updated s o r (update_known lib s o r)
  unfolding update_known replace_changed save
  updated s none r = (refl, refl)
  updated s (some old) r = by_change (miner_eq (enrolled_from_snapshot s (some old)) old)
    where
      new : EnrolledMiner
      new = enrolled_from_snapshot s (some old)

      by_change :
          (same : Bool)
          → let (result, r') =
              if◌then◌else◌ {A = Result (Option EnrolledMiner) × MinerRegistry} same
                (ok (some new), r)
                (ok (some new), (save lib (put_miner s.identity.miner_id new r)).1) in
            (result ≡ ok (some new))
            × (if same then r' ≡ r else OnlyChanges s.identity.miner_id (some new) r r')
            × (r'.rejected_candidates ≡ r.rejected_candidates)
            × (r'.incidents ≡ r.incidents)
      by_change true = (refl, refl, refl, refl)
      by_change false = (refl, (λ j. lookup-insert s.identity.miner_id j new r.miners), refl, refl)

  -- In a loaded registry the snapshot of a miner that is not approved changes nothing and gives none;
  -- that of an approved one gives the miner with the snapshot's address and identity and its own
  -- settings, stored where it differs from the old, and everything else stays.
  pub update_from_snapshot_lem :
      (s : MinerSnapshot) (r : MinerRegistry)
      → r.loaded ≡ true
      → Updated s (lookup s.identity.miner_id r.miners) r (update_from_snapshot lib s r)
  unfolding update_from_snapshot update_loaded
  update_from_snapshot_lem s r h =
      subst (λ x. Updated s (lookup s.identity.miner_id r.miners) r x)
        (sym (load_then lib (update_loaded lib s) r h))
        (updated s (lookup s.identity.miner_id r.miners) r)

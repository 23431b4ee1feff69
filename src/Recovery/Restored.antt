-- ===== src/Recovery/Restored.antt =====
-- What a new state takes over from the recorded incidents.
use bitaxe_fleet.Prelude.{
  All, ℕ, ◌≡◌, ◌≤◌, refl, ◌∙◌, Bool, none, some, List, [], ◌∷◌, map, arith, leb, keep, count,
  Bool-cases, inl, inr, ◌+◌, ◌*◌, ◌⊎◌, ◌||◌, suc, true, sym,
}
use mathlib.Core.Path.{subst}
use bitaxe_fleet.Python.Text.{Text, codes, text_eq, text_eq→eq, text_eq_refl}
use bitaxe_fleet.Axeos.Models.{MinerId, Time}
use bitaxe_fleet.Storage.State.{FleetIncident}
use bitaxe_fleet.Recovery.State.{
  counts_at, insert_sorted, sorted, last_of, is_prior_attempt, prior_attempts,
  restored_recovery_state,
}

-- Each time is at most every later one in the list.
abbrev pub IsSorted : List Time → Type 0
IsSorted [] = Unit
IsSorted (t ∷ ts) = All (λ u. t ≤ u) ts × IsSorted ts

count-insert_sorted :
    (p : Time → Bool) (t : Time) (ts : List Time) → count p (insert_sorted t ts) ≡ count p (t ∷ ts)
unfolding count insert_sorted
count-insert_sorted p t [] = refl
count-insert_sorted p t (u ∷ us) = ground (arith, count-insert_sorted p t us)

count-sorted : (p : Time → Bool) (ts : List Time) → count p (sorted ts) ≡ count p ts
unfolding count sorted
count-sorted p [] = refl
count-sorted p (t ∷ ts) = ground (arith, count-insert_sorted p t (sorted ts), count-sorted p ts)

insert_sorted-above :
    (l t : Time) (ts : List Time)
    → l ≤ t
    → All (λ u. l ≤ u) ts
    → All (λ u. l ≤ u) (insert_sorted t ts)
unfolding insert_sorted
insert_sorted-above l t [] h hs = (h, tt)
insert_sorted-above l t (u ∷ us) h hs = elim (Bool-cases (leb t u)) [
  | inl before ↦ rw before (h, hs)
  | inr after ↦ rw after (hs.0, insert_sorted-above l t us h hs.1)
]

All-weaken : (l t : Time) (ts : List Time) → l ≤ t → All (λ u. t ≤ u) ts → All (λ u. l ≤ u) ts
All-weaken l t [] h hs = tt
All-weaken l t (u ∷ us) h hs = (omega (arith, h, hs.0), All-weaken l t us h hs.1)

insert_sorted-IsSorted : (t : Time) (ts : List Time) → IsSorted ts → IsSorted (insert_sorted t ts)
unfolding insert_sorted
insert_sorted-IsSorted t [] h = (tt, tt)
insert_sorted-IsSorted t (u ∷ us) h = elim (Bool-cases (leb t u)) [
  | inl before ↦
      rw before
        ((ground (arith, before), All-weaken t u us (ground (arith, before)) h.0), (h.0, h.1))
  | inr after ↦
      rw after
        (insert_sorted-above u t us (ground (arith, after)) h.0, insert_sorted-IsSorted t us h.1)
]

sorted-IsSorted : (ts : List Time) → IsSorted (sorted ts)
unfolding sorted
sorted-IsSorted [] = tt
sorted-IsSorted (t ∷ ts) = insert_sorted-IsSorted t (sorted ts) (sorted-IsSorted ts)

-- No time of a list is after its last one.
below_last : (l : Time) (ts : List Time) → IsSorted ts → last_of ts ≡ some l → All (λ t. t ≤ l) ts
unfolding last_of
below_last l [] h e = tt
below_last l (t ∷ []) h e = (ground arith, tt)
below_last l (t ∷ u ∷ us) h e =
    let rest = below_last l (u ∷ us) h.1 e in (omega (arith, h.0.0, rest.0), rest)

-- An incident is kept for its time, and that time counts later as the incident does.
count-keep-map :
    (k : MinerId) (now later window : ℕ) (incidents : List FleetIncident)
    → now ≤ later
    → count (counts_at later window) (
        map (λ (i : FleetIncident). i.occurred_at) (keep (is_prior_attempt k now window) incidents))
      ≡ count (is_prior_attempt k later window) incidents
unfolding count keep is_prior_attempt
count-keep-map k now later window [] h = refl
count-keep-map k now later window (i ∷ incidents) h =
    ground (arith, h, count-keep-map k now later window incidents h)

-- An automatic restart of the miner that was asked for, whatever came of it, and that a rolling window of
-- so many seconds which ends at the time still reaches.
pub record IsRestartOf (k : MinerId) (at_time : Time) (window : ℕ) (i : FleetIncident)
    : Type 0 where
  pub of_miner : i.miner_id ≡ k
  pub automatic : i.cause ≡ codes "automatic_restart"
  pub asked :
      (i.outcome ≡ codes "requested")
      ⊎ ((i.outcome ≡ codes "uncertain") ⊎ (i.outcome ≡ codes "failed"))
  pub within : at_time ≤ i.occurred_at + window * 1000000

-- `n` of the incidents meet the description.
pub data HasCount (P : FleetIncident → Type 0) : List FleetIncident → ℕ → Type 0 where
  no_incident : HasCount P [] 0
  counted :
      {i : FleetIncident} {is : List FleetIncident} {n : ℕ}
      → P i
      → HasCount P is n
      → HasCount P (i ∷ is) (suc n)
  passed_over :
      {i : FleetIncident} {is : List FleetIncident} {n : ℕ}
      → (P i → ⊥)
      → HasCount P is n
      → HasCount P (i ∷ is) n

asked_for :
    (o : Text)
    → (text_eq o (codes "requested")
        || (text_eq o (codes "uncertain") || text_eq o (codes "failed")))
      ≡ true
    → (o ≡ codes "requested") ⊎ ((o ≡ codes "uncertain") ⊎ (o ≡ codes "failed"))
asked_for o h = elim (Bool-cases (text_eq o (codes "requested"))) [
  | inl e ↦ inl (text_eq→eq o _ e)
  | inr e ↦ elim (Bool-cases (text_eq o (codes "uncertain"))) [
    | inl f ↦ inr (inl (text_eq→eq o _ f))
    | inr f ↦ inr (inr (text_eq→eq o _ (ground arith)))
  ]
]

equal_texts : (s t : Text) → s ≡ t → text_eq s t ≡ true
equal_texts s t e = subst (λ (u : Text). text_eq s u ≡ true) e (text_eq_refl s)

prior-IsRestartOf :
    (k : MinerId) (at_time window : ℕ) (i : FleetIncident)
    → is_prior_attempt k at_time window i ≡ true
    → IsRestartOf k at_time window i
unfolding is_prior_attempt
prior-IsRestartOf k at_time window i h = record {
  of_miner = text_eq→eq i.miner_id k (ground arith);
  automatic = text_eq→eq i.cause (codes "automatic_restart") (ground arith);
  asked = asked_for i.outcome (ground arith);
  within = ground arith;
}

IsRestartOf-prior :
    (k : MinerId) (at_time window : ℕ) (i : FleetIncident)
    → IsRestartOf k at_time window i
    → is_prior_attempt k at_time window i ≡ true
unfolding is_prior_attempt
IsRestartOf-prior k at_time window i v = elim v.asked [
  | inl e ↦ ground (arith, same_miner, same_cause, equal_texts _ _ e, v.within)
  | inr more ↦ elim more [
    | inl e ↦ ground (arith, same_miner, same_cause, equal_texts _ _ e, v.within)
    | inr e ↦ ground (arith, same_miner, same_cause, equal_texts _ _ e, v.within)
  ]
]
  where
    same_miner : text_eq i.miner_id k ≡ true
    same_miner = equal_texts i.miner_id k v.of_miner

    same_cause : text_eq i.cause (codes "automatic_restart") ≡ true
    same_cause = equal_texts i.cause (codes "automatic_restart") v.automatic

count-HasCount :
    (P : FleetIncident → Type 0) (p : FleetIncident → Bool)
    → ((i : FleetIncident) → p i ≡ true → P i)
    → ((i : FleetIncident) → P i → p i ≡ true)
    → (is : List FleetIncident) → HasCount P is (count p is)
unfolding count
count-HasCount P p to from [] = no_incident
count-HasCount P p to from (i ∷ is) = elim (Bool-cases (p i)) [
  | inl e ↦
      rw e (
        subst (HasCount P (i ∷ is)) (omega arith)
          (counted (to i e) (count-HasCount P p to from is)))
  | inr e ↦ rw e (
      subst (HasCount P (i ∷ is)) (omega arith)
        (passed_over (λ h. ground (arith, from i h)) (count-HasCount P p to from is)))
]

-- A state restored at a time has, at that time and later, as many attempts that the rolling window of the
-- policy still reaches as there are recorded incidents of that miner which are automatic restarts, with
-- the outcome requested, uncertain or failed, in that window; it has no restart and no restore pending.
pub restored_recovery_state_lem :
    (k : MinerId) (now later window : ℕ) (incidents : List FleetIncident)
    → now ≤ later
    → let s = restored_recovery_state k now window incidents in
      HasCount
        (IsRestartOf k later window)
        incidents
        (count (λ (t : Time). leb later (t + window * 1000000)) s.attempts)
      × (s.restart_deadline ≡ none)
      × (s.pending_profile_restore_at ≡ none)
unfolding restored_recovery_state prior_attempts
restored_recovery_state_lem k now later window incidents h = (
  subst (HasCount (IsRestartOf k later window) incidents)
      (sym
        (count-sorted (counts_at later window) _ ∙ count-keep-map k now later window incidents h))
      (count-HasCount (IsRestartOf k later window) (is_prior_attempt k later window)
        (prior-IsRestartOf k later window) (IsRestartOf-prior k later window) incidents),
  refl,
  refl,
)

-- The attempts of a restored state are in the order of time, and the last action is the latest of them.
pub restored_recovery_state-IsSorted :
    (k : MinerId) (now window : ℕ) (incidents : List FleetIncident) (last : Time)
    → let s = restored_recovery_state k now window incidents in
      s.last_action_at ≡ some last → IsSorted s.attempts × All (λ t. t ≤ last) s.attempts
unfolding restored_recovery_state prior_attempts
restored_recovery_state-IsSorted k now window incidents last e =
    let in_order = sorted-IsSorted _ in (in_order, below_last last _ in_order e)

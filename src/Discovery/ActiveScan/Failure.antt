-- ===== src/Discovery/ActiveScan/Failure.antt =====
-- The workers of a scan in which no probe raises, and those that have ended.
use bitaxe_fleet.Prelude.{
  get_elem?, ℕ, zero, suc, ◌≡◌, refl, Bool, true, false, Option, some, List, [], ◌∷◌, arith,
  is_some, Option-cases, inl, inr,
}
use bitaxe_fleet.Discovery.ActiveScan.{
  Phase, idle, finished, failed, probing, Worker, ScanState, idle_workers, set, next_host, ask,
  after_probe, record_probe, resume_at, resume_worker, resume, any_running, any_failed, is_running,
  has_failed,
}

-- No probe raises.
abbrev pub IsTotal : (ℕ → Option Bool) → Type 0
IsTotal probe = (h : ℕ) → is_some (probe h) ≡ true

pub any_failed-set :
    (ws : List Worker) (i : ℕ) (v : Worker)
    → any_failed ws ≡ false
    → has_failed v.phase ≡ false
    → any_failed (set ws i v) ≡ false
unfolding any_failed
any_failed-set [] i v h k = refl
any_failed-set (w ∷ ws) zero v h k = ground arith
any_failed-set (w ∷ ws) (suc i) v h k = ground (arith, any_failed-set ws i v)

pub idle_well : (n : ℕ) → any_failed (idle_workers n) ≡ false
unfolding any_failed idle_workers
idle_well zero = refl
idle_well (suc n) = idle_well n

module _ (probe : ℕ → Option Bool) (answers : IsTotal probe) (hosts : List ℕ) where
  resume_at-well :
      (i : ℕ) (w : Worker) (p : Phase) (s : ScanState)
      → any_failed s.workers ≡ false
      → any_failed (resume_at probe hosts i w p s).workers ≡ false
  unfolding resume_at
  resume_at-well i w idle s h = elim (Option-cases (next_host hosts s.next_index)) [
    | inl e ↦ rw e (unfold ask in any_failed-set s.workers i _ h refl)
    | inr (a, e) ↦ rw e (unfold ask in any_failed-set s.workers i _ h refl)
  ]
  resume_at-well i w (probing a) s h =
      unfold record_probe after_probe in
      any_failed-set s.workers i (after_probe w (probe a)) h (ground (arith, answers a))
  resume_at-well i w finished s h = h
  resume_at-well i w failed s h = h

  pub resume-well :
      (i : ℕ) (s : ScanState)
      → any_failed s.workers ≡ false
      → any_failed (resume probe hosts i s).workers ≡ false
  unfolding resume resume_worker
  resume-well i s h = elim (Option-cases (get_elem? s.workers i)) [
    | inl e ↦ rw e h
    | inr (w, e) ↦ rw e (resume_at-well i w w.phase s h)
  ]

pub not_running_at :
    (ws : List Worker) (i : ℕ) (w : Worker)
    → any_running ws ≡ false
    → get_elem? ws i ≡ some w
    → is_running w.phase ≡ false
unfolding any_running
not_running_at [] i w h e = cc
not_running_at (x ∷ ws) zero w h e = ground arith
not_running_at (x ∷ ws) (suc i) w h e = ground (arith, not_running_at ws i w)

resume_at_ended :
    (probe : ℕ → Option Bool) (hosts : List ℕ) (i : ℕ) (w : Worker) (p : Phase) (s : ScanState)
    → is_running p ≡ false
    → resume_at probe hosts i w p s ≡ s
unfolding resume_at
resume_at_ended probe hosts i w idle s h = cc
resume_at_ended probe hosts i w (probing a) s h = cc
resume_at_ended probe hosts i w finished s h = refl
resume_at_ended probe hosts i w failed s h = refl

-- Nothing happens any more once no worker runs.
pub resume_ended :
    (probe : ℕ → Option Bool) (hosts : List ℕ) (i : ℕ) (s : ScanState)
    → any_running s.workers ≡ false
    → resume probe hosts i s ≡ s
unfolding resume resume_worker
resume_ended probe hosts i s h = elim (Option-cases (get_elem? s.workers i)) [
  | inl e ↦ rw e
  | inr (w, e) ↦ rw e (resume_at_ended probe hosts i w w.phase s (not_running_at s.workers i w h e))
]

-- ===== src/Discovery/ActiveScan/Progress.antt =====
-- The scan ends: what is left to do falls whenever a worker that runs is resumed.
use bitaxe_fleet.Prelude.{
  get_elem?, ℕ, zero, suc, ◌≡◌, ◌≤◌, ◌<◌, ◌+◌, ◌*◌, ◌-◌, refl, ◌⊎◌, Bool, true, false, ◌||◌, Option,
  none, some, List, [], ◌∷◌, arith, length, Bool-cases, Option-cases, inl, inr,
}
use bitaxe_fleet.Discovery.ActiveScan.{
  Phase, idle, finished, failed, probing, Worker, ScanState, scan_start, idle_workers, min,
  active_scan_concurrency, next_host, ask, after_probe, record_probe, resume_at, resume_worker,
  resume, any_running, is_running,
}
use bitaxe_fleet.Discovery.ActiveScan.Invariant.{
  total, total-set, next-some, get-lt-length, IsSound, scan_start-IsSound, resume-IsSound,
}

-- A host not yet taken costs three resumptions at most: one to take it, one to probe it, and one to
-- see that no other is left.
abbrev pub left_of : Worker → ℕ
left_of w = elim w.phase [ idle ↦ 1 | probing h ↦ 2 | _ ↦ 0 ]

pub work : List ℕ → ScanState → ℕ
work hosts s = 3 * (length hosts - s.next_index) + total left_of s.workers

-- Whether the worker at an index runs.
abbrev pub runs : Option Worker → Bool
runs none = false
runs (some w) = is_running w.phase

-- A run of the event loop, with its number of resumptions.
pub data Runs (probe : ℕ → Option Bool) (hosts : List ℕ) : ℕ → ScanState → Type 0 where
  start : Runs probe hosts 0 (scan_start hosts)
  next :
      {n : ℕ} {s : ScanState}
      → Runs probe hosts n s
      → (i : ℕ) → runs (get_elem? s.workers i) ≡ true
      → Runs probe hosts (suc n) (resume probe hosts i s)

or_right : (a b : Bool) → (a || b) ≡ true → a ≡ false → b ≡ true
or_right a b h e = ground arith

module _ (probe : ℕ → Option Bool) (hosts : List ℕ) where
  pub Runs-IsSound : {n : ℕ} {s : ScanState} → Runs probe hosts n s → IsSound probe hosts s
  Runs-IsSound start = scan_start-IsSound probe hosts
  Runs-IsSound (next r i _) = resume-IsSound probe hosts i _ (Runs-IsSound r)

  work-ask :
      (i : ℕ) (w : Worker) (s : ScanState) (o : Option ℕ)
      → next_host hosts s.next_index ≡ o
      → get_elem? s.workers i ≡ some w
      → w.phase ≡ idle
      → work hosts (ask i w o s) < work hosts s
  unfolding ask work
  work-ask i w s none e at here =
      ground (arith, total-set left_of s.workers i w (record w { phase = finished }) at)
  work-ask i w s (some h) e at here = ground (
    arith,
    get-lt-length hosts s.next_index h (next-some hosts s.next_index h e),
    total-set left_of s.workers i w (record w { phase = probing h }) at,
  )

  work-resume_at :
      (i : ℕ) (w : Worker) (p : Phase) (s : ScanState)
      → w.phase ≡ p
      → is_running p ≡ true
      → get_elem? s.workers i ≡ some w
      → work hosts (resume_at probe hosts i w p s) < work hosts s
  unfolding resume_at
  work-resume_at i w idle s here h at = work-ask i w s (next_host hosts s.next_index) refl at here
  work-resume_at i w (probing a) s here h at =
      unfold work record_probe after_probe in
      ground (arith, total-set left_of s.workers i w (after_probe w (probe a)) at)
  work-resume_at i w finished s here h at = cc
  work-resume_at i w failed s here h at = cc

  pub work-resume :
      (i : ℕ) (s : ScanState)
      → runs (get_elem? s.workers i) ≡ true
      → work hosts (resume probe hosts i s) < work hosts s
  unfolding resume resume_worker
  work-resume i s h = elim (Option-cases (get_elem? s.workers i)) [
    | inl e ↦ absurd (ground arith)
    | inr (w, e) ↦ rw e (work-resume_at i w w.phase s refl (ground arith) e)
  ]

  Runs-work :
      {n : ℕ} {s : ScanState}
      → Runs probe hosts n s
      → n + work hosts s ≤ work hosts (scan_start hosts)
  Runs-work start = omega arith
  Runs-work (next {s} r i h) = omega (arith, Runs-work r, work-resume i s h)

  some_running :
      (ws : List Worker) → any_running ws ≡ true → (i : ℕ) × (runs (get_elem? ws i) ≡ true)
  unfolding any_running
  some_running [] h = cc
  some_running (w ∷ ws) h = elim (Bool-cases (is_running w.phase)) [
    | inl here ↦ (0, here)
    | inr e ↦
        let (i, later) = some_running ws (or_right (is_running w.phase) (any_running ws) h e) in
        (suc i, later)
  ]

total_idle : (n : ℕ) → total left_of (idle_workers n) ≡ n
unfolding total idle_workers
total_idle zero = refl
total_idle (suc n) = omega (arith, total_idle n)

work-scan_start :
    (hosts : List ℕ) → work hosts (scan_start hosts) ≤ 3 * length hosts + active_scan_concurrency
unfolding work scan_start
work-scan_start hosts = ground (arith, total_idle (min active_scan_concurrency (length hosts)))

-- However the workers are interleaved, a scan takes at most three resumptions for each host and one
-- for each of 16 workers; and as long as a worker runs, the event loop can resume one.
pub scan_terminates :
    (probe : ℕ → Option Bool) (hosts : List ℕ) (n : ℕ) (s : ScanState)
    → Runs probe hosts n s
    → (n ≤ 3 * length hosts + 16)
      × ((any_running s.workers ≡ false)
          ⊎ ((i : ℕ) × Runs probe hosts (suc n) (resume probe hosts i s)))
scan_terminates probe hosts n s r = (
  omega (arith, Runs-work probe hosts r, work-scan_start hosts),
  elim (Bool-cases (any_running s.workers)) [
    | inl more ↦ let (i, h) = some_running probe hosts s.workers more in inr (i, next r i h)
    | inr done ↦ inl done
  ],
)

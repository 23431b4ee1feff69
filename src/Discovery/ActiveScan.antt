-- ===== src/Discovery/ActiveScan.antt =====
-- discovery/active_scan.py: `async_scan_network`, whose workers share an index of the hosts. A worker
-- is resumed at its two waits: when it asks for a host, and when its probe returns or raises. A
-- schedule says which worker the event loop resumes next; `probe h` is what the probe of host `h`
-- returns, `none` an exception.
pub mod Invariant
pub mod Progress
pub mod Outcome
pub mod Failure
use bitaxe_fleet.Prelude.{
  ℕ, zero, suc, ◌+◌, Bool, true, false, ◌||◌, Option, none, some, List, [], ◌∷◌, ◌++◌,
  if◌then◌else◌, leb, ◌==◌, length, get_elem?,
}

-- where a worker stands
pub data Phase : Type 0 where
  idle finished failed : Phase
  probing : ℕ → Phase

-- a worker with its `worker_discovered`
pub record Worker : Type 0 where
  pub phase : Phase
  pub discovered : ℕ

-- The shared variables, the workers, the hosts that were probed and the counts that were reported,
-- both in their order.
pub record ScanState : Type 0 where
  pub next_index : ℕ
  pub completed : ℕ
  pub workers : List Worker
  pub probed : List ℕ
  pub reports : List ℕ

-- `ACTIVE_SCAN_CONCURRENCY`
abbrev pub active_scan_concurrency : ℕ
active_scan_concurrency = 16

abbrev pub min : ℕ → ℕ → ℕ
min a b = if leb a b then a else b

unfoldable pub idle_workers : ℕ → List Worker
idle_workers zero = []
idle_workers (suc n) = record { phase = idle; discovered = 0 } ∷ idle_workers n

-- What the workers start from; no worker for no host.
unfoldable pub scan_start : List ℕ → ScanState
unfolding idle_workers
scan_start hosts = record {
  next_index = 0;
  completed = 0;
  workers = idle_workers (min active_scan_concurrency (length hosts));
  probed = [];
  reports = [];
}

module _ {ℓ} {A : Type ℓ} where
  abbrev pub set : List A → ℕ → A → List A
  set [] i v = []
  set (x ∷ xs) zero v = v ∷ xs
  set (x ∷ xs) (suc i) v = x ∷ set xs i v

-- `_next_host`, without the step of the index
unfoldable pub next_host : List ℕ → ℕ → Option ℕ
next_host hosts next_index = if next_index == length hosts then none else get_elem? hosts next_index

-- the loop's test, and the start of a probe
unfoldable pub ask : ℕ → Worker → Option ℕ → ScanState → ScanState
ask i w none s = record s { workers = set s.workers i (record w { phase = finished }) }
ask i w (some h) s = record s {
  next_index = s.next_index + 1;
  workers = set s.workers i (record w { phase = probing h });
  probed = s.probed ++ h ∷ [];
}

-- the worker after its probe
unfoldable pub after_probe : Worker → Option Bool → Worker
after_probe w none = record w { phase = failed }
after_probe w (some found) = record w {
  phase = idle;
  discovered = w.discovered + (if found then 1 else 0);
}

-- `finally`: the probe is counted and reported, whether it returned or raised.
unfoldable pub record_probe : ℕ → Worker → Option Bool → ScanState → ScanState
unfolding after_probe
record_probe i w answer s = record s {
  completed = s.completed + 1;
  workers = set s.workers i (after_probe w answer);
  reports = s.reports ++ (s.completed + 1) ∷ [];
}

module _ (probe : ℕ → Option Bool) (hosts : List ℕ) where
  unfoldable pub resume_at : ℕ → Worker → Phase → ScanState → ScanState
  resume_at i w idle s = ask i w (next_host hosts s.next_index) s
  resume_at i w (probing h) s = record_probe i w (probe h) s
  resume_at i w finished s = s
  resume_at i w failed s = s

  unfoldable pub resume_worker : ℕ → Option Worker → ScanState → ScanState
  resume_worker i none s = s
  resume_worker i (some w) s = resume_at i w w.phase s

  -- The event loop resumes one worker.
  unfoldable pub resume : ℕ → ScanState → ScanState
  unfolding resume_worker resume_at ask record_probe next_host
  resume i s = resume_worker i (get_elem? s.workers i) s

  unfoldable pub run : List ℕ → ScanState → ScanState
  unfolding resume
  run [] s = s
  run (i ∷ schedule) s = run schedule (resume i s)

abbrev pub is_running : Phase → Bool
is_running finished = false
is_running failed = false
is_running _ = true

abbrev pub has_failed : Phase → Bool
has_failed failed = true
has_failed _ = false

unfoldable pub any_running : List Worker → Bool
any_running [] = false
any_running (w ∷ ws) = is_running w.phase || any_running ws

unfoldable pub any_failed : List Worker → Bool
any_failed [] = false
any_failed (w ∷ ws) = has_failed w.phase || any_failed ws

unfoldable pub sum_discovered : List Worker → ℕ
sum_discovered [] = 0
sum_discovered (w ∷ ws) = w.discovered + sum_discovered ws

-- `gather` of the workers, once it is done: the sum of their results, or `none` for an exception.
unfoldable pub gathered : List Worker → Option ℕ
unfolding any_failed sum_discovered
gathered ws = if any_failed ws then none else some (sum_discovered ws)

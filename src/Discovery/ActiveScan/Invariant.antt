-- ===== src/Discovery/ActiveScan/Invariant.antt =====
-- What every schedule of the scan keeps: hosts are taken in order, and what the workers hold adds up.
use bitaxe_fleet.Prelude.{
  get_elem?, ℕ, zero, suc, ◌≡◌, ◌≤◌, ◌<◌, ◌+◌, refl, ap, sym, ◌∙◌, Bool, true, Option, none, some,
  List, [], ◌∷◌, ◌++◌, arith, length, take, Option-cases, inl, inr,
}
use bitaxe_fleet.Discovery.Network.{range}
use bitaxe_fleet.Discovery.ActiveScan.{
  Phase, idle, finished, failed, probing, Worker, ScanState, scan_start, idle_workers, min,
  active_scan_concurrency, set, next_host, ask, after_probe, record_probe, resume_at, resume_worker,
  resume, run,
}

-- The sum of a weight over the workers.
unfoldable pub total : (Worker → ℕ) → List Worker → ℕ
total weight [] = 0
total weight (w ∷ ws) = weight w + total weight ws

-- A worker that is replaced changes the sum by its own weight.
pub total-set :
    (weight : Worker → ℕ) (ws : List Worker) (i : ℕ) (w v : Worker)
    → get_elem? ws i ≡ some w
    → total weight (set ws i v) + weight w ≡ total weight ws + weight v
unfolding total
total-set weight [] i w v h = cc
total-set weight (x ∷ ws) zero w v h = ground arith
total-set weight (x ∷ ws) (suc i) w v h = omega (arith, total-set weight ws i w v h)

pub length-set : (ws : List Worker) (i : ℕ) (v : Worker) → length (set ws i v) ≡ length ws
length-set [] i v = refl
length-set (x ∷ ws) zero v = refl
length-set (x ∷ ws) (suc i) v = omega (arith, length-set ws i v)

-- the weights: a probe under way, its answer, what was found, the ended workers
abbrev pub in_flight : Worker → ℕ
in_flight w = elim w.phase [ probing h ↦ 1 | _ ↦ 0 ]

abbrev pub ended : Worker → ℕ
ended w = elim w.phase [ finished ↦ 1 | _ ↦ 0 ]

abbrev pub found_by : Option Bool → ℕ
found_by (some true) = 1
found_by _ = 0

abbrev pub held : (ℕ → Option Bool) → Worker → ℕ
held probe w = w.discovered + elim w.phase [ probing h ↦ found_by (probe h) | _ ↦ 0 ]

-- How many of the hosts answer as miners that are new: one probe after the other.
unfoldable pub sequential_scan : (ℕ → Option Bool) → List ℕ → ℕ
sequential_scan probe [] = 0
sequential_scan probe (h ∷ hs) = found_by (probe h) + sequential_scan probe hs

pub sequential_scan-append :
    (probe : ℕ → Option Bool) (hs ks : List ℕ)
    → sequential_scan probe (hs ++ ks) ≡ sequential_scan probe hs + sequential_scan probe ks
unfolding sequential_scan
sequential_scan-append probe [] ks = omega arith
sequential_scan-append probe (h ∷ hs) ks = omega (arith, sequential_scan-append probe hs ks)

-- One more host is taken.
pub take-suc :
    (hs : List ℕ) (n h : ℕ) → get_elem? hs n ≡ some h → take (n + 1) hs ≡ take n hs ++ h ∷ []
take-suc [] n h e = cc
take-suc (x ∷ hs) zero h e = ground arith
take-suc (x ∷ hs) (suc n) h e = ground (arith, take-suc hs n h e)

pub get-lt-length : (hs : List ℕ) (n h : ℕ) → get_elem? hs n ≡ some h → n < length hs
get-lt-length [] n h e = cc
get-lt-length (x ∷ hs) zero h e = omega arith
get-lt-length (x ∷ hs) (suc n) h e = omega (arith, get-lt-length hs n h e)

pub range-snoc : (n start : ℕ) → range start (n + 1) ≡ range start n ++ (start + n) ∷ []
unfolding range
range-snoc zero start = ground arith
range-snoc (suc n) start = ground (arith, range-snoc n (start + 1))

pub record IsSound (probe : ℕ → Option Bool) (hosts : List ℕ) (s : ScanState) : Type 0 where
  pub in_range : s.next_index ≤ length hosts
  pub in_order : s.probed ≡ take s.next_index hosts
  pub counted : s.completed + total in_flight s.workers ≡ s.next_index
  pub found : total (held probe) s.workers ≡ sequential_scan probe s.probed
  pub reported : s.reports ≡ range 1 s.completed
  pub exhausted : 0 < total ended s.workers → s.next_index ≡ length hosts
  pub crew : length s.workers ≡ min active_scan_concurrency (length hosts)

total_idle :
    (weight : Worker → ℕ) (n : ℕ)
    → weight (record { phase = idle; discovered = 0 }) ≡ 0
    → total weight (idle_workers n) ≡ 0
unfolding total idle_workers
total_idle weight zero h = refl
total_idle weight (suc n) h = omega (arith, h, total_idle weight n h)

length_idle : (n : ℕ) → length (idle_workers n) ≡ n
unfolding idle_workers
length_idle zero = refl
length_idle (suc n) = omega (arith, length_idle n)

pub scan_start-IsSound :
    (probe : ℕ → Option Bool) (hosts : List ℕ) → IsSound probe hosts (scan_start hosts)
unfolding scan_start sequential_scan range
scan_start-IsSound probe hosts = record {
  in_range = omega arith;
  in_order = refl;
  counted = omega (arith, total_idle in_flight n refl);
  found = total_idle (held probe) n refl;
  reported = refl;
  exhausted = λ h. absurd (omega (arith, total_idle ended n refl));
  crew = length_idle n;
}
  where
    n : ℕ
    n = min active_scan_concurrency (length hosts)

get-none : (hs : List ℕ) (n : ℕ) → get_elem? hs n ≡ none → length hs ≤ n
get-none [] n e = omega arith
get-none (x ∷ hs) zero e = cc
get-none (x ∷ hs) (suc n) e = omega (arith, get-none hs n e)

pub next-none : (hs : List ℕ) (n : ℕ) → next_host hs n ≡ none → n ≤ length hs → n ≡ length hs
unfolding next_host
next-none hs n e h = ground (arith, get-none hs n)

pub next-some : (hs : List ℕ) (n h : ℕ) → next_host hs n ≡ some h → get_elem? hs n ≡ some h
unfolding next_host
next-some hs n h e = ground arith

module _ (probe : ℕ → Option Bool) (hosts : List ℕ) (i : ℕ) (w : Worker) (s : ScanState)
    (at : get_elem? s.workers i ≡ some w) (v : IsSound probe hosts s) where
  ask-none-IsSound :
      w.phase ≡ idle → next_host hosts s.next_index ≡ none → IsSound probe hosts (ask i w none s)
  unfolding ask
  ask-none-IsSound here e = record {
    in_range = v.in_range;
    in_order = v.in_order;
    counted =
        ground
          (arith, v.counted, total-set in_flight s.workers i w (record w { phase = finished }) at);
    found =
        ground
          (arith, v.found, total-set (held probe) s.workers i w (record w { phase = finished }) at);
    reported = v.reported;
    exhausted = λ _. next-none hosts s.next_index e v.in_range;
    crew = length-set s.workers i _ ∙ v.crew;
  }

  ask-some-IsSound :
      (h : ℕ)
      → w.phase ≡ idle
      → get_elem? hosts s.next_index ≡ some h
      → IsSound probe hosts (ask i w (some h) s)
  unfolding ask sequential_scan
  ask-some-IsSound h here e = record {
    in_range = omega (arith, get-lt-length hosts s.next_index h e);
    in_order = ap (λ (l : List ℕ). l ++ h ∷ []) v.in_order ∙ sym (take-suc hosts s.next_index h e);
    counted =
        ground
          (arith, v.counted, total-set in_flight s.workers i w (record w { phase = probing h }) at);
    found = ground (
      arith,
      v.found,
      sequential_scan-append probe s.probed (h ∷ []),
      total-set (held probe) s.workers i w (record w { phase = probing h }) at,
    );
    reported = v.reported;
    exhausted = λ more. absurd (
        ground (
          arith,
          v.exhausted,
          get-lt-length hosts s.next_index h e,
          total-set ended s.workers i w (record w { phase = probing h }) at,
        ));
    crew = length-set s.workers i _ ∙ v.crew;
  }

  record_probe-IsSound :
      (h : ℕ) → w.phase ≡ probing h → IsSound probe hosts (record_probe i w (probe h) s)
  unfolding record_probe
  record_probe-IsSound h here = record {
    in_range = v.in_range;
    in_order = v.in_order;
    counted =
        ground (arith, v.counted, total-set in_flight s.workers i w (after_probe w (probe h)) at);
    found =
        ground (arith, v.found, total-set (held probe) s.workers i w (after_probe w (probe h)) at);
    reported = ground (arith, v.reported, range-snoc s.completed 1);
    exhausted = λ more.
        ground (arith, v.exhausted, total-set ended s.workers i w (after_probe w (probe h)) at);
    crew = length-set s.workers i _ ∙ v.crew;
  }

module _ (probe : ℕ → Option Bool) (hosts : List ℕ) where
  resume_at-IsSound :
      (i : ℕ) (w : Worker) (p : Phase) (s : ScanState)
      → w.phase ≡ p
      → get_elem? s.workers i ≡ some w
      → IsSound probe hosts s
      → IsSound probe hosts (resume_at probe hosts i w p s)
  unfolding resume_at
  resume_at-IsSound i w idle s here at v = elim (Option-cases (next_host hosts s.next_index)) [
    | inl e ↦ rw e (ask-none-IsSound probe hosts i w s at v here e)
    | inr (h, e) ↦
        rw e (ask-some-IsSound probe hosts i w s at v h here (next-some hosts s.next_index h e))
  ]
  resume_at-IsSound i w (probing h) s here at v = record_probe-IsSound probe hosts i w s at v h here
  resume_at-IsSound i w finished s here at v = v
  resume_at-IsSound i w failed s here at v = v

  -- Resuming any worker keeps the invariant.
  pub resume-IsSound :
      (i : ℕ) (s : ScanState) → IsSound probe hosts s → IsSound probe hosts (resume probe hosts i s)
  unfolding resume resume_worker
  resume-IsSound i s v = elim (Option-cases (get_elem? s.workers i)) [
    | inl e ↦ rw e v
    | inr (w, e) ↦ rw e (resume_at-IsSound i w w.phase s refl e v)
  ]

  pub run-IsSound :
      (schedule : List ℕ) (s : ScanState)
      → IsSound probe hosts s
      → IsSound probe hosts (run probe hosts schedule s)
  unfolding run
  run-IsSound [] s v = v
  run-IsSound (i ∷ schedule) s v =
      run-IsSound schedule (resume probe hosts i s) (resume-IsSound i s v)

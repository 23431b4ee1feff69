-- ===== src/Discovery/ActiveScan/Outcome.antt =====
-- What the scan returns, whichever way its workers are interleaved.
use bitaxe_fleet.Prelude.{
  ℕ, ◌≡◌, ◌≤◌, ◌+◌, refl, ap, sym, ◌∙◌, ◌⊎◌, Bool, true, false, ◌||◌, Option, none, some, List, [],
  ◌∷◌, arith, length, take, Bool-cases, inl, inr,
}
use bitaxe_fleet.Discovery.Network.{range}
use bitaxe_fleet.Discovery.ActiveScan.{
  Worker, ScanState, any_running, any_failed, sum_discovered, is_running, has_failed, gathered,
}
use bitaxe_fleet.Discovery.ActiveScan.Invariant.{
  total, in_flight, ended, held, sequential_scan, IsSound,
}
use bitaxe_fleet.Discovery.ActiveScan.Progress.{Runs, Runs-IsSound}

or_false : (a b : Bool) → (a || b) ≡ false → (a ≡ false) × (b ≡ false)
or_false a b h = ground arith

-- When every worker has ended and none has failed, all have seen the end of the hosts.
all_ended :
    (probe : ℕ → Option Bool) (ws : List Worker)
    → any_running ws ≡ false
    → any_failed ws ≡ false
    → (total in_flight ws ≡ 0)
      × (total ended ws ≡ length ws)
      × (total (held probe) ws ≡ sum_discovered ws)
unfolding any_running any_failed total sum_discovered
all_ended probe [] h k = (refl, refl, refl)
all_ended probe (w ∷ ws) h k =
    let (quiet, others) = or_false (is_running w.phase) (any_running ws) h in
    let (well, rest) = or_false (has_failed w.phase) (any_failed ws) k in
    ground (arith, all_ended probe ws others rest)

take_all : (hs : List ℕ) → take (length hs) hs ≡ hs
take_all [] = refl
take_all (h ∷ hs) = ap (λ (l : List ℕ). h ∷ l) (take_all hs)

-- a worker was there, or there is no host
reached-end :
    (probe : ℕ → Option Bool) (hosts : List ℕ) (s : ScanState)
    → IsSound probe hosts s
    → total ended s.workers ≡ length s.workers
    → s.next_index ≡ length hosts
reached-end probe hosts s v e = ground (arith, v.exhausted, v.crew, v.in_range)

pub scan_result :
    (probe : ℕ → Option Bool) (hosts : List ℕ) (s : ScanState)
    → IsSound probe hosts s
    → any_running s.workers ≡ false
    → any_failed s.workers ≡ false
    → (sum_discovered s.workers ≡ sequential_scan probe hosts)
      × (s.probed ≡ hosts)
      × (s.completed ≡ length hosts)
scan_result probe hosts s v quiet well =
    let (none_in_flight, all_seen, sums) = all_ended probe s.workers quiet well in
    let whole : s.next_index ≡ length hosts = reached-end probe hosts s v all_seen in
    let order : s.probed ≡ hosts =
      v.in_order ∙ ap (λ (k : ℕ). take k hosts) whole ∙ take_all hosts in
    (sym sums ∙ v.found ∙ ap (sequential_scan probe) order, order, omega (arith, v.counted))

in_flight-le-length : (ws : List Worker) → total in_flight ws ≤ length ws
unfolding total
in_flight-le-length [] = omega arith
in_flight-le-length (w ∷ ws) = ground (arith, in_flight-le-length ws)

module _ (probe : ℕ → Option Bool) (hosts : List ℕ) {n : ℕ} {s : ScanState}
    (r : Runs probe hosts n s) where
  -- Once no worker runs, either a probe has raised and so does the scan, or the scan returns what
  -- probing the hosts one after the other returns; then each host was probed exactly once, in order,
  -- and every count up to their number was reported once, in order.
  pub scan_refines_sequential :
      any_running s.workers ≡ false
      → ((any_failed s.workers ≡ true) × (gathered s.workers ≡ none))
        ⊎ ((gathered s.workers ≡ some (sequential_scan probe hosts))
            × (s.probed ≡ hosts)
            × (s.reports ≡ range 1 (length hosts)))
  unfolding gathered
  scan_refines_sequential quiet = elim (Bool-cases (any_failed s.workers)) [
    | inl e ↦ inl (e, rw e)
    | inr e ↦
        let v = Runs-IsSound probe hosts r in
        let (sums, order, counts) = scan_result probe hosts s v quiet e in
        inr (rw e (ap some sums), order, v.reported ∙ ap (range 1) counts)
  ]

  -- At any time the hosts that were probed are the first ones, each once and in order; at most 16
  -- probes are under way, those that were started and not yet counted; and the counts that were
  -- reported are those from 1 on, each once and in order.
  pub scan_bounded :
      (s.probed ≡ take s.next_index hosts)
      × (s.next_index ≤ length hosts)
      × (s.next_index ≤ s.completed + 16)
      × (s.completed ≤ s.next_index)
      × (s.reports ≡ range 1 s.completed)
  scan_bounded =
      let v = Runs-IsSound probe hosts r in
      (
        v.in_order,
        v.in_range,
        ground (arith, v.counted, v.crew, in_flight-le-length s.workers),
        omega (arith, v.counted),
        v.reported,
      )

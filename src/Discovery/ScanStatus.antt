-- ===== src/Discovery/ScanStatus.antt =====
-- What the status of a scan says while it runs and when it is done.
use bitaxe_fleet.Prelude.{
  ℕ, ◌≡◌, ◌≤◌, refl, ap, sym, ◌∙◌, Bool, true, false, not, Option, none, some, List, [], ◌∷◌, arith,
  length, ==_iff, Bool-cases, inl, inr,
}
use mathlib.Core.Path.{subst}
use bitaxe_fleet.Python.Value.{str}
use bitaxe_fleet.Axeos.Errors.{ok}
use bitaxe_fleet.Discovery.Network.{
  Ipv4Network, host_count, hosts, length-hosts, parse_private_network,
}
use bitaxe_fleet.Discovery.ActiveScan.{
  scan_start, min, active_scan_concurrency, any_running, any_failed, sum_discovered,
}
use bitaxe_fleet.Discovery.ActiveScan.Invariant.{
  IsSound, sequential_scan, scan_start-IsSound, resume-IsSound,
}
use bitaxe_fleet.Discovery.ActiveScan.Outcome.{scan_result}
use bitaxe_fleet.Discovery.ActiveScan.Failure.{IsTotal, idle_well, resume-well, resume_ended}
use bitaxe_fleet.Discovery.Scan.{
  DiscoveryScanStatus, ScanTask, ScanManager, ScanEvent, resumed, woken, report, wake,
  update_scan_progress, finish_scan, task_step, scan_step_at, scan_step, scan_steps, start_scan,
  scan_started, is_busy,
}
use bitaxe_fleet.Axeos.Models.{Time}
use bitaxe_fleet.Python.Text.{Text}

pub record IsReporting (probe : ℕ → Option Bool) (t : ScanTask) (st : DiscoveryScanStatus)
    : Type 0 where
  pub sound : IsSound probe t.addresses t.scan
  pub well : any_failed t.scan.workers ≡ false
  pub totals : st.total_hosts ≡ length t.addresses
  pub counts : st.completed_hosts ≡ t.scan.completed
  pub live : st.running ≡ not t.done
  pub quiet : t.done ≡ true → any_running t.scan.workers ≡ false
  pub sums : t.done ≡ true → st.discovered_candidates ≡ sum_discovered t.scan.workers
  pub no_error : st.error ≡ none

module _ (probe : ℕ → Option Bool) (answers : IsTotal probe) where
  resumed-IsReporting :
      (i : ℕ) (t : ScanTask) (st : DiscoveryScanStatus)
      → IsReporting probe t st
      → IsReporting probe (task_step probe (resumed i) t st).0 (task_step probe (resumed i) t st).1
  unfolding task_step report update_scan_progress
  resumed-IsReporting i t st v = elim (Bool-cases t.done) [
    | inl over ↦
        rw (resume_ended probe t.addresses i t.scan (v.quiet over))
          (rw ((==_iff t.scan.completed t.scan.completed).1 refl) v)
    | inr going ↦ record {
      sound = resume-IsSound probe t.addresses i t.scan v.sound;
      well = resume-well probe answers t.addresses i t.scan v.well;
      totals = ground (arith, v.totals);
      counts = ground (arith, v.counts);
      live = ground (arith, v.live);
      quiet = λ h. absurd (ground arith);
      sums = λ h. absurd (ground arith);
      no_error = ground (arith, v.no_error);
    }
  ]

  with_done :
      (t : ScanTask) (st : DiscoveryScanStatus) {b : Bool}
      → IsReporting probe t st
      → t.done ≡ b
      → IsReporting probe (record t { done = b }) st
  with_done t st v e = subst (λ x. IsReporting probe x st) (λ i. record t { done = e i }) v

  woken-IsReporting :
      (now : ℕ) (t : ScanTask) (st : DiscoveryScanStatus)
      → IsReporting probe t st
      → IsReporting probe (task_step probe (woken now) t st).0 (task_step probe (woken now) t st).1
  unfolding task_step wake finish_scan
  woken-IsReporting now t st v = elim (Bool-cases t.done) [
    | inl over ↦ rw over (with_done t st v over)
    | inr going ↦ elim (Bool-cases (any_running t.scan.workers)) [
      | inl more ↦ rw (going, v.well, more) (with_done t st v going)
      | inr ended ↦
          rw (going, v.well, ended)
            (record {
              sound = v.sound;
              well = v.well;
              totals = v.totals;
              counts = v.counts;
              live = refl;
              quiet = λ _. ended;
              sums = λ _. refl;
              no_error = refl;
            })
    ]
  ]

  step-IsReporting :
      (e : ScanEvent) (t : ScanTask) (st : DiscoveryScanStatus)
      → IsReporting probe t st
      → IsReporting probe (task_step probe e t st).0 (task_step probe e t st).1
  step-IsReporting (resumed i) t st v = resumed-IsReporting i t st v
  step-IsReporting (woken now) t st v = woken-IsReporting now t st v

  -- A task is there, and its status reports it.
  ReportsAll : Option ScanTask → DiscoveryScanStatus → List ℕ → Type 0
  ReportsAll none st addresses = ⊥
  ReportsAll (some t) st addresses = IsReporting probe t st × (t.addresses ≡ addresses)

  addresses_kept :
      (e : ScanEvent) (t : ScanTask) (st : DiscoveryScanStatus)
      → (task_step probe e t st).0.addresses ≡ t.addresses
  unfolding task_step wake
  addresses_kept (resumed i) t st = refl
  addresses_kept (woken now) t st = ground arith

  step_at-Reports :
      (e : ScanEvent) (o : Option ScanTask) (m : ScanManager) (addresses : List ℕ)
      → ReportsAll o m.scan_status addresses
      → ReportsAll
          (scan_step_at probe e o m).scan_task
          (scan_step_at probe e o m).scan_status
          addresses
  unfolding scan_step_at ReportsAll
  step_at-Reports e none m addresses v = absurd v
  step_at-Reports e (some t) m addresses v =
      (step-IsReporting e t m.scan_status v.0, addresses_kept e t m.scan_status ∙ v.1)

  steps-Reports :
      (es : List ScanEvent) (m : ScanManager) (addresses : List ℕ)
      → ReportsAll m.scan_task m.scan_status addresses
      → ReportsAll (scan_steps probe es m).scan_task (scan_steps probe es m).scan_status addresses
  unfolding scan_steps scan_step
  steps-Reports [] m addresses v = v
  steps-Reports (e ∷ es) m addresses v =
      steps-Reports es (scan_step probe e m) addresses (step_at-Reports e m.scan_task m addresses v)

  reported :
      (o : Option ScanTask) (st : DiscoveryScanStatus) (n : Ipv4Network)
      → ReportsAll o st (hosts n)
      → (st.error ≡ none)
        × (st.total_hosts ≡ host_count n)
        × (st.completed_hosts ≤ host_count n)
        × (st.running ≡ is_busy o)
        × (st.running ≡ false
            → (st.completed_hosts ≡ host_count n)
              × (st.discovered_candidates ≡ sequential_scan probe (hosts n)))
  unfolding ReportsAll
  reported none st n v = absurd v
  reported (some t) st n (v, same) =
      let size : length t.addresses ≡ host_count n = ap length same ∙ length-hosts n in
      (
        v.no_error,
        v.totals ∙ size,
        omega (arith, v.counts, v.sound.counted, v.sound.in_range, size),
        v.live,
        λ over.
            let done : t.done ≡ true = ground arith in
            let (sums, _, counts) =
              scan_result probe t.addresses t.scan v.sound (v.quiet done) v.well in
            (v.counts ∙ counts ∙ size, v.sums done ∙ sums ∙ ap (sequential_scan probe) same),
      )

module _ (probe : ℕ → Option Bool) (answers : IsTotal probe) where
  fresh-IsReporting :
      (n : Ipv4Network) (st : DiscoveryScanStatus)
      → st.total_hosts ≡ host_count n
      → st.completed_hosts ≡ 0
      → st.running ≡ true
      → st.error ≡ none
      → IsReporting probe
          (record { addresses = hosts n; scan = scan_start (hosts n); done = false })
          st
  unfolding scan_start
  fresh-IsReporting n st totals counts live no_error = record {
    sound = scan_start-IsSound probe (hosts n);
    well = idle_well (min active_scan_concurrency (length (hosts n)));
    totals = totals ∙ sym (length-hosts n);
    counts = counts;
    live = live;
    quiet = λ h. cc;
    sums = λ h. cc;
    no_error = no_error;
  }

  started-Reports :
      (now : Time) (text : Text) (n : Ipv4Network) (m : ScanManager)
      → m.closed ≡ false
      → is_busy m.scan_task ≡ false
      → parse_private_network (str text) ≡ ok n
      → ReportsAll probe answers
          (start_scan now text m).1.scan_task
          (start_scan now text m).1.scan_status
          (hosts n)
  unfolding start_scan scan_started ReportsAll
  started-Reports now text n m active free accepted =
      rw (active, free, accepted) (fresh-IsReporting n _ refl refl refl refl, refl)

-- If no probe raises, then after a scan is started, and whatever the event loop does next, the status
-- shows no error, the number of hosts of the network and at most as many probes, and it is running
-- exactly as long as the task is; once it is not running, every host was probed and the candidates
-- are those that one probe after the other finds.
pub scan_status_lem :
    (probe : ℕ → Option Bool) (now : Time) (text : Text) (n : Ipv4Network) (m : ScanManager)
    (es : List ScanEvent)
    → IsTotal probe
    → m.closed ≡ false
    → is_busy m.scan_task ≡ false
    → parse_private_network (str text) ≡ ok n
    → let after = scan_steps probe es (start_scan now text m).1 in
      let st = after.scan_status in
      (st.error ≡ none)
      × (st.total_hosts ≡ host_count n)
      × (st.completed_hosts ≤ host_count n)
      × (st.running ≡ is_busy after.scan_task)
      × (st.running ≡ false
          → (st.completed_hosts ≡ host_count n)
            × (st.discovered_candidates ≡ sequential_scan probe (hosts n)))
scan_status_lem probe now text n m es answers active free accepted =
    reported probe answers (scan_steps probe es begun).scan_task _ n (
      steps-Reports probe answers es begun (hosts n)
        (started-Reports probe answers now text n m active free accepted))
  where
    begun : ScanManager
    begun = (start_scan now text m).1

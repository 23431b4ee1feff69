-- ===== src/Discovery/Scan.antt =====
-- discovery/manager.py and discovery/models.py: the one active scan of a manager and its status. The
-- scan is a task whose workers the event loop resumes, and which is woken when they are done.
use bitaxe_fleet.Prelude.{
  ℕ, Bool, true, false, not, Option, none, some, List, [], ◌∷◌, ◌++◌, if◌then◌else◌, ◌==◌, length,
}
use bitaxe_fleet.Python.Text.{Text, codes}
use bitaxe_fleet.Python.Value.{str}
use bitaxe_fleet.Axeos.Errors.{Result, ok, err}
use bitaxe_fleet.Axeos.Models.{Time}
use bitaxe_fleet.Axeos.Parser.Address.{address_text, octet_text}
use bitaxe_fleet.Discovery.Manager.{
  not_running, scan_in_progress, passed, Outcome, failure, success,
}
use bitaxe_fleet.Discovery.Network.{Ipv4Network, parse_private_network, host_count, hosts}
use bitaxe_fleet.Discovery.ActiveScan.{
  ScanState, scan_start, resume, any_running, any_failed, sum_discovered,
}

pub record DiscoveryScanStatus : Type 0 where
  pub network : Option Text
  pub running : Bool
  pub total_hosts : ℕ
  pub completed_hosts : ℕ
  pub discovered_candidates : ℕ
  pub started_at : Option Time
  pub completed_at : Option Time
  pub error : Option Text

-- `DiscoveryScanStatus.idle`
abbrev pub idle_status : DiscoveryScanStatus
idle_status = record {
  network = none;
  running = false;
  total_hosts = 0;
  completed_hosts = 0;
  discovered_candidates = 0;
  started_at = none;
  completed_at = none;
  error = none;
}

-- The task of `_async_run_scan`; its workers may outlive it.
pub record ScanTask : Type 0 where
  pub addresses : List ℕ
  pub scan : ScanState
  pub done : Bool

-- What a `DiscoveryManager` keeps of its scan.
pub record ScanManager : Type 0 where
  pub closed : Bool
  pub scan_status : DiscoveryScanStatus
  pub scan_task : Option ScanTask

abbrev pub is_busy : Option ScanTask → Bool
is_busy none = false
is_busy (some t) = not t.done

-- `str(network)`
unfoldable pub network_text : Ipv4Network → Text
network_text n = address_text n.network_address ++ 47 ∷ octet_text n.prefixlen

unfoldable pub scan_started :
    Time → Result Ipv4Network → ScanManager → Outcome DiscoveryScanStatus × ScanManager
unfolding network_text
scan_started now (err e) m = (failure (passed e), m)
scan_started now (ok n) m =
    let status : DiscoveryScanStatus = record {
      network = some (network_text n);
      running = true;
      total_hosts = host_count n;
      completed_hosts = 0;
      discovered_candidates = 0;
      started_at = some now;
      completed_at = none;
      error = none;
    } in
    (
      success status,
      record m {
        scan_status = status;
        scan_task =
            some (record { addresses = hosts n; scan = scan_start (hosts n); done = false });
      },
    )

-- `async_start_scan`
unfoldable pub start_scan : Time → Text → ScanManager → Outcome DiscoveryScanStatus × ScanManager
unfolding scan_started
start_scan now network_text m =
    if m.closed
    then (failure not_running, m)
    else if is_busy m.scan_task
    then (failure scan_in_progress, m)
    else scan_started now (parse_private_network (str network_text)) m

-- `_async_update_scan_progress`
unfoldable pub update_scan_progress : ℕ → ℕ → DiscoveryScanStatus → DiscoveryScanStatus
update_scan_progress completed total status = record {
  network = status.network;
  running = true;
  total_hosts = total;
  completed_hosts = completed;
  discovered_candidates = status.discovered_candidates;
  started_at = status.started_at;
  completed_at = none;
  error = none;
}

abbrev pub or_else : Option ℕ → ℕ → ℕ
or_else none n = n
or_else (some m) n = m

-- `_finish_scan`
unfoldable pub finish_scan :
    Time → Option ℕ → Option Text → DiscoveryScanStatus → DiscoveryScanStatus
finish_scan now discovered error status = record {
  network = status.network;
  running = false;
  total_hosts = status.total_hosts;
  completed_hosts = status.completed_hosts;
  discovered_candidates = or_else discovered status.discovered_candidates;
  started_at = status.started_at;
  completed_at = some now;
  error = error;
}

pub data ScanEvent : Type 0 where
  resumed : ℕ → ScanEvent
  woken : Time → ScanEvent

-- the progress callback, which is called when a probe is counted
unfoldable pub report : ℕ → ℕ → ScanState → DiscoveryScanStatus → DiscoveryScanStatus
unfolding update_scan_progress
report before total s status =
    if s.completed == before then status else update_scan_progress s.completed total status

-- `gather` raises with the first worker that fails, and leaves the others to go on.
unfoldable pub wake : Time → ScanTask → DiscoveryScanStatus → ScanTask × DiscoveryScanStatus
unfolding finish_scan
wake now t status =
    if t.done
    then (t, status)
    else if any_failed t.scan.workers
    then (record t { done = true }, finish_scan now none (some (codes "scan failed")) status)
    else if any_running t.scan.workers
    then (t, status)
    else (
      record t { done = true },
      finish_scan now (some (sum_discovered t.scan.workers)) none status,
    )

module _ (probe : ℕ → Option Bool) where
  -- `_async_run_scan`, one event after the other
  unfoldable pub task_step :
      ScanEvent → ScanTask → DiscoveryScanStatus → ScanTask × DiscoveryScanStatus
  unfolding report wake
  task_step (resumed i) t status =
      let s = resume probe t.addresses i t.scan in
      (record t { scan = s }, report t.scan.completed (length t.addresses) s status)
  task_step (woken now) t status = wake now t status

  unfoldable pub scan_step_at : ScanEvent → Option ScanTask → ScanManager → ScanManager
  unfolding task_step
  scan_step_at e none m = m
  scan_step_at e (some t) m =
      let (t', status) = task_step e t m.scan_status in
      record m { scan_status = status; scan_task = some t' }

  unfoldable pub scan_step : ScanEvent → ScanManager → ScanManager
  unfolding scan_step_at
  scan_step e m = scan_step_at e m.scan_task m

  unfoldable pub scan_steps : List ScanEvent → ScanManager → ScanManager
  unfolding scan_step
  scan_steps [] m = m
  scan_steps (e ∷ es) m = scan_steps es (scan_step e m)

-- The part of `async_stop` about the scan: its task is cancelled and forgotten.
unfoldable pub stop_scan : ScanManager → ScanManager
stop_scan m = if m.closed then m else record m { closed = true; scan_task = none }

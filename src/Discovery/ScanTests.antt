-- ===== src/Discovery/ScanTests.antt =====
-- A scan of two hosts, and the theorems on scans and observations at it.
use bitaxe_fleet.Prelude.{
  ℕ, ◌≡◌, ◌≤◌, ◌+◌, ◌*◌, refl, ◌⊎◌, Bool, true, false, Option, none, some, List, [], ◌∷◌,
  if◌then◌else◌, ◌==◌, length, take, all, All,
}
use bitaxe_fleet.Python.Text.{Text, codes, strip, is_space}
use bitaxe_fleet.Python.Value.{str}
use bitaxe_fleet.Python.Tests.{plain_library}
use bitaxe_fleet.Axeos.Errors.{ok, err, timeout, invalid_endpoint}
use bitaxe_fleet.Axeos.Parser.Address.{is_private, ipv4_address}
use bitaxe_fleet.Axeos.Parser.SystemInfo.Tests.{bare_snapshot}
use bitaxe_fleet.Discovery.Tests.{manager}
use bitaxe_fleet.Discovery.Manager.{Client}
use bitaxe_fleet.Discovery.Network.{
  Ipv4Network, parse_private_network, host_count, hosts, range, parse_private_network_bounds,
  ipv4_network, any_subnet_of,
}
use bitaxe_fleet.Discovery.ActiveScan.{
  ScanState, scan_start, resume, any_running, any_failed, gathered,
}
use bitaxe_fleet.Discovery.ActiveScan.Invariant.{sequential_scan}
use bitaxe_fleet.Discovery.ActiveScan.Progress.{Runs, start, next, scan_terminates}
use bitaxe_fleet.Discovery.ActiveScan.Outcome.{scan_refines_sequential, scan_bounded}
use bitaxe_fleet.Discovery.Scan.{
  ScanManager, idle_status, ScanEvent, resumed, woken, start_scan, scan_steps, is_busy,
}
use bitaxe_fleet.Discovery.ScanStatus.{scan_status_lem}
use bitaxe_fleet.Discovery.Service.{
  ServiceInfo, added, AgreeOnPrivate, on_service_state_change, on_service_state_change_private,
}

abbrev pair_network : Ipv4Network
pair_network = record { network_address = 3232235776; prefixlen = 30 }

abbrev pair_hosts : List ℕ
pair_hosts = 3232235777 ∷ 3232235778 ∷ []

pair_parsed : parse_private_network (str (codes " 192.168.1.3/30 ")) ≡ ok pair_network
unfolding parse_private_network ipv4_network any_subnet_of host_count strip ipv4_address all
    is_space
pair_parsed = refl

netmask_parsed : parse_private_network (str (codes "192.168.1.0/255.255.255.252")) ≡ ok pair_network
unfolding parse_private_network ipv4_network any_subnet_of host_count strip ipv4_address all
    is_space
netmask_parsed = refl

hostmask_parsed : parse_private_network (str (codes "192.168.1.0/0.0.0.3")) ≡ ok pair_network
unfolding parse_private_network ipv4_network any_subnet_of host_count strip ipv4_address all
    is_space
hostmask_parsed = refl

-- 510 hosts are too many.
too_large : parse_private_network (str (codes "10.0.0.0/23")) ≡ err invalid_endpoint
unfolding parse_private_network ipv4_network any_subnet_of host_count strip ipv4_address all
    is_space
too_large = refl

public_network : parse_private_network (str (codes "8.8.8.0/24")) ≡ err invalid_endpoint
unfolding parse_private_network ipv4_network any_subnet_of host_count strip ipv4_address all
    is_space
public_network = refl

pair_hosts_lem : hosts pair_network ≡ pair_hosts
unfolding hosts
pair_hosts_lem = refl

parse_private_network_bounds_example :
    (length (hosts pair_network) ≡ host_count pair_network)
    × (length (hosts pair_network) ≤ 256)
    × All (λ a. is_private a ≡ true) (hosts pair_network)
parse_private_network_bounds_example =
    parse_private_network_bounds (str (codes " 192.168.1.3/30 ")) pair_network pair_parsed

-- The first host is a new miner, the other is silent.
abbrev one_answers : ℕ → Option Bool
one_answers h = some (h == 3232235777)

-- The second worker takes its host last, and is done first.
abbrev pair_run : (s : ScanState) × Runs one_answers pair_hosts 6 s
unfolding resume scan_start
pair_run =
    (_, next (next (next (next (next (next start 0 refl) 1 refl) 1 refl) 0 refl) 1 refl) 0 refl)

pair_ended : any_running pair_run.0.workers ≡ false
unfolding any_running resume scan_start
pair_ended = refl

scan_terminates_example :
    (6 ≤ 3 * length pair_hosts + 16)
    × ((any_running pair_run.0.workers ≡ false)
        ⊎ ((i : ℕ) × Runs one_answers pair_hosts 7 (resume one_answers pair_hosts i pair_run.0)))
scan_terminates_example = scan_terminates one_answers pair_hosts 6 pair_run.0 pair_run.1

scan_refines_sequential_example :
    ((any_failed pair_run.0.workers ≡ true) × (gathered pair_run.0.workers ≡ none))
    ⊎ ((gathered pair_run.0.workers ≡ some (sequential_scan one_answers pair_hosts))
        × (pair_run.0.probed ≡ pair_hosts)
        × (pair_run.0.reports ≡ range 1 (length pair_hosts)))
scan_refines_sequential_example =
    scan_refines_sequential one_answers pair_hosts pair_run.1 pair_ended

scan_bounded_example :
    (pair_run.0.probed ≡ take pair_run.0.next_index pair_hosts)
    × (pair_run.0.next_index ≤ length pair_hosts)
    × (pair_run.0.next_index ≤ pair_run.0.completed + 16)
    × (pair_run.0.completed ≤ pair_run.0.next_index)
    × (pair_run.0.reports ≡ range 1 pair_run.0.completed)
scan_bounded_example = scan_bounded one_answers pair_hosts pair_run.1

abbrev scan_manager : ScanManager
scan_manager = record { closed = false; scan_status = idle_status; scan_task = none }

abbrev pair_text : Text
pair_text = codes " 192.168.1.3/30 "

abbrev pair_events : List ScanEvent
pair_events = resumed 0 ∷ resumed 1 ∷ resumed 1 ∷ resumed 0 ∷ resumed 1 ∷ resumed 0 ∷ woken 9 ∷ []

scan_status_lem_example :
    let after = scan_steps one_answers pair_events (start_scan 5 pair_text scan_manager).1 in
    let st = after.scan_status in
    (st.error ≡ none)
    × (st.total_hosts ≡ host_count pair_network)
    × (st.completed_hosts ≤ host_count pair_network)
    × (st.running ≡ is_busy after.scan_task)
    × (st.running ≡ false
        → (st.completed_hosts ≡ host_count pair_network)
          × (st.discovered_candidates ≡ sequential_scan one_answers (hosts pair_network)))
scan_status_lem_example =
    scan_status_lem one_answers 5 pair_text pair_network scan_manager pair_events (λ h. refl) refl
      refl pair_parsed

-- The first probe raises.
abbrev first_raises : ℕ → Option Bool
first_raises h = if h == 3232235777 then none else some true

abbrev failed_scan : ScanManager
unfolding scan_steps start_scan parse_private_network ipv4_network any_subnet_of host_count strip
    ipv4_address all is_space hosts scan_start resume any_failed any_running
failed_scan =
    scan_steps first_raises
      (resumed 0 ∷ resumed 1 ∷ resumed 0 ∷ woken 9 ∷ resumed 1 ∷ resumed 1 ∷ woken 10 ∷ [])
      (start_scan 5 pair_text scan_manager).1

-- The scan has failed and its task is done, and a worker that outlived it has set the status to
-- running for good.
failed_scan_runs :
    (is_busy failed_scan.scan_task ≡ false)
    × (failed_scan.scan_status.running ≡ true)
    × (failed_scan.scan_status.error ≡ none)
unfolding scan_steps start_scan parse_private_network ipv4_network any_subnet_of host_count strip
    ipv4_address all is_space hosts scan_start resume any_failed any_running
failed_scan_runs = (refl, refl, refl)

-- Both clients read a miner at a private host; elsewhere one of them finds nothing.
abbrev everywhere : Client
everywhere endpoint = ok bare_snapshot

abbrev private_only : Client
private_only endpoint = if is_private endpoint.host then ok bare_snapshot else err (timeout [])

agree : AgreeOnPrivate everywhere private_only
agree host h = rw h refl

abbrev hint : ServiceInfo
hint = record { port = 80; parsed_addresses = codes "8.8.8.8" ∷ codes "192.168.1.20" ∷ [] }

on_service_state_change_private_example :
    on_service_state_change plain_library everywhere added (some hint) manager
    ≡ on_service_state_change plain_library private_only added (some hint) manager
on_service_state_change_private_example =
    on_service_state_change_private plain_library everywhere private_only agree added (some hint)
      manager

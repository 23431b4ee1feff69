-- ===== src/Discovery/Service.antt =====
-- discovery/manager.py: an mDNS observation is a hint that is validated through the client of a
-- private endpoint.
use bitaxe_fleet.Prelude.{
  ℕ, ◌≡◌, refl, Bool, true, false, not, ◌||◌, Option, none, some, List, [], ◌∷◌, arith,
  if◌then◌else◌, ◌==◌,
}
use mathlib.Core.Path.{fun_ext}
use bitaxe_fleet.Python.Text.{Text, strip}
use bitaxe_fleet.Python.Value.{str}
use bitaxe_fleet.Python.Library.{Library}
use bitaxe_fleet.Axeos.Errors.{
  is_axeos_error, Result, ok, err, or_raise, >>=-eq-ok, invalid_endpoint,
}
use bitaxe_fleet.Axeos.Models.{default_http_port}
use bitaxe_fleet.Axeos.Parser.Address.{parse_private_ipv4, ipv4_address, is_private}
use bitaxe_fleet.Discovery.Manager.{
  mdns, DiscoveryManager, Client, Outcome, failure, success, passed, probe_endpoint,
}

-- `ServiceStateChange`
pub data ServiceStateChange : Type 0 where
  added removed updated : ServiceStateChange

-- The port and the `parsed_addresses` of an `AsyncServiceInfo` that was resolved.
pub record ServiceInfo : Type 0 where
  pub port : ℕ
  pub parsed_addresses : List Text

abbrev pub is_new : ServiceStateChange → Bool
is_new removed = false
is_new _ = true

-- An exception ends the loop.
unfoldable pub go_on :
    Outcome Bool
    → DiscoveryManager
    → (DiscoveryManager → Outcome (Unit {0}) × DiscoveryManager)
    → Outcome (Unit {0}) × DiscoveryManager
go_on (failure e) d rest = (failure e, d)
go_on (success _) d rest = rest d

module _ (lib : Library) (client : Client) where
  unfoldable pub probe_host : Result ℕ → DiscoveryManager → Outcome Bool × DiscoveryManager
  probe_host (err e) d = if is_axeos_error e then (success false, d) else (failure (passed e), d)
  probe_host (ok host) d =
      probe_endpoint lib client (record { host = host; port = default_http_port }) mdns d

  unfoldable pub probe_addresses :
      List Text → DiscoveryManager → Outcome (Unit {0}) × DiscoveryManager
  unfolding probe_host go_on
  probe_addresses [] d = (success tt, d)
  probe_addresses (a ∷ addresses) d =
      let (result, d') = probe_host (parse_private_ipv4 (str a)) d in
      go_on result d' (probe_addresses addresses)

  unfoldable pub probe_resolved :
      Option ServiceInfo → DiscoveryManager → Outcome (Unit {0}) × DiscoveryManager
  unfolding probe_addresses
  probe_resolved none d = (success tt, d)
  probe_resolved (some info) d =
      if not (info.port == default_http_port)
      then (success tt, d)
      else probe_addresses info.parsed_addresses d

  -- `_async_on_service_state_change` with the `_async_probe_service` that it schedules
  unfoldable pub on_service_state_change :
      ServiceStateChange
      → Option ServiceInfo
      → DiscoveryManager
      → Outcome (Unit {0}) × DiscoveryManager
  unfolding probe_resolved
  on_service_state_change change info d =
      if d.closed || not (is_new change) then (success tt, d) else probe_resolved info d

-- Two clients that say the same of every private host at the HTTP port.
abbrev pub AgreeOnPrivate : Client → Client → Type 0
AgreeOnPrivate c c' =
    (host : ℕ)
    → is_private host ≡ true
    → c (record { host = host; port = default_http_port })
      ≡ c' (record { host = host; port = default_http_port })

module _ (lib : Library) (c c' : Client) (agree : AgreeOnPrivate c c') where
  parsed_private :
      (a : Text) (host : ℕ) → parse_private_ipv4 (str a) ≡ ok host → is_private host ≡ true
  unfolding parse_private_ipv4
  parsed_private a host h =
      let (address, read, checked) =
        >>=-eq-ok (or_raise (ipv4_address (strip a)) invalid_endpoint) _ h in
      ground arith

  probe_host-agree :
      (r : Result ℕ) (d : DiscoveryManager)
      → ((host : ℕ) → r ≡ ok host → is_private host ≡ true)
      → probe_host lib c r d ≡ probe_host lib c' r d
  unfolding probe_host probe_endpoint
  probe_host-agree (err e) d p = refl
  probe_host-agree (ok host) d p = rw (agree host (p host refl)) refl

  probe_addresses-agree :
      (addresses : List Text) (d : DiscoveryManager)
      → probe_addresses lib c addresses d ≡ probe_addresses lib c' addresses d
  unfolding probe_addresses
  probe_addresses-agree [] d = refl
  probe_addresses-agree (a ∷ addresses) d =
      rw
        (
          probe_host-agree (parse_private_ipv4 (str a)) d (parsed_private a),
          fun_ext (probe_addresses-agree addresses),
        )
        refl

  -- An mDNS observation has the same effect through two clients that agree on the private addresses
  -- at the HTTP port: no other endpoint is read, whatever the observation names.
  pub on_service_state_change_private :
      (change : ServiceStateChange) (info : Option ServiceInfo) (d : DiscoveryManager)
      → on_service_state_change lib c change info d ≡ on_service_state_change lib c' change info d
  unfolding on_service_state_change probe_resolved
  on_service_state_change_private change none d = refl
  on_service_state_change_private change (some info) d =
      rw (probe_addresses-agree info.parsed_addresses d) refl

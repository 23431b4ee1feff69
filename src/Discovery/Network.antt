-- ===== src/Discovery/Network.antt =====
-- discovery/active_scan.py: `parse_private_network` and `_host_count`, over what `ipaddress.IPv4Network`
-- makes of a text and of its hosts.
use bitaxe_fleet.Prelude.{
  ℕ, zero, suc, ◌≡◌, ◌≤◌, ◌<◌, ◌+◌, ◌*◌, ◌-◌, ◌%◌, ◌^◌, refl, ap, Bool, true, false, not, ◌&&◌,
  ◌||◌, Option, none, some, List, [], ◌∷◌, arith, if◌then◌else◌, ltb, leb, ◌==◌, is_some, length,
  all, All, All-imp, ==_iff, Bool-cases, inl, inr,
}
use bitaxe_fleet.Python.Text.{Text, strip, is_empty}
use bitaxe_fleet.Python.Value.{Value, str}
use bitaxe_fleet.Axeos.Errors.{invalid_endpoint, Result, ok, err, ◌>>=◌, or_raise, >>=-eq-ok}
use bitaxe_fleet.Axeos.Parser.Address.{is_digit, split, decimal, ipv4_address, is_private}

-- `IPv4Network`: the number of its first address, with the host bits cleared, and its prefix.
pub record Ipv4Network : Type 0 where
  pub network_address : ℕ
  pub prefixlen : ℕ

unfoldable pub num_addresses : Ipv4Network → ℕ
num_addresses n = 2 ^ (32 - n.prefixlen)

-- the prefix, at most `p`, of which a number is the netmask
unfoldable pub prefix_of_netmask : ℕ → ℕ → Option ℕ
prefix_of_netmask zero m = if m == 0 then some 0 else none
prefix_of_netmask (suc p) m =
    let rest = prefix_of_netmask p m in
    if m + 2 ^ (32 - suc p) == 2 ^ 32 then some (suc p) else rest

-- a dotted netmask, or else a dotted host mask
unfoldable pub prefix_of_mask : Option ℕ → Option ℕ
prefix_of_mask none = none
prefix_of_mask (some m) =
    if is_some (prefix_of_netmask 32 m)
    then prefix_of_netmask 32 m
    else prefix_of_netmask 32 (2 ^ 32 - 1 - m)

-- A prefix in ASCII digits, of which `int` reads 4300 at most, or a mask.
unfoldable pub prefix_of_text : Text → Option ℕ
prefix_of_text s =
    if not (is_empty s) && all is_digit s && leb (length s) 4300 && leb (decimal 0 s) 32
    then some (decimal 0 s)
    else prefix_of_mask (ipv4_address s)

-- `strict=False` clears the host bits.
unfoldable pub network_of : Option ℕ → Option ℕ → Option Ipv4Network
network_of (some a) (some p) =
    some (record { network_address = a - a % 2 ^ (32 - p); prefixlen = p })
network_of _ _ = none

unfoldable pub network_of_parts : List Text → Option Ipv4Network
network_of_parts (a ∷ []) = network_of (ipv4_address a) (some 32)
network_of_parts (a ∷ p ∷ []) = network_of (ipv4_address a) (prefix_of_text p)
network_of_parts _ = none

-- `IPv4Network(text, strict=False)`: `none` is the ValueError.
unfoldable pub ipv4_network : Text → Option Ipv4Network
unfolding network_of_parts network_of prefix_of_text prefix_of_mask prefix_of_netmask
ipv4_network s = network_of_parts (split 47 s)

-- `network.subnet_of(other)`
unfoldable pub subnet_of : Ipv4Network → Ipv4Network → Bool
unfolding num_addresses
subnet_of n other =
    leb other.network_address n.network_address
    && leb (n.network_address + num_addresses n) (other.network_address + num_addresses other)

-- `_PRIVATE_NETWORKS`
abbrev pub private_networks : List Ipv4Network
private_networks =
    record { network_address = 10 * 2 ^ 24; prefixlen = 8 }
    ∷ record { network_address = 172 * 2 ^ 24 + 16 * 2 ^ 16; prefixlen = 12 }
    ∷ record { network_address = 192 * 2 ^ 24 + 168 * 2 ^ 16; prefixlen = 16 }
    ∷ []

unfoldable pub any_subnet_of : Ipv4Network → List Ipv4Network → Bool
unfolding subnet_of
any_subnet_of n [] = false
any_subnet_of n (other ∷ others) = subnet_of n other || any_subnet_of n others

-- `_host_count`, and `scan_host_count`
unfoldable pub host_count : Ipv4Network → ℕ
unfolding num_addresses
host_count n = if n.prefixlen == 32 then 1 else if n.prefixlen == 31 then 2 else num_addresses n - 2

-- `MAX_ACTIVE_SCAN_HOSTS`
abbrev pub max_active_scan_hosts : ℕ
max_active_scan_hosts = 256

unfoldable pub parse_private_network : Value → Result Ipv4Network
parse_private_network (str s) = or_raise (ipv4_network (strip s)) invalid_endpoint >>= λ network.
    if not (any_subnet_of network private_networks)
    then err invalid_endpoint
    else if ltb max_active_scan_hosts (host_count network)
    then err invalid_endpoint
    else ok network
parse_private_network _ = err invalid_endpoint

-- `range(start, start + n)`
unfoldable pub range : ℕ → ℕ → List ℕ
range start zero = []
range start (suc n) = start ∷ range (start + 1) n

-- `network.hosts()`
unfoldable pub hosts : Ipv4Network → List ℕ
unfolding range num_addresses
hosts n =
    if n.prefixlen == 32
    then n.network_address ∷ []
    else if n.prefixlen == 31
    then range n.network_address 2
    else range (n.network_address + 1) (num_addresses n - 2)

length-range : (n start : ℕ) → length (range start n) ≡ n
unfolding range
length-range zero start = refl
length-range (suc n) start = omega (arith, length-range n (start + 1))

All-range :
    {P : ℕ → Type 0} (n start : ℕ)
    → ((a : ℕ) → start ≤ a → a < start + n → P a)
    → All P (range start n)
unfolding range
All-range zero start h = tt
All-range (suc n) start h = (
  h start (omega arith) (omega arith),
  All-range n (start + 1) (λ a lo hi. h a (omega arith) (omega arith)),
)

-- The count that the code computes is the number of hosts that the scan will meet.
pub length-hosts : (n : Ipv4Network) → length (hosts n) ≡ host_count n
unfolding hosts host_count
length-hosts n = ground (
  arith,
  length-range 2 n.network_address,
  length-range (num_addresses n - 2) (n.network_address + 1),
)

-- Where a host of the network lies.
abbrev pub InNetwork : Ipv4Network → ℕ → Type 0
InNetwork n a = (n.network_address ≤ a) × (a < n.network_address + num_addresses n)

-- a network with the prefix 31 or 32
small-size : (n : Ipv4Network) (p : ℕ) → (n.prefixlen == p) ≡ true → num_addresses n ≡ 2 ^ (32 - p)
unfolding num_addresses
small-size n p h = ap (λ (q : ℕ). 2 ^ (32 - q)) ((==_iff n.prefixlen p).0 h)

pub hosts-InNetwork : (n : Ipv4Network) → All (InNetwork n) (hosts n)
unfolding hosts
hosts-InNetwork n = elim (Bool-cases (n.prefixlen == 32)) [
  | inl one ↦ rw one ((omega arith, omega (arith, small-size n 32 one)), tt)
  | inr more ↦ elim (Bool-cases (n.prefixlen == 31)) [
    | inl two ↦
        rw (more, two)
          (All-range {P = InNetwork n} 2 n.network_address
            (λ a lo hi. (lo, omega (arith, small-size n 31 two))))
    | inr many ↦
        rw (more, many)
          (All-range {P = InNetwork n} (num_addresses n - 2) (n.network_address + 1)
            (λ a lo hi. (omega arith, omega arith)))
  ]
]

-- What an accepted network went through.
abbrev IsAccepted : Ipv4Network → Type 0
IsAccepted n = (any_subnet_of n private_networks ≡ true) × (host_count n ≤ max_active_scan_hosts)

pub private_of_subnet :
    (n : Ipv4Network) (a : ℕ)
    → any_subnet_of n private_networks ≡ true
    → InNetwork n a
    → is_private a ≡ true
unfolding any_subnet_of is_private num_addresses
private_of_subnet n a h k = ground arith

parse_private_network-IsAccepted :
    (v : Value) (n : Ipv4Network) → parse_private_network v ≡ ok n → IsAccepted n
unfolding parse_private_network
parse_private_network-IsAccepted (str s) n h =
    let (network, read, checked) =
      >>=-eq-ok (or_raise (ipv4_network (strip s)) invalid_endpoint) _ h in
    ground arith
parse_private_network-IsAccepted _ n h = cc

-- A network that is accepted has at most 256 hosts, as many as it counts, and each is a private
-- address.
pub parse_private_network_bounds :
    (v : Value) (n : Ipv4Network)
    → parse_private_network v ≡ ok n
    → (length (hosts n) ≡ host_count n)
      × (length (hosts n) ≤ 256)
      × All (λ a. is_private a ≡ true) (hosts n)
parse_private_network_bounds v n h =
    let accepted = parse_private_network-IsAccepted v n h in
    (
      length-hosts n,
      omega (arith, length-hosts n, accepted.1),
      All-imp (λ a k. private_of_subnet n a accepted.0 k) (hosts n) (hosts-InNetwork n),
    )

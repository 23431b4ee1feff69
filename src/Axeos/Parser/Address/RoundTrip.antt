-- ===== src/Axeos/Parser/Address/RoundTrip.antt =====
-- About the addresses that `parse_private_ipv4` accepts, and their texts.
use bitaxe_fleet.Prelude.{
  ℕ, zero, suc, ◌+◌, ◌*◌, ◌/◌, ◌%◌, ◌^◌, ◌≤◌, ◌<◌, ◌≡◌, refl, ap, Bool, true, false, not, ◌&&◌, ◌⊎◌,
  Option, none, some, [], ◌∷◌, ◌++◌, arith, ◌==◌, if◌then◌else◌, all, All-append,
}
use bitaxe_fleet.Python.Text.{Text, strip, is_space, strip_black, IsBlack}
use bitaxe_fleet.Python.Value.{Value, str}
use bitaxe_fleet.Axeos.Errors.{ok, err, invalid_endpoint, ◌>>=◌, or_raise}
use bitaxe_fleet.Axeos.Parser.Address.{
  split, parse_octet, join_octets, four_octets, ipv4_address, is_private, parse_private_ipv4,
  octet_text, address_text,
}

-- Whether a test holds of every number under a bound.
passes : (ℕ → Bool) → ℕ → Bool
passes test zero = true
passes test (suc k) = passes test k && test k

passes_at :
    (test : ℕ → Bool) (bound : ℕ) {k : ℕ} → k < bound → passes test bound ≡ true → test k ≡ true
unfolding passes
passes_at test zero under passed = absurd (omega arith)
passes_at test (suc bound) {k} under passed = ground (arith, passes_at test bound {k = k})

is_octet : Option ℕ → ℕ → Bool
is_octet none n = false
is_octet (some m) n = m == n

octet_table : passes (λ n. is_octet (parse_octet (octet_text n)) n) 256 ≡ true
unfolding passes is_octet parse_octet octet_text all
octet_table = refl

parse_octet-octet_text : (n : ℕ) → n < 256 → parse_octet (octet_text n) ≡ some n
parse_octet-octet_text n h = from (parse_octet (octet_text n)) (passes_at _ 256 h octet_table)
  where
    from : (o : Option ℕ) → is_octet o n ≡ true → o ≡ some n
    from o e = unfold is_octet in ground arith

-- Digits: no dot and no space among them.
plain : ℕ → Bool
plain c = not (c == 46) && not (is_space c)

plain_table : passes (λ n. all plain (octet_text n)) 256 ≡ true
unfolding passes plain is_space octet_text all
plain_table = refl

split-append : (s t : Text) → all plain s ≡ true → split 46 (s ++ (46 ∷ t)) ≡ s ∷ split 46 t
unfolding split all plain
split-append [] t h = refl
split-append (c ∷ s) t h = grind (arith, split-append s t)

split_last : (s : Text) → all plain s ≡ true → split 46 s ≡ s ∷ []
unfolding split all plain
split_last [] h = refl
split_last (c ∷ s) h = grind (arith, split_last s)

octet_text-plain : (n : ℕ) → n < 256 → all plain (octet_text n) ≡ true
octet_text-plain n h = passes_at _ 256 h plain_table

all-plain-IsBlack : (s : Text) → all plain s ≡ true → IsBlack s
unfolding all plain
all-plain-IsBlack [] h = tt
all-plain-IsBlack (c ∷ s) h = (ground arith, all-plain-IsBlack s (ground arith))

module _ (a : ℕ) (small : a < 2 ^ 32) where
  o1 : a / 2 ^ 24 < 256
  o1 = omega arith

  o2 : a / 2 ^ 16 % 256 < 256
  o2 = omega arith

  o3 : a / 2 ^ 8 % 256 < 256
  o3 = omega arith

  o4 : a % 256 < 256
  o4 = omega arith

  tail2 : Text
  tail2 = octet_text (a / 2 ^ 8 % 256) ++ (46 ∷ octet_text (a % 256))

  tail1 : Text
  tail1 = octet_text (a / 2 ^ 16 % 256) ++ (46 ∷ tail2)

  address_text_lem : address_text a ≡ octet_text (a / 2 ^ 24) ++ (46 ∷ tail1)
  unfolding address_text tail1 tail2
  address_text_lem = refl

  split-address_text :
      split 46 (address_text a)
      ≡ octet_text (a / 2 ^ 24)
        ∷ octet_text (a / 2 ^ 16 % 256)
        ∷ octet_text (a / 2 ^ 8 % 256)
        ∷ octet_text (a % 256)
        ∷ []
  split-address_text =
      rw (address_text_lem, split-append (octet_text (a / 2 ^ 24)) tail1 (octet_text-plain _ o1))
        (unfold tail1 in
          rw (split-append (octet_text (a / 2 ^ 16 % 256)) tail2 (octet_text-plain _ o2)) (
            unfold tail2 in
            rw (
              split-append (octet_text (a / 2 ^ 8 % 256)) (octet_text (a % 256))
                  (octet_text-plain _ o3),
              split_last (octet_text (a % 256)) (octet_text-plain _ o4),
            )))

  join_octets_lem :
      join_octets
        (some (a / 2 ^ 24))
        (some (a / 2 ^ 16 % 256))
        (some (a / 2 ^ 8 % 256))
        (some (a % 256))
      ≡ some a
  unfolding join_octets
  join_octets_lem = ap some (omega arith)

  ipv4_address_lem : ipv4_address (address_text a) ≡ four_octets (split 46 (address_text a))
  unfolding ipv4_address
  ipv4_address_lem = refl

  ipv4_address-address_text : ipv4_address (address_text a) ≡ some a
  unfolding four_octets
  ipv4_address-address_text =
      rw
        (
          ipv4_address_lem,
          split-address_text,
          parse_octet-octet_text _ o1,
          parse_octet-octet_text _ o2,
          parse_octet-octet_text _ o3,
          parse_octet-octet_text _ o4,
        )
        join_octets_lem

  dot_black : is_space 46 ≡ false
  unfolding is_space
  dot_black = refl

  address_text-IsBlack : IsBlack (address_text a)
  address_text-IsBlack = rw address_text_lem (
      All-append _ (octet_text (a / 2 ^ 24)) (46 ∷ tail1)
        (all-plain-IsBlack _ (octet_text-plain _ o1))
        (
          dot_black,
          unfold tail1 in
              All-append _ (octet_text (a / 2 ^ 16 % 256)) (46 ∷ tail2)
                (all-plain-IsBlack _ (octet_text-plain _ o2))
                (
                  dot_black,
                  unfold tail2 in
                      All-append _ (octet_text (a / 2 ^ 8 % 256)) (46 ∷ octet_text (a % 256))
                        (all-plain-IsBlack _ (octet_text-plain _ o3))
                        (dot_black, all-plain-IsBlack _ (octet_text-plain _ o4)),
                ),
        ))

-- The private ranges of RFC 1918, as intervals.
abbrev pub IsPrivate : ℕ → Type 0
IsPrivate a =
    ((10 * 2 ^ 24 ≤ a) × (a < 11 * 2 ^ 24))
    ⊎ ((172 * 2 ^ 24 + 16 * 2 ^ 16 ≤ a) × (a < 172 * 2 ^ 24 + 32 * 2 ^ 16))
    ⊎ ((192 * 2 ^ 24 + 168 * 2 ^ 16 ≤ a) × (a < 192 * 2 ^ 24 + 169 * 2 ^ 16))

pub is_private-IsPrivate : (a : ℕ) → is_private a ≡ true → IsPrivate a
unfolding is_private
is_private-IsPrivate a h = ground arith

pub IsPrivate-is_private : (a : ℕ) → IsPrivate a → is_private a ≡ true
unfolding is_private
IsPrivate-is_private a h = ground arith

private_small : (a : ℕ) → IsPrivate a → a < 2 ^ 32
private_small a h = omega arith

-- Whatever is passed, an accepted endpoint lies in a private range.
pub parse_private_ipv4-IsPrivate : (v : Value) {a : ℕ} → parse_private_ipv4 v ≡ ok a → IsPrivate a
unfolding parse_private_ipv4
parse_private_ipv4-IsPrivate (str s) h = go (ipv4_address (strip s)) h
  where
    go :
        (o : Option ℕ) {a : ℕ}
        → (or_raise o invalid_endpoint >>= λ address.
            if not (is_private address) then err invalid_endpoint else ok address)
          ≡ ok a
        → IsPrivate a
    go none e = cc
    go (some b) {a} e = is_private-IsPrivate a (ground arith)
parse_private_ipv4-IsPrivate _ h = cc

-- The text of a private address reads back as that address.
pub parse_private_ipv4-address_text :
    (a : ℕ) → IsPrivate a → parse_private_ipv4 (str (address_text a)) ≡ ok a
unfolding parse_private_ipv4
parse_private_ipv4-address_text a h = rw (
  strip_black (address_text a) (address_text-IsBlack a (private_small a h)),
  ipv4_address-address_text a (private_small a h),
  IsPrivate-is_private a h,
)

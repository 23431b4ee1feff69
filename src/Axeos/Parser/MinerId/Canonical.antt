-- ===== src/Axeos/Parser/MinerId/Canonical.antt =====
-- About the normal form of a miner id.
use bitaxe_fleet.Prelude.{
  ℕ, suc, ◌≡◌, refl, ap, sym, ◌∙◌, Bool, true, false, not, ◌&&◌, [], ◌∷◌, arith, ◌==◌, length, all,
  keep, All, and_left, and_right,
}
use bitaxe_fleet.Python.Text.{Text, lower, lower_char, without, is_space, strip_black, IsBlack}
use bitaxe_fleet.Python.Value.{Value, str, null}
use bitaxe_fleet.Axeos.Errors.{ok}
use bitaxe_fleet.Axeos.Parser.MinerId.{
  is_hex, hex_value, compact, is_mac_pattern, first_octet, join_pairs, is_reserved,
  normalize_compact, normalize_miner_id,
}

-- A hex digit that `lower` leaves alone.
abbrev pub IsLowerHex : ℕ → Type 0
IsLowerHex c = (is_hex c ≡ true) × (lower_char c ≡ c)

-- Twelve lower-case hex digits in pairs with colons between, neither multicast nor reserved.
pub record IsMac (m : Text) : Type 0 where
  pub digits : Text
  pub spelled : m ≡ join_pairs digits
  pub twelve : length digits ≡ 12
  pub hexadecimal : All IsLowerHex digits
  pub assigned : is_reserved digits ≡ false

lower_char-IsLowerHex : (c : ℕ) → is_hex c ≡ true → IsLowerHex (lower_char c)
unfolding is_hex lower_char
lower_char-IsLowerHex c h = ground arith

hex_value-lower_char : (c : ℕ) → is_hex c ≡ true → hex_value (lower_char c) ≡ hex_value c
unfolding is_hex lower_char hex_value
hex_value-lower_char c h = ground arith

lower-IsLowerHex : (s : Text) → all is_hex s ≡ true → All IsLowerHex (lower s)
unfolding all
lower-IsLowerHex [] h = tt
lower-IsLowerHex (c ∷ s) h =
    (lower_char-IsLowerHex c (and_left _ _ h), lower-IsLowerHex s (and_right _ _ h))

length-lower : (s : Text) → length (lower s) ≡ length s
length-lower [] = refl
length-lower (c ∷ s) = ap suc (length-lower s)

lower-lower_hex : (s : Text) → All IsLowerHex s → lower s ≡ s
lower-lower_hex [] h = refl
lower-lower_hex (c ∷ s) h = rw (h.0.1, lower-lower_hex s h.1)

lower-join_pairs : (s : Text) → lower (join_pairs s) ≡ join_pairs (lower s)
unfolding join_pairs lower_char
lower-join_pairs [] = refl
lower-join_pairs (a ∷ []) = refl
lower-join_pairs (a ∷ b ∷ []) = refl
lower-join_pairs (a ∷ b ∷ c ∷ s) =
    ap (λ (t : Text). lower_char a ∷ lower_char b ∷ 58 ∷ t) (lower-join_pairs (c ∷ s))

first_octet-lower : (s : Text) → all is_hex s ≡ true → first_octet (lower s) ≡ first_octet s
unfolding first_octet all
first_octet-lower [] h = refl
first_octet-lower (a ∷ []) h = refl
first_octet-lower (a ∷ b ∷ s) h = rw (
  hex_value-lower_char a (and_left _ _ h),
  hex_value-lower_char b (and_left _ _ (and_right (is_hex a) _ h)),
)

is_reserved-lower : (s : Text) → all is_hex s ≡ true → is_reserved (lower s) ≡ is_reserved s
unfolding is_reserved
is_reserved-lower s h = rw (first_octet-lower s h, lower-lower_hex (lower s) (lower-IsLowerHex s h))

-- The separators are removed, and nothing else.
plain : ℕ → Bool
plain c = not (c == 58) && not (c == 45) && not (is_space c)

hex_plain : (c : ℕ) → is_hex c ≡ true → plain c ≡ true
unfolding is_hex plain is_space
hex_plain c h = ground arith

keep_all : (c : ℕ) (s : Text) → all (λ d. not (d == c)) s ≡ true → without c s ≡ s
unfolding keep all
keep_all c [] h = refl
keep_all c (d ∷ s) h = ground (arith, keep_all c s)

without-join_pairs : (s : Text) → all plain s ≡ true → without 58 (join_pairs s) ≡ s
unfolding join_pairs all keep plain
without-join_pairs [] h = refl
without-join_pairs (a ∷ []) h = ground arith
without-join_pairs (a ∷ b ∷ []) h = ground arith
without-join_pairs (a ∷ b ∷ c ∷ s) h = ground (arith, without-join_pairs (c ∷ s))

without_dash : (s : Text) → all plain s ≡ true → without 45 s ≡ s
unfolding all keep plain
without_dash [] h = refl
without_dash (c ∷ s) h = ground (arith, without_dash s)

join_pairs-IsBlack : (s : Text) → all plain s ≡ true → IsBlack (join_pairs s)
unfolding join_pairs all plain
join_pairs-IsBlack [] h = tt
join_pairs-IsBlack (a ∷ []) h = ground arith
join_pairs-IsBlack (a ∷ b ∷ []) h = ground arith
join_pairs-IsBlack (a ∷ b ∷ c ∷ s) h = (
  ground arith,
  (ground arith, (unfold is_space in refl, join_pairs-IsBlack (c ∷ s) (ground arith))),
)

all-plain : (s : Text) → all is_hex s ≡ true → all plain s ≡ true
unfolding all
all-plain [] h = refl
all-plain (c ∷ s) h = ground (arith, hex_plain c, all-plain s)

compact-join_pairs : (s : Text) → all is_hex s ≡ true → compact (join_pairs s) ≡ s
unfolding compact
compact-join_pairs s h =
    rw
      (
        strip_black (join_pairs s) (join_pairs-IsBlack s (all-plain s h)),
        without-join_pairs s (all-plain s h),
      )
      (without_dash s (all-plain s h))

all-is_hex : (s : Text) → All IsLowerHex s → all is_hex s ≡ true
unfolding all
all-is_hex [] h = refl
all-is_hex (c ∷ s) h = ground (arith, all-is_hex s h.1)

normalize_str : (s : Text) → normalize_miner_id (str s) ≡ normalize_compact (compact s)
unfolding normalize_miner_id
normalize_str s = refl

normalize_compact-IsMac : (s : Text) {m : Text} → normalize_compact s ≡ ok m → IsMac m
unfolding normalize_compact is_mac_pattern
normalize_compact-IsMac s {m} h =
    let hex : all is_hex s ≡ true = ground arith in
    let size : length s ≡ 12 = ground arith in
    let free : is_reserved s ≡ false = ground arith in
    let e : m ≡ lower (join_pairs s) = ground arith in
    record {
      digits = lower s;
      spelled = e ∙ lower-join_pairs s;
      twelve = length-lower s ∙ size;
      hexadecimal = lower-IsLowerHex s hex;
      assigned = is_reserved-lower s hex ∙ free;
    }

-- Every id that the parser lets through is in the normal form.
pub normalize_miner_id-IsMac : (v : Value) {m : Text} → normalize_miner_id v ≡ ok m → IsMac m
normalize_miner_id-IsMac (str s) h = normalize_compact-IsMac (compact s) (sym (normalize_str s) ∙ h)
normalize_miner_id-IsMac null h = unfold normalize_miner_id in cc
normalize_miner_id-IsMac _ h = unfold normalize_miner_id in cc

normalize_compact_keeps :
    (s : Text)
    → length s ≡ 12
    → All IsLowerHex s
    → is_reserved s ≡ false
    → normalize_compact s ≡ ok (join_pairs s)
unfolding normalize_compact is_mac_pattern
normalize_compact_keeps s size hex free =
    rw (size, all-is_hex s hex, free, lower-join_pairs s, lower-lower_hex s hex)

-- An id in the normal form is left as it is.
pub normalize_miner_id_keeps : (m : Text) → IsMac m → normalize_miner_id (str m) ≡ ok m
normalize_miner_id_keeps m h =
    rw (h.spelled, normalize_str, compact-join_pairs h.digits (all-is_hex h.digits h.hexadecimal))
      (normalize_compact_keeps h.digits h.twelve h.hexadecimal h.assigned)

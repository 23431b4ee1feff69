-- ===== src/Axeos/Parser/MinerId.antt =====
-- axeos/parser.py: `normalize_miner_id`, the permanent identity of a miner.
pub mod Canonical
use bitaxe_fleet.Prelude.{
  ℕ, zero, suc, ◌+◌, ◌-◌, ◌*◌, ◌%◌, ◌≤◌, ◌<◌, ◌≡◌, refl, Bool, true, false, not, ◌&&◌, ◌||◌, List,
  [], ◌∷◌, ◌++◌, arith, ltb, leb, ◌==◌, if◌then◌else◌, length, all, keep,
}
use bitaxe_fleet.Python.Text.{Text, codes, text_eq, strip, lower, lower_char, without}
use bitaxe_fleet.Python.Value.{Value, null, boolean, int, float, str, array, dict, foreign}
use bitaxe_fleet.Axeos.Errors.{Error, invalid_response, Result, ok, err}

abbrev pub system_info_operation : Text
system_info_operation = codes "system info"

pub is_hex : ℕ → Bool
is_hex c = (leb 48 c && leb c 57) || (leb 97 c && leb c 102) || (leb 65 c && leb c 70)

-- `int(digit, 16)` of a hex digit
pub hex_value : ℕ → ℕ
hex_value c = if leb c 57 then c - 48 else if leb 97 c then c - 87 else c - 55

-- `value.strip().replace(":", "").replace("-", "")`
pub compact : Text → Text
compact s = without 45 (without 58 (strip s))

-- `re.fullmatch("[0-9a-fA-F]{12}")`
pub is_mac_pattern : Text → Bool
unfolding is_hex
is_mac_pattern s = length s == 12 && all is_hex s

-- `int(compact[:2], 16)`
pub first_octet : Text → ℕ
unfolding hex_value
first_octet (a ∷ b ∷ s) = 16 * hex_value a + hex_value b
first_octet s = 0

-- `":".join` of the pairs
pub join_pairs : Text → Text
join_pairs (a ∷ b ∷ c ∷ s) = a ∷ b ∷ 58 ∷ join_pairs (c ∷ s)
join_pairs s = s

-- `first_octet & 1 or compact.lower() in {...}`
pub is_reserved : Text → Bool
unfolding first_octet
is_reserved s =
    first_octet s % 2 == 1
    || text_eq (lower s) (codes "000000000000")
    || text_eq (lower s) (codes "ffffffffffff")

pub normalize_compact : Text → Result Text
normalize_compact s =
    if not (is_mac_pattern s)
    then err (invalid_response system_info_operation (codes "invalid MAC address"))
    else if is_reserved s
    then err (invalid_response system_info_operation (codes "invalid MAC address"))
    else ok (lower (join_pairs s))

unfoldable pub normalize_miner_id : Value → Result Text
unfolding compact normalize_compact is_mac_pattern is_reserved join_pairs
normalize_miner_id (str s) = normalize_compact (compact s)
normalize_miner_id _ = err (invalid_response system_info_operation (codes "missing MAC address"))

normalized_example :
    normalize_miner_id (str (codes " 02-AB-cd-00-11-22")) ≡ ok (codes "02:ab:cd:00:11:22")
unfolding normalize_miner_id strip keep all lower_char text_eq
normalized_example = refl

multicast_example :
    normalize_miner_id (str (codes "01:ab:cd:00:11:22"))
    ≡ err (invalid_response system_info_operation (codes "invalid MAC address"))
unfolding normalize_miner_id strip keep all lower_char text_eq
multicast_example = refl

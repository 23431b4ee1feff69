-- ===== src/Axeos/Parser/Address.antt =====
-- axeos/parser.py: `parse_private_ipv4`, over the text form of `ipaddress.IPv4Address`.
pub mod RoundTrip
use bitaxe_fleet.Prelude.{
  ℕ, zero, suc, ◌+◌, ◌-◌, ◌*◌, ◌/◌, ◌%◌, ◌^◌, ◌≤◌, ◌<◌, ◌≡◌, refl, Bool, true, false, not, ◌&&◌,
  ◌||◌, Option, none, some, List, [], ◌∷◌, ◌++◌, arith, ltb, leb, ◌==◌, if◌then◌else◌, length, all,
}
use bitaxe_fleet.Python.Text.{Text, codes, text_eq, strip, is_empty}
use bitaxe_fleet.Python.Value.{Value, null, boolean, int, float, str, array, dict, foreign}
use bitaxe_fleet.Axeos.Errors.{Error, invalid_endpoint, Result, ok, err, ◌>>=◌, or_raise}

unfoldable pub is_digit : ℕ → Bool
is_digit c = leb 48 c && leb c 57

-- `text.split(c)`
pub cons_head : ℕ → List Text → List Text
cons_head x [] = (x ∷ []) ∷ []
cons_head x (w ∷ ws) = (x ∷ w) ∷ ws

unfoldable pub split : ℕ → Text → List Text
unfolding cons_head
split c [] = [] ∷ []
split c (x ∷ s) = let rest = split c s in if x == c then [] ∷ rest else cons_head x rest

-- `int(text)` of ASCII digits
unfoldable pub decimal : ℕ → Text → ℕ
decimal n [] = n
decimal n (c ∷ s) = decimal (n * 10 + (c - 48)) s

pub leading_zero : Text → Bool
leading_zero [] = false
leading_zero (c ∷ s) = c == 48 && not (is_empty s)

-- One octet: ASCII digits, at most three, with no leading zero, at most 255.
pub parse_octet : Text → Option ℕ
unfolding is_digit leading_zero decimal
parse_octet s =
    if is_empty s
    then none
    else if not (all is_digit s)
    then none
    else if ltb 3 (length s)
    then none
    else if leading_zero s
    then none
    else if ltb 255 (decimal 0 s)
    then none
    else some (decimal 0 s)

pub join_octets : Option ℕ → Option ℕ → Option ℕ → Option ℕ → Option ℕ
join_octets (some a) (some b) (some c) (some d) = some (a * 2 ^ 24 + b * 2 ^ 16 + c * 2 ^ 8 + d)
join_octets _ _ _ _ = none

pub four_octets : List Text → Option ℕ
unfolding parse_octet join_octets
four_octets (a ∷ b ∷ c ∷ d ∷ []) =
    join_octets (parse_octet a) (parse_octet b) (parse_octet c) (parse_octet d)
four_octets _ = none

-- `IPv4Address(text)`: `none` is the ValueError.
unfoldable pub ipv4_address : Text → Option ℕ
unfolding split four_octets
ipv4_address s = four_octets (split 46 s)

-- `address in network` for 10.0.0.0/8, 172.16.0.0/12 and 192.168.0.0/16
unfoldable pub is_private : ℕ → Bool
is_private a = a / 2 ^ 24 == 10 || a / 2 ^ 20 == 172 * 2 ^ 4 + 1 || a / 2 ^ 16 == 192 * 2 ^ 8 + 168

unfoldable pub parse_private_ipv4 : Value → Result ℕ
parse_private_ipv4 (str s) = or_raise (ipv4_address (strip s)) invalid_endpoint >>= λ address.
    if not (is_private address) then err invalid_endpoint else ok address
parse_private_ipv4 _ = err invalid_endpoint

-- `str(octet)` and `str(address)`
pub octet_text : ℕ → Text
octet_text n =
    if ltb n 10
    then (48 + n) ∷ []
    else if ltb n 100
    then (48 + n / 10) ∷ (48 + n % 10) ∷ []
    else (48 + n / 100) ∷ (48 + n / 10 % 10) ∷ (48 + n % 10) ∷ []

unfoldable pub address_text : ℕ → Text
unfolding octet_text
address_text a =
    octet_text (a / 2 ^ 24)
    ++ (46
        ∷ (octet_text (a / 2 ^ 16 % 256)
            ++ (46 ∷ (octet_text (a / 2 ^ 8 % 256) ++ (46 ∷ octet_text (a % 256))))))

private_example : parse_private_ipv4 (str (codes " 192.168.1.20 ")) ≡ ok 3232235796
unfolding parse_private_ipv4 ipv4_address is_private strip all
private_example = refl

public_example : parse_private_ipv4 (str (codes "8.8.8.8")) ≡ err invalid_endpoint
unfolding parse_private_ipv4 ipv4_address is_private strip all
public_example = refl

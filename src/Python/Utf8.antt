-- ===== src/Python/Utf8.antt =====
-- `str.encode("utf-8")`, and `bytes.decode("utf-8")` in its strict form and with `errors="ignore"`.
-- A byte is its number.
use bitaxe_fleet.Prelude.{
  ℕ, zero, suc, ◌≡◌, ◌+◌, ◌*◌, ◌-◌, ◌/◌, ◌%◌, refl, Bool, ◌&&◌, Option, none, some, List, [], ◌∷◌,
  ◌++◌, if◌then◌else◌, ltb, leb, length,
}
use mathlib.Core.Option
use bitaxe_fleet.Python.Text.{Text, codes}

abbrev pub Bytes : Type 0
Bytes = List ℕ

-- A surrogate is the UnicodeEncodeError.
unfoldable pub encode_char : ℕ → Option Bytes
encode_char c =
    if ltb c 0x80
    then some (c ∷ [])
    else if ltb c 0x800
    then some ((0xc0 + c / 64) ∷ (0x80 + c % 64) ∷ [])
    else if leb 0xd800 c && leb c 0xdfff
    then none
    else if ltb c 0x10000
    then some ((0xe0 + c / 4096) ∷ (0x80 + c / 64 % 64) ∷ (0x80 + c % 64) ∷ [])
    else some
        ((0xf0 + c / 262144) ∷ (0x80 + c / 4096 % 64) ∷ (0x80 + c / 64 % 64) ∷ (0x80 + c % 64) ∷ [])

unfoldable pub append? : Option Bytes → Option Bytes → Option Bytes
append? (some a) (some b) = some (a ++ b)
append? _ _ = none

unfoldable pub encode : Text → Option Bytes
unfolding append?
encode [] = some []
encode (c ∷ s) = append? (encode_char c) (encode s)

-- One character and what is left, or an error and what is left after it.
pub data Next : Type 0 where
  char : ℕ → Bytes → Next
  invalid : Bytes → Next

abbrev pub within : ℕ → ℕ → ℕ → Bool
within low high b = leb low b && leb b high

-- the last byte of a character whose other bytes stand for `c`
unfoldable pub last_byte : ℕ → Bytes → Next
last_byte c [] = invalid []
last_byte c (b ∷ r) = if within 0x80 0xbf b then char (c * 64 + (b - 0x80)) r else invalid (b ∷ r)

unfoldable pub last_two : ℕ → ℕ → ℕ → Bytes → Next
unfolding last_byte
last_two low high c [] = invalid []
last_two low high c (b ∷ r) =
    if within low high b then last_byte (c * 64 + (b - 0x80)) r else invalid (b ∷ r)

unfoldable pub last_three : ℕ → ℕ → ℕ → Bytes → Next
unfolding last_two
last_three low high c [] = invalid []
last_three low high c (b ∷ r) =
    if within low high b then last_two 0x80 0xbf (c * 64 + (b - 0x80)) r else invalid (b ∷ r)

-- The second byte may be so low that the form is overlong, or so high that no character is meant.
unfoldable pub decode_next : ℕ → Bytes → Next
unfolding last_byte last_two last_three
decode_next b r =
    if ltb b 0x80
    then char b r
    else if within 0xc2 0xdf b
    then last_byte (b - 0xc0) r
    else if within 0xe0 0xef b
    then last_two (if leb b 0xe0 then 0xa0 else 0x80)
        (if leb 0xed b && leb b 0xed then 0x9f else 0xbf) (b - 0xe0) r
    else if within 0xf0 0xf4 b
    then last_three (if leb b 0xf0 then 0x90 else 0x80) (if leb 0xf4 b then 0x8f else 0xbf)
        (b - 0xf0) r
    else invalid r

-- Each round uses up a byte, so the number of bytes is fuel enough.
unfoldable pub decode_from : ℕ → Bytes → Option Text
decode_from fuel [] = some []
decode_from zero (b ∷ r) = some []
decode_from (suc fuel) (b ∷ r) = elim (decode_next b r) [
  | char c rest ↦ Option.map (λ s. c ∷ s) (decode_from fuel rest)
  | invalid rest ↦ none
]

unfoldable pub decode : Bytes → Option Text
unfolding decode_from decode_next
decode bytes = decode_from (length bytes) bytes

unfoldable pub decode_ignore_from : ℕ → Bytes → Text
decode_ignore_from fuel [] = []
decode_ignore_from zero (b ∷ r) = []
decode_ignore_from (suc fuel) (b ∷ r) = elim (decode_next b r) [
  | char c rest ↦ c ∷ decode_ignore_from fuel rest
  | invalid rest ↦ decode_ignore_from fuel rest
]

unfoldable pub decode_ignore : Bytes → Text
unfolding decode_ignore_from decode_next
decode_ignore bytes = decode_ignore_from (length bytes) bytes

encode_euro : encode (codes "5 €") ≡ some (0x35 ∷ 0x20 ∷ 0xe2 ∷ 0x82 ∷ 0xac ∷ [])
unfolding encode encode_char
encode_euro = refl

decode_euro : decode (0x35 ∷ 0xe2 ∷ 0x82 ∷ 0xac ∷ []) ≡ some (codes "5€")
unfolding decode
decode_euro = refl

-- A character that was cut is dropped.
ignore_cut : decode_ignore (0x82 ∷ 0xac ∷ 0x35 ∷ 0xe2 ∷ 0x82 ∷ []) ≡ codes "5"
unfolding decode_ignore
ignore_cut = refl

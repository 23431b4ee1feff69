-- ===== src/Python/Decimal.antt =====
-- `str` of an `int`.
use bitaxe_fleet.Prelude.{
  ℕ, zero, suc, ◌≡◌, ◌≤◌, ◌<◌, ◌+◌, refl, [], ◌∷◌, arith, if◌then◌else◌, ltb, length, ℤ, pos,
  negsuc, ◌/◌, ◌%◌,
}
use bitaxe_fleet.Python.Text.{Text, codes}

-- Each digit makes the number smaller, so the number is fuel enough.
unfoldable pub digits_from : ℕ → ℕ → Text → Text
digits_from zero n s = (48 + n % 10) ∷ s
digits_from (suc fuel) n s =
    let rest = digits_from fuel (n / 10) ((48 + n % 10) ∷ s) in
    if ltb n 10 then (48 + n) ∷ s else rest

unfoldable pub decimal_text : ℕ → Text
unfolding digits_from
decimal_text n = digits_from n n []

unfoldable pub int_text : ℤ → Text
unfolding decimal_text
int_text (pos n) = decimal_text n
int_text (negsuc n) = 45 ∷ decimal_text (suc n)

int_text_example : int_text (negsuc 1199) ≡ codes "-1200"
unfolding int_text
int_text_example = refl

-- At most `k + 1` digits.
abbrev pub Fits : ℕ → ℕ → Type 0
Fits zero n = n < 10
Fits (suc k) n = Fits k (n / 10)

length-digits_from :
    (k fuel n : ℕ) (s : Text) → Fits k n → length (digits_from fuel n s) ≤ suc k + length s
unfolding digits_from
length-digits_from k zero n s h = omega arith
length-digits_from zero (suc fuel) n s h = ground arith
length-digits_from (suc k) (suc fuel) n s h =
    ground (arith, length-digits_from k fuel (n / 10) ((48 + n % 10) ∷ s) h)

pub length-decimal_text : (k n : ℕ) → Fits k n → length (decimal_text n) ≤ suc k
unfolding decimal_text
length-decimal_text k n h = omega (arith, length-digits_from k n n [] h)

-- ===== src/Python/Float.antt =====
-- Python's `float`: IEEE 754 doubles. Every finite double is a whole multiple of 2 ^ -1074, so a
-- finite value is that multiple, and comparisons are exact. -0.0 and 0.0 compare equal and are one.
use bitaxe_fleet.Prelude.{
  ℕ, zero, suc, ◌+◌, ◌-◌, ◌*◌, ◌/◌, ◌%◌, ◌^◌, ◌<◌, ◌≡◌, refl, Bool, true, false, not, ◌&&◌, ◌||◌,
  Option, none, some, arith, ltb, ◌==◌, if◌then◌else◌, ℤ, pos, negsuc, pos_part, neg_part, ltb_ℤ,
  leb_ℤ, eq_ℤ,
}

-- How many multiples make 1.0.
unfoldable pub unit : ℕ
unit = 2 ^ 1074

pub unit_pos : 0 < unit
unfolding unit
unit_pos = omega arith

pub data Float : Type 0 where
  finite : ℤ → Float
  infinity : Bool → Float
  nan : Float

-- A whole number as a multiple of `unit`.
unfoldable pub scale : ℤ → ℤ
scale (pos n) = pos (n * unit)
scale (negsuc n) = negsuc (suc n * unit - 1)

-- A literal such as `10_000.0`, or `-1`.
unfoldable pub of_ℤ : ℤ → Float
unfolding scale
of_ℤ n = finite (scale n)

-- `math.isfinite`
abbrev pub is_finite : Float → Bool
is_finite (finite _) = true
is_finite _ = false

-- `infinity true` is the negative one; nan is in no order.
unfoldable pub float_lt : Float → Float → Bool
float_lt (finite a) (finite b) = ltb_ℤ a b
float_lt (finite _) (infinity negative) = not negative
float_lt (infinity negative) (finite _) = negative
float_lt (infinity a) (infinity b) = a && not b
float_lt _ _ = false

unfoldable pub float_le : Float → Float → Bool
float_le (finite a) (finite b) = leb_ℤ a b
float_le (finite _) (infinity negative) = not negative
float_le (infinity negative) (finite _) = negative
float_le (infinity a) (infinity b) = a || not b
float_le _ _ = false

unfoldable pub float_eq : Float → Float → Bool
float_eq (finite a) (finite b) = eq_ℤ a b
float_eq (infinity a) (infinity b) = if a then b else not b
float_eq _ _ = false

-- `number.is_integer()`
unfoldable pub is_integer : Float → Bool
is_integer (finite a) = (pos_part a + neg_part a) % unit == 0
is_integer _ = false

-- `int(number)`, which drops the fraction. It is called behind `is_integer` only.
unfoldable pub to_int : Float → ℤ
to_int (finite (pos n)) = pos (n / unit)
to_int (finite (negsuc n)) = if suc n / unit == 0 then pos 0 else negsuc (suc n / unit - 1)
to_int _ = pos 0

-- Rounds n / d to the nearest whole number, to the even one in the middle.
pub round_half_even : ℕ → ℕ → ℕ
round_half_even n d =
    if ltb (2 * (n % d)) d
    then n / d
    else if ltb d (2 * (n % d))
    then n / d + 1
    else if n / d % 2 == 0
    then n / d
    else n / d + 1

-- The distance between the doubles near a whole number: 1 below 2 ^ 53, and doubled from there on.
-- There are 971 doublings up to the largest double.
spacing_from : ℕ → ℕ → ℕ → ℕ
spacing_from zero n d = d
spacing_from (suc fuel) n d =
    let rest = spacing_from fuel n (2 * d) in if ltb n (2 ^ 53 * d) then d else rest

pub round_to_double : ℕ → ℕ
unfolding spacing_from round_half_even
round_to_double n = let d = spacing_from 971 n 1 in round_half_even n d * d

-- `float(n)` of an `int`: `none` is the OverflowError.
unfoldable pub float_of_int : ℤ → Option Float
unfolding round_to_double of_ℤ
float_of_int (pos n) =
    let m = round_to_double n in if ltb m (2 ^ 1024) then some (of_ℤ (pos m)) else none
float_of_int (negsuc n) =
    let m = round_to_double (suc n) in
    if ltb m (2 ^ 1024) then some (of_ℤ (negsuc (m - 1))) else none

float_of_int_small : float_of_int (pos 485) ≡ some (of_ℤ (pos 485))
unfolding float_of_int
float_of_int_small = refl

float_of_int_rounds : float_of_int (pos 9007199254740993) ≡ some (of_ℤ (pos 9007199254740992))
unfolding float_of_int
float_of_int_rounds = refl

float_of_int_overflows : float_of_int (pos (2 ^ 1024)) ≡ none
unfolding float_of_int
float_of_int_overflows = refl

pub float_of_int_finite : (n : ℤ) (x : Float) → float_of_int n ≡ some x → is_finite x ≡ true
unfolding float_of_int
float_of_int_finite (pos n) x h = ground arith
float_of_int_finite (negsuc n) x h = ground arith

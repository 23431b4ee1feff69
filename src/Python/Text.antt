-- ===== src/Python/Text.antt =====
-- Python's `str` as the list of its code points, with the methods that the integration calls.
use Prim.Native.Char.{code}
use Prim.Native.String.{String}
use bitaxe_fleet.Prelude.{
  ℕ, ◌+◌, ◌≡◌, refl, ◌↔◌, Bool, true, false, not, ◌&&◌, ◌||◌, List, [], ◌∷◌, map, arith, leb, ◌==◌,
  if◌then◌else◌, keep, All, Bool-cases, inl, inr,
}

abbrev pub Text : Type 0
Text = List ℕ

-- A literal of the source.
abbrev pub codes : String → Text
codes String.[] = []
codes (String.◌∷◌ c s) = code c ∷ codes s

unfoldable pub text_eq : Text → Text → Bool
text_eq [] [] = true
text_eq (a ∷ s) (b ∷ t) = a == b && text_eq s t
text_eq _ _ = false

-- The code points for which `str.isspace` holds, which are those that `strip` removes.
unfoldable pub is_space : ℕ → Bool
is_space c =
    (leb 9 c && leb c 13)
    || (leb 28 c && leb c 32)
    || c == 133
    || c == 160
    || c == 5760
    || (leb 8192 c && leb c 8202)
    || c == 8232
    || c == 8233
    || c == 8239
    || c == 8287
    || c == 12288

pub lstrip : Text → Text
lstrip [] = []
lstrip (c ∷ s) = let rest = lstrip s in if is_space c then rest else c ∷ s

abbrev pub is_empty : Text → Bool
is_empty [] = true
is_empty (_ ∷ _) = false

pub rstrip : Text → Text
rstrip [] = []
rstrip (c ∷ s) = let rest = rstrip s in if is_empty rest && is_space c then [] else c ∷ rest

unfoldable pub strip : Text → Text
unfolding lstrip rstrip is_space
strip s = rstrip (lstrip s)

-- `str.lower` on ASCII, which is all that it meets here: it is called behind a match of hex digits.
unfoldable pub lower_char : ℕ → ℕ
lower_char c = if leb 65 c && leb c 90 then c + 32 else c

abbrev pub lower : Text → Text
lower = map lower_char

-- `s.replace(c, "")` for a single character.
abbrev pub without : ℕ → Text → Text
without c = keep (λ d. not (d == c))

pub text_eq→eq : (s t : Text) → text_eq s t ≡ true → s ≡ t
unfolding text_eq
text_eq→eq [] [] h = refl
text_eq→eq (a ∷ s) (b ∷ t) h = ground (arith, text_eq→eq s t)
text_eq→eq [] (b ∷ t) h = cc
text_eq→eq (a ∷ s) [] h = cc

pub text_eq_refl : (s : Text) → text_eq s s ≡ true
unfolding text_eq
text_eq_refl [] = refl
text_eq_refl (a ∷ s) = ground (arith, text_eq_refl s)

pub text_eq_iff : (s t : Text) → (text_eq s t ≡ true) ↔ (s ≡ t)
text_eq_iff s t = (text_eq→eq s t, λ e. rw e (text_eq_refl t))

abbrev pub IsBlackHead : Text → Type 0
IsBlackHead [] = Unit
IsBlackHead (c ∷ s) = is_space c ≡ false

lstrip-IsBlackHead : (s : Text) → IsBlackHead (lstrip s)
unfolding lstrip
lstrip-IsBlackHead [] = tt
lstrip-IsBlackHead (c ∷ s) = elim (Bool-cases (is_space c)) [
  | inl blank ↦ rw blank (lstrip-IsBlackHead s)
  | inr black ↦ rw black black
]

rstrip-IsBlackHead : (s : Text) → IsBlackHead s → IsBlackHead (rstrip s)
unfolding rstrip
rstrip-IsBlackHead [] h = tt
rstrip-IsBlackHead (c ∷ s) h = step (rstrip s)
  where
    step : (r : Text) → IsBlackHead (if is_empty r && is_space c then [] else c ∷ r)
    step [] = rw h h
    step (_ ∷ _) = h

lstrip_black : (s : Text) → IsBlackHead s → lstrip s ≡ s
unfolding lstrip
lstrip_black [] h = refl
lstrip_black (c ∷ s) h = rw h

rstrip-rstrip : (s : Text) → rstrip (rstrip s) ≡ rstrip s
unfolding rstrip
rstrip-rstrip [] = refl
rstrip-rstrip (c ∷ s) = step (rstrip s) (rstrip-rstrip s)
  where
    step :
        (r : Text)
        → rstrip r ≡ r
        → rstrip (if is_empty r && is_space c then [] else c ∷ r)
          ≡ (if is_empty r && is_space c then [] else c ∷ r)
    step [] ih = ground arith
    step (d ∷ r) ih = rw ih

-- What is stripped has no space at its ends any more.
pub strip-strip : (s : Text) → strip (strip s) ≡ strip s
unfolding strip
strip-strip s =
    rw (lstrip_black (rstrip (lstrip s)) (rstrip-IsBlackHead (lstrip s) (lstrip-IsBlackHead s)))
      (rstrip-rstrip (lstrip s))

abbrev pub IsBlack : Text → Type 0
IsBlack = All (λ c. is_space c ≡ false)

rstrip_all_black : (s : Text) → IsBlack s → rstrip s ≡ s
unfolding rstrip
rstrip_all_black [] h = refl
rstrip_all_black (c ∷ s) h = rw (rstrip_all_black s h.1) (ground arith)

-- A text with no space in it is left alone.
pub strip_black : (s : Text) → IsBlack s → strip s ≡ s
unfolding strip
strip_black [] h = refl
strip_black (c ∷ s) h = rw (lstrip_black (c ∷ s) h.0) (rstrip_all_black (c ∷ s) h)

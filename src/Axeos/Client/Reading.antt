-- ===== src/Axeos/Client/Reading.antt =====
-- The loop that reads a body: its fuel is enough, and what it makes of a body that comes in parts.
use bitaxe_fleet.Prelude.{
  ℕ, zero, suc, ◌≡◌, ◌≤◌, ◌<◌, ◌+◌, ◌-◌, refl, ap, ◌∙◌, true, false, Option, none, some, List, [],
  ◌∷◌, ◌++◌, arith, ◌==◌, length, length-append, All, Bool-cases, inl, inr,
}
use mathlib.Core.List.{append-nil, append_assoc}
use bitaxe_fleet.Python.Text.{Text}
use bitaxe_fleet.Python.Utf8.{Bytes}
use bitaxe_fleet.Axeos.Client.Read.{
  done, bytes, Response, exceeds, is_drained, after_read, read_chunks, read_response_body,
}

not_zero : (n : ℕ) → 0 < n → (n == 0) ≡ false
not_zero n h = ground arith

-- `b"".join(chunks)`
abbrev pub join : List Bytes → Bytes
join [] = []
join (c ∷ cs) = c ++ join cs

-- From the `k`-th read on the peer sends these chunks, each when that many bytes are asked for.
abbrev pub Delivers : Response → ℕ → List Bytes → Type 0
Delivers r k [] = (n : ℕ) → r.read k n ≡ bytes []
Delivers r k (c ∷ cs) = ((n : ℕ) → length c ≤ n → r.read k n ≡ bytes c) × Delivers r (k + 1) cs

-- No chunk is empty.
abbrev pub IsFilled : Bytes → Type 0
IsFilled c = 0 < length c

-- What is left is empty once as much was received as was to come.
nothing_left :
    (n : ℕ) (o : Option ℕ) (s : Bytes) → o ≡ some (n + length s) → is_drained o n ≡ true → s ≡ []
nothing_left n o [] known e = refl
nothing_left n o (b ∷ s) known e = absurd (ground arith)

read_every_chunk :
    (cs : List Bytes) (fuel : ℕ) (r : Response) (k : ℕ) (body : Bytes) (received remaining : ℕ)
    → All IsFilled cs
    → Delivers r k cs
    → r.content_length ≡ some (received + length (join cs))
    → length (join cs) < remaining
    → remaining ≤ fuel
    → read_chunks fuel r k body received remaining ≡ done (body ++ join cs)
unfolding read_chunks after_read
read_every_chunk cs zero r k body received remaining filled sent known room fits =
    absurd (omega arith)
read_every_chunk [] (suc fuel) r k body received remaining filled sent known room fits =
    rw (not_zero remaining room, sent remaining, append-nil body) refl
read_every_chunk ([] ∷ cs) (suc fuel) r k body received remaining filled sent known room fits =
    absurd (omega (arith, filled.0))
read_every_chunk ((b ∷ c) ∷ cs) (suc fuel) r k body received remaining filled sent known room fits =
    rw
      (
        not_zero remaining (omega arith),
        sent.0 remaining (omega (arith, length-append (b ∷ c) (join cs))),
      )
      (elim (Bool-cases (is_drained r.content_length (received + length (b ∷ c)))) [
        | inl e ↦ rw e (
            ap (λ (l : Bytes). done (body ++ b ∷ l))
              (rw
                (
                  nothing_left (received + length (b ∷ c)) r.content_length (join cs)
                      (known ∙ ap some (omega (arith, length-append (b ∷ c) (join cs)))) e,
                  append-nil c,
                )
                refl))
        | inr e ↦ rw e (
            read_every_chunk cs fuel r (k + 1) (body ++ b ∷ c) (received + length (b ∷ c))
              (remaining - length (b ∷ c)) filled.1 sent.1
              (known ∙ ap some (omega (arith, length-append (b ∷ c) (join cs))))
              (omega (arith, length-append (b ∷ c) (join cs))) (omega arith)
            ∙ ap done (append_assoc body (b ∷ c) (join cs)))
      ])

drained : (o : Option ℕ) (n : ℕ) → o ≡ none → is_drained o n ≡ true
drained none n e = refl
drained (some m) n e = cc

read_first :
    (fuel : ℕ) (r : Response) (k : ℕ) (c : Bytes) (remaining : ℕ)
    → r.content_length ≡ none
    → IsFilled c
    → ((n : ℕ) → length c ≤ n → r.read k n ≡ bytes c)
    → 0 < fuel
    → length c ≤ remaining
    → read_chunks fuel r k [] 0 remaining ≡ done c
unfolding read_chunks after_read
read_first zero r k c remaining unknown filled sent some_fuel room = absurd (omega arith)
read_first (suc fuel) r k [] remaining unknown filled sent some_fuel room = absurd (omega arith)
read_first (suc fuel) r k (b ∷ c) remaining unknown filled sent some_fuel room =
    rw
      (
        not_zero remaining (omega arith),
        sent remaining room,
        drained r.content_length (0 + length (b ∷ c)) unknown,
      )
      refl

le-exceeds : (n max : ℕ) → n ≤ max → exceeds (some n) max ≡ false
le-exceeds n max h = ground arith

read_fits :
    (r : Response) (operation : Text) (max : ℕ) (body : Bytes)
    → exceeds r.content_length max ≡ false
    → read_chunks (max + 1) r 0 [] 0 (max + 1) ≡ done body
    → length body ≤ max
    → read_response_body r operation max ≡ done body
unfolding read_response_body
read_fits r operation max body small read fits = rw (small, read) (ground arith)

join_pos : (cs : List Bytes) → All IsFilled cs → 0 < length cs → 0 < length (join cs)
join_pos [] filled h = absurd (omega arith)
join_pos (c ∷ cs) filled h = omega (arith, filled.0, length-append c (join cs))

module _ (r : Response) (operation : Text) (max : ℕ) (c : Bytes) (cs : List Bytes)
    (filled : All IsFilled (c ∷ cs)) (sent : Delivers r 0 (c ∷ cs))
    (fits : length (join (c ∷ cs)) ≤ max) where
  -- A body that fits and whose length the peer has told is read whole, in however many chunks it comes.
  pub read_response_body_whole :
      r.content_length ≡ some (length (join (c ∷ cs)))
      → read_response_body r operation max ≡ done (join (c ∷ cs))
  read_response_body_whole known =
      read_fits r operation max (join (c ∷ cs)) (rw known (le-exceeds _ max fits))
        (read_every_chunk (c ∷ cs) (max + 1) r 0 [] 0 (max + 1) filled sent
          (known ∙ ap some (omega arith)) (omega arith) (omega arith))
        fits

  -- A body that fits and whose length the peer has not told is cut after its first chunk: if there
  -- are more, the result is shorter than the body.
  pub read_response_body_cut :
      r.content_length ≡ none
      → 0 < length cs
      → (read_response_body r operation max ≡ done c) × (length c < length (join (c ∷ cs)))
  read_response_body_cut unknown more = (
    read_fits r operation max c (rw unknown refl)
        (read_first (max + 1) r 0 c (max + 1) unknown filled.0 sent.0 (omega arith)
          (omega (arith, length-append c (join cs))))
        (omega (arith, length-append c (join cs))),
    omega (arith, length-append c (join cs), join_pos cs filled.1 more),
  )

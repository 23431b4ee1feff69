-- ===== src/Axeos/Client/Faults.antt =====
-- The faults that stand for a response that does not come or cannot be read.
use bitaxe_fleet.Prelude.{
  ℕ, zero, suc, ◌+◌, Bool, true, false, not, ◌&&◌, [], ◌∷◌, if◌then◌else◌, ltb, ◌==◌, length,
}
use bitaxe_fleet.Python.Text.{Text}
use bitaxe_fleet.Python.Utf8.{Bytes}
use bitaxe_fleet.Python.Library.{Library}
use bitaxe_fleet.Axeos.Errors.{invalid_response}
use bitaxe_fleet.Axeos.Client.{
  Fault, axeos, timed_out, client_fault, Attempt, raised, done, ◌>>=◌, Chunk, stalled, broken,
  bytes, Response, exceeds, is_drained, after_read, read_chunks, read_response_body,
  has_content_type, accept_body, is_empty_body,
}

-- The faults of a response that does not come, or that cannot be read.
abbrev pub IsLost : Fault → Type 0
IsLost timed_out = Unit
IsLost client_fault = Unit
IsLost (axeos (invalid_response _ _)) = Unit
IsLost (axeos _) = ⊥

abbrev pub OnlyLost {ℓ} : {A : Type ℓ} → Attempt A → Type 0
OnlyLost (raised f) = IsLost f
OnlyLost (done a) = Unit

pub OnlyLost-bind :
    {A B : Type 0} (m : Attempt A) (f : A → Attempt B)
    → OnlyLost m
    → ((a : A) → OnlyLost (f a))
    → OnlyLost (m >>= f)
OnlyLost-bind (raised g) f h k = h
OnlyLost-bind (done a) f h k = k a

OnlyLost-if :
    {A : Type 0} (b : Bool) (x y : Attempt A)
    → OnlyLost x
    → OnlyLost y
    → OnlyLost (if b then x else y)
OnlyLost-if true x y h k = h
OnlyLost-if false x y h k = k

after_read-OnlyLost :
    (r : Response) (c : Chunk) (body : Bytes) (received remaining : ℕ)
    (next : Bytes → ℕ → ℕ → Attempt Bytes)
    → ((b : Bytes) (n m : ℕ) → OnlyLost (next b n m))
    → OnlyLost (after_read r c body received remaining next)
unfolding after_read
after_read-OnlyLost r stalled body received remaining next h = tt
after_read-OnlyLost r broken body received remaining next h = tt
after_read-OnlyLost r (bytes []) body received remaining next h = tt
after_read-OnlyLost r (bytes (b ∷ chunk)) body received remaining next h =
    OnlyLost-if (is_drained r.content_length (received + length (b ∷ chunk))) _ _ tt (h _ _ _)

read_chunks-OnlyLost :
    (fuel : ℕ) (r : Response) (k : ℕ) (body : Bytes) (received remaining : ℕ)
    → OnlyLost (read_chunks fuel r k body received remaining)
unfolding read_chunks
read_chunks-OnlyLost zero r k body received remaining = tt
read_chunks-OnlyLost (suc fuel) r k body received remaining = OnlyLost-if (remaining == 0) _ _ tt (
    after_read-OnlyLost r (r.read k remaining) body received remaining (read_chunks fuel r (k + 1))
      (λ b n m. read_chunks-OnlyLost fuel r (k + 1) b n m))

pub read_response_body-OnlyLost :
    (r : Response) (operation : Text) (max : ℕ) → OnlyLost (read_response_body r operation max)
unfolding read_response_body
read_response_body-OnlyLost r operation max = OnlyLost-if (exceeds r.content_length max) _ _ tt (
    OnlyLost-bind (read_chunks (max + 1) r 0 [] 0 (max + 1)) _
      (read_chunks-OnlyLost (max + 1) r 0 [] 0 (max + 1))
      (λ body. OnlyLost-if (ltb max (length body)) _ _ tt tt))

pub accept_body-OnlyLost :
    (lib : Library) (r : Response) (operation expected : Text) (allow_empty : Bool) (body : Bytes)
    → OnlyLost (accept_body lib r operation expected allow_empty body)
unfolding accept_body
accept_body-OnlyLost lib r operation expected allow_empty body =
    OnlyLost-if (is_empty_body body && allow_empty) _ _ tt
      (OnlyLost-if (not (has_content_type lib r.content_type expected)) _ _ tt tt)

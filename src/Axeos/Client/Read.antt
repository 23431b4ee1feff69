-- ===== src/Axeos/Client/Read.antt =====
-- axeos/client.py: what a call can raise, and the loop that reads a bounded body.
use bitaxe_fleet.Prelude.{
  ℕ, zero, suc, ◌+◌, ◌-◌, Bool, true, false, Option, none, some, [], ◌∷◌, ◌++◌, if◌then◌else◌, ltb,
  leb, ◌==◌, length,
}
use bitaxe_fleet.Python.Text.{Text, codes}
use bitaxe_fleet.Python.Value.{Value}
use bitaxe_fleet.Python.Utf8.{Bytes}
use bitaxe_fleet.Axeos.Errors.{Error, invalid_response}

-- An error of axeos/errors.py, a `TimeoutError`, or an `aiohttp.ClientError`.
pub data Fault : Type 0 where
  axeos : Error → Fault
  timed_out client_fault : Fault

pub data Attempt {ℓ} (A : Type ℓ) : Type ℓ where
  raised : Fault → Attempt A
  done : A → Attempt A

infixl 5 ◌>>=◌
abbrev pub ◌>>=◌ {ℓ κ} : {A : Type ℓ} {B : Type κ} → Attempt A → (A → Attempt B) → Attempt B
raised f >>= next = raised f
done a >>= next = next a

-- One `content.read`.
pub data Chunk : Type 0 where
  stalled broken : Chunk
  bytes : Bytes → Chunk

-- A response: `read k n` is what the `k`-th read returns when it is asked for `n` bytes.
pub record Response : Type 0 where
  pub status : ℕ
  pub content_length : Option ℕ
  pub content_type : Value
  pub read : ℕ → ℕ → Chunk

-- `expected_length is not None and expected_length > max_response_bytes`
abbrev pub exceeds : Option ℕ → ℕ → Bool
exceeds none max = false
exceeds (some n) max = ltb max n

-- `expected_length is None or received_length >= expected_length`
abbrev pub is_drained : Option ℕ → ℕ → Bool
is_drained none received = true
is_drained (some n) received = leb n received

-- what follows a read; `next` is the next round
unfoldable pub after_read :
    Response → Chunk → Bytes → ℕ → ℕ → (Bytes → ℕ → ℕ → Attempt Bytes) → Attempt Bytes
after_read r stalled body received remaining next = raised timed_out
after_read r broken body received remaining next = raised client_fault
after_read r (bytes []) body received remaining next = done body
after_read r (bytes (b ∷ chunk)) body received remaining next =
    let received' = received + length (b ∷ chunk) in
    if is_drained r.content_length received'
    then done (body ++ b ∷ chunk)
    else next (body ++ b ∷ chunk) received' (remaining - length (b ∷ chunk))

-- The loop: `body` is `b"".join(chunks)`. Each round but the last uses up bytes of `remaining`, which
-- is fuel enough.
unfoldable pub read_chunks : ℕ → Response → ℕ → Bytes → ℕ → ℕ → Attempt Bytes
unfolding after_read
read_chunks zero r k body received remaining = done body
read_chunks (suc fuel) r k body received remaining =
    if remaining == 0
    then done body
    else after_read r (r.read k remaining) body received remaining (read_chunks fuel r (k + 1))

too_large : Text → Fault
too_large operation = axeos (invalid_response operation (codes "response is too large"))

-- `_async_read_response_body`
unfoldable pub read_response_body : Response → Text → ℕ → Attempt Bytes
unfolding too_large
read_response_body r operation max =
    if exceeds r.content_length max
    then raised (too_large operation)
    else (read_chunks (max + 1) r 0 [] 0 (max + 1) >>= λ body.
        if ltb max (length body) then raised (too_large operation) else done body)

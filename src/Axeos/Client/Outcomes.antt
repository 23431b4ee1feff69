-- ===== src/Axeos/Client/Outcomes.antt =====
-- What a call of the client can raise, and the requests that it makes.
use bitaxe_fleet.Prelude.{
  ◌∙◌, ℕ, ◌≡◌, ◌≤◌, ◌+◌, refl, ap, ◌⊎◌, Bool, true, false, Option, List, [], ◌∷◌, ◌++◌, arith,
  length, Bool-cases, inl, inr,
}
use bitaxe_fleet.Python.Text.{Text}
use bitaxe_fleet.Python.Utf8.{Bytes}
use bitaxe_fleet.Python.Library.{Library}
use bitaxe_fleet.Axeos.Errors.{invalid_response, mutation_uncertain, value_error}
use bitaxe_fleet.Axeos.Models.{MinerEndpoint}
use bitaxe_fleet.Axeos.Client.{
  axeos, timed_out, client_fault, Attempt, raised, done, ◌>>=◌, Response, exceeds, read_chunks,
  read_response_body, Request, Reply, no_answer, no_connection, response, Session, is_success,
  http_error, has_content_type, map_fault, accept_body, receive, json_content_type,
  max_response_bytes,
}
use bitaxe_fleet.Axeos.Client.Calls.{
  Json, Loaded, malformed, refused, loaded, json_decoded, decode_json, uncertain, decode_reply,
  request, request_body, mutate,
}
use bitaxe_fleet.Axeos.Client.Faults.{
  OnlyLost, OnlyLost-bind, read_response_body-OnlyLost, accept_body-OnlyLost,
}

-- The end of a mutation: it is done, or its outcome is uncertain.
abbrev pub DoneOrUncertain : Text → Attempt (Unit {0}) → Type 0
DoneOrUncertain operation a = (a ≡ done tt) ⊎ (a ≡ raised (axeos (mutation_uncertain operation)))

-- What the reply to a mutation makes of it.
abbrev pub Settled : Json → Text → Reply → Attempt (Unit {0}) → Type 0
Settled json operation (response r) a =
    ((is_success r.status ≡ true)
      × (DoneOrUncertain operation a
          ⊎ ((body : Bytes) × (read_response_body r operation max_response_bytes ≡ done body)
              × (json.loads body ≡ refused)
              × (a ≡ raised (axeos value_error)))))
    ⊎ ((is_success r.status ≡ false) × (a ≡ raised (axeos (http_error operation r.status))))
Settled json operation _ a = a ≡ raised (axeos (mutation_uncertain operation))

uncertain_http :
    (operation : Text) (status : ℕ)
    → uncertain {A = Unit {0}} operation (raised (axeos (http_error operation status)))
      ≡ raised (axeos (http_error operation status))
unfolding uncertain http_error
uncertain_http operation status = ground arith

>>=-eq-done :
    {A B : Type 0} (m : Attempt A) (f : A → Attempt B) {b : B}
    → (m >>= f) ≡ done b
    → (a : A) × (m ≡ done a) × (f a ≡ done b)
>>=-eq-done (raised g) f h = cc
>>=-eq-done (done a) f h = (a, refl, h)

map_fault-eq-done :
    {A : Type 0} (is_mutation : Bool) (operation : Text) (m : Attempt A) {a : A}
    → map_fault is_mutation operation m ≡ done a
    → m ≡ done a
unfolding map_fault
map_fault-eq-done is_mutation operation (raised timed_out) h = cc
map_fault-eq-done is_mutation operation (raised client_fault) h = cc
map_fault-eq-done is_mutation operation (raised (axeos e)) h = cc
map_fault-eq-done is_mutation operation (done a) h = h

-- What a body that is returned went through.
abbrev pub Accepted : Library → Reply → Text → Bool → ℕ → Bytes → Type 0
Accepted lib (response r) expected allow_empty max body =
    (is_success r.status ≡ true)
    × (length body ≤ max)
    × (exceeds r.content_length max ≡ false)
    × (((body ≡ []) × (allow_empty ≡ true)) ⊎ (has_content_type lib r.content_type expected ≡ true))
Accepted lib _ expected allow_empty max body = ⊥

read_bounds :
    (r : Response) (operation : Text) (max : ℕ) {body : Bytes}
    → read_response_body r operation max ≡ done body
    → (length body ≤ max) × (exceeds r.content_length max ≡ false)
unfolding read_response_body
read_bounds r operation max h = elim (Bool-cases (exceeds r.content_length max)) [
  | inl e ↦ absurd (ground arith)
  | inr e ↦
      let (b, read, kept) = >>=-eq-done (read_chunks (max + 1) r 0 [] 0 (max + 1)) _ (rw e at h) in
      (ground arith, e)
]

accept_body_lem :
    (lib : Library) (r : Response) (operation expected : Text) (allow_empty : Bool) (b : Bytes)
    {body : Bytes}
    → accept_body lib r operation expected allow_empty b ≡ done body
    → (b ≡ body)
      × (((body ≡ []) × (allow_empty ≡ true))
          ⊎ (has_content_type lib r.content_type expected ≡ true))
unfolding accept_body
accept_body_lem lib r operation expected true [] h = (ground arith, inl (ground arith, refl))
accept_body_lem lib r operation expected false [] h = (ground arith, inr (ground arith))
accept_body_lem lib r operation expected allow_empty (c ∷ b) h = (ground arith, inr (ground arith))

receive-Accepted :
    (lib : Library) (reply : Reply) (operation expected : Text) (allow_empty : Bool) (max : ℕ)
    {body : Bytes}
    → receive lib reply operation expected allow_empty max ≡ done body
    → Accepted lib reply expected allow_empty max body
unfolding receive
receive-Accepted lib no_answer operation expected allow_empty max h = cc
receive-Accepted lib no_connection operation expected allow_empty max h = cc
receive-Accepted lib (response r) operation expected allow_empty max h =
    elim (Bool-cases (is_success r.status)) [
      | inl e ↦
          let (b, read, kept) = >>=-eq-done (read_response_body r operation max) _ (rw e at h) in
          let (same, checked) = accept_body_lem lib r operation expected allow_empty b kept in
          let (fits, small) = read_bounds r operation max read in
          (e, omega (arith, fits, ap length same), small, checked)
      | inr e ↦ absurd (ground arith)
    ]

-- the end of a mutation whose body was received
reply_settled :
    (json : Json) (operation : Text) (body : Bytes)
    → let a = uncertain operation (decode_reply json operation body) in
      DoneOrUncertain operation a ⊎ ((json.loads body ≡ refused) × (a ≡ raised (axeos value_error)))
unfolding decode_reply decode_json json_decoded uncertain
reply_settled json operation [] = inl (inl refl)
reply_settled json operation (b ∷ r) = by_loads (json.loads (b ∷ r))
  where
    by_loads :
        (l : Loaded)
        → let a = uncertain operation (json_decoded operation l >>= λ _. done tt) in
          DoneOrUncertain operation a ⊎ ((l ≡ refused) × (a ≡ raised (axeos value_error)))
    by_loads malformed = inl (inr refl)
    by_loads refused = inr (refl, refl)
    by_loads (loaded v) = inl (inl refl)

-- the end of a mutation, by what was received
settled :
    (json : Json) (operation : Text) (m : Attempt Bytes)
    → OnlyLost m
    → let a = uncertain operation (map_fault true operation m >>= decode_reply json operation) in
      DoneOrUncertain operation a
      ⊎ ((body : Bytes) × (m ≡ done body)
          × (json.loads body ≡ refused)
          × (a ≡ raised (axeos value_error)))
unfolding uncertain map_fault
settled json operation (raised timed_out) h = inl (inr refl)
settled json operation (raised client_fault) h = inl (inr refl)
settled json operation (raised (axeos (invalid_response _ _))) h = inl (inr refl)
settled json operation (raised (axeos _)) h = absurd h
settled json operation (done body) h = elim (reply_settled json operation body) [
  | inl e ↦ inl e
  | inr (e, f) ↦ inr (body, refl, e, f)
]

receive-Settled :
    (lib : Library) (json : Json) (reply : Reply) (operation : Text)
    → Settled json operation reply (
        uncertain operation (
          map_fault true operation
            (receive lib reply operation json_content_type true max_response_bytes)
          >>= decode_reply json operation))
unfolding receive
receive-Settled lib json no_answer operation = unfold map_fault uncertain in refl
receive-Settled lib json no_connection operation = unfold map_fault uncertain in refl
receive-Settled lib json (response r) operation = elim (Bool-cases (is_success r.status)) [
  | inl e ↦ inl (
    e,
    rw e
        (elim (settled json operation
          (read_response_body r operation max_response_bytes
            >>= accept_body lib r operation json_content_type true)
          (OnlyLost-bind (read_response_body r operation max_response_bytes) _
            (read_response_body-OnlyLost r operation max_response_bytes)
            (accept_body-OnlyLost lib r operation json_content_type true))) [
              | inl f ↦ inl f
              | inr (body, got, f, g) ↦
                  let (b, read, kept) =
                    >>=-eq-done (read_response_body r operation max_response_bytes) _ got in
                  let (same, checked) =
                    accept_body_lem lib r operation json_content_type true b kept in
                  inr (body, read ∙ ap done same, f, g)
            ]),
  )
  | inr e ↦ inr (e, rw e (unfold map_fault in uncertain_http operation r.status))
]

module _ (lib : Library) (json : Json) (session : Session) (endpoint : MinerEndpoint) where
  -- A mutation sends exactly one request, whatever the outcome, and no redirect is followed. Without an
  -- answer its outcome is uncertain; an answer with a status outside of 200 to 299 is the HTTP error
  -- of that status; and after any other answer the mutation is done, or its outcome is uncertain, or
  -- `loads` has refused the body that was read with a plain `ValueError`, which is raised.
  pub mutate_lem :
      (method path operation : Text) (body : Option Bytes) (log : List Request)
      → let (result, log') = mutate lib json session endpoint method path operation body log in
        let sent = request lib json session endpoint method path json_content_type body in
        (log' ≡ log ++ sent ∷ [])
        × (sent.allow_redirects ≡ false)
        × Settled json operation (session log sent) result
  unfolding mutate request_body
  mutate_lem method path operation body log = (
    refl,
    refl,
    receive-Settled lib json
        (session log (request lib json session endpoint method path json_content_type body))
        operation,
  )

  -- A request of any kind is one request. When it returns a body, the miner has answered with a status
  -- from 200 to 299, told no length above the bound, and sent a body within the bound, which is empty
  -- where that is allowed or has the content type that is expected.
  pub request_body_lem :
      (method path operation expected : Text) (content : Option Bytes)
      (is_mutation allow_empty : Bool) (max : ℕ) (log : List Request)
      → let (result, log') =
          request_body lib json session endpoint method path operation expected content is_mutation
            allow_empty max log in
        let sent = request lib json session endpoint method path expected content in
        (log' ≡ log ++ sent ∷ [])
        × ((body : Bytes)
            → result ≡ done body
            → Accepted lib (session log sent) expected allow_empty max body)
  unfolding request_body
  request_body_lem method path operation expected content is_mutation allow_empty max log = (
    refl,
    λ body h.
        receive-Accepted lib _ operation expected allow_empty max
          (map_fault-eq-done is_mutation operation _ h),
  )

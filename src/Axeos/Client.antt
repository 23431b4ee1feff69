-- ===== src/Axeos/Client.antt =====
-- axeos/client.py: the HTTP client. The session of aiohttp is an argument that answers a request, with
-- the requests before it; every call of the client appends the requests that it makes.
pub mod Read
pub mod Profile
pub mod Calls
pub mod Reading
pub mod Faults
pub mod Outcomes
pub mod Tests
unfoldable pub use Read.*
use bitaxe_fleet.Prelude.{
  ℕ, ◌*◌, Bool, true, false, not, ◌&&◌, ◌||◌, Option, none, some, List, [], ◌∷◌, ◌++◌,
  if◌then◌else◌, ltb, leb, ◌==◌,
}
use bitaxe_fleet.Python.Text.{Text, codes, text_eq, strip}
use bitaxe_fleet.Python.Value.{Value, str}
use bitaxe_fleet.Python.Utf8.{Bytes}
use bitaxe_fleet.Python.Library.{Library}
use bitaxe_fleet.Axeos.Errors.{
  Error, connection, http, authentication, invalid_response, timeout, unsupported,
  mutation_uncertain,
}
use bitaxe_fleet.Axeos.Models.{MinerEndpoint, default_http_port}
use bitaxe_fleet.Axeos.Parser.Address.{address_text}

-- The request that the session sends: it follows no redirect, and has the timeouts of const.py.
pub record Request : Type 0 where
  pub method : Text
  pub url : Text
  pub accept : Text
  pub content_type : Option Text
  pub body : Option Bytes
  pub allow_redirects : Bool
  pub total_timeout : ℕ
  pub connect_timeout : ℕ
  pub read_timeout : ℕ

pub data Reply : Type 0 where
  no_answer : Reply
  no_connection : Reply
  response : Response → Reply

-- What the session answers, after the requests that it has seen.
abbrev pub Session : Type 0
Session = List Request → Request → Reply

-- A call of the client.
abbrev pub Call : Type 0 → Type 0
Call A = List Request → Attempt A × List Request

-- `MinerEndpoint.base_url`; `port_text` is `str(port)`.
unfoldable pub base_url : (ℕ → Text) → MinerEndpoint → Text
base_url port_text e =
    if e.port == default_http_port
    then codes "http://" ++ address_text e.host
    else codes "http://" ++ (address_text e.host ++ 58 ∷ port_text e.port)

-- `value.split(";", 1)[0]`
unfoldable pub before_semicolon : Text → Text
before_semicolon [] = []
before_semicolon (c ∷ s) = let rest = before_semicolon s in if c == 59 then [] else c ∷ rest

-- `_http_error`
unfoldable pub http_error : Text → ℕ → Error
http_error operation status =
    if status == 401 || status == 403
    then authentication operation status
    else if status == 404 || status == 405 || status == 501
    then unsupported operation status
    else http operation status

-- `200 <= status < 300`
abbrev pub is_success : ℕ → Bool
is_success status = leb 200 status && ltb status 300

abbrev pub is_empty_body : Bytes → Bool
is_empty_body [] = true
is_empty_body (_ ∷ _) = false

-- the handlers of `_async_request_body`
unfoldable pub map_fault {ℓ} : {A : Type ℓ} → Bool → Text → Attempt A → Attempt A
map_fault is_mutation operation (raised timed_out) =
    raised (axeos (if is_mutation then mutation_uncertain operation else timeout operation))
map_fault is_mutation operation (raised client_fault) =
    raised (axeos (if is_mutation then mutation_uncertain operation else connection operation))
map_fault is_mutation operation (raised (axeos e)) = raised (axeos e)
map_fault is_mutation operation (done a) = done a

module _ (lib : Library) where
  -- `_has_content_type`
  unfoldable pub has_content_type : Value → Text → Bool
  unfolding before_semicolon
  has_content_type (str value) expected =
      text_eq (lib.lower_text (strip (before_semicolon value))) expected
  has_content_type _ expected = false

  -- what is made of the body of a response
  unfoldable pub accept_body : Response → Text → Text → Bool → Bytes → Attempt Bytes
  unfolding has_content_type
  accept_body r operation expected allow_empty body =
      if is_empty_body body && allow_empty
      then done body
      else if not (has_content_type r.content_type expected)
      then raised (axeos (invalid_response operation (codes "expected " ++ expected)))
      else done body

  unfoldable pub receive : Reply → Text → Text → Bool → ℕ → Attempt Bytes
  unfolding accept_body
  receive no_answer operation expected allow_empty max = raised timed_out
  receive no_connection operation expected allow_empty max = raised client_fault
  receive (response r) operation expected allow_empty max =
      if not (is_success r.status)
      then raised (axeos (http_error operation r.status))
      else (read_response_body r operation max >>= accept_body r operation expected allow_empty)

abbrev pub json_content_type : Text
json_content_type = codes "application/json"

abbrev pub text_content_type : Text
text_content_type = codes "text/plain"

abbrev pub max_response_bytes : ℕ
max_response_bytes = 65536

abbrev pub max_log_response_bytes : ℕ
max_log_response_bytes = 1048576

-- the `Content-Type` of a request with a body
abbrev pub content_type_of : Option Bytes → Option Text
content_type_of none = none
content_type_of (some _) = some json_content_type

-- ===== src/Axeos/Client/Calls.antt =====
-- axeos/client.py: the methods of `AxeOSClient` for one endpoint.
use bitaxe_fleet.Prelude.{ℕ, Bool, true, false, Option, none, some, [], ◌∷◌, ◌++◌}
use bitaxe_fleet.Python.Text.{Text, codes}
use bitaxe_fleet.Python.Value.{Value, str}
use bitaxe_fleet.Python.Float.{Float}
use bitaxe_fleet.Python.Utf8.{Bytes, decode}
use bitaxe_fleet.Python.Decimal.{decimal_text}
use bitaxe_fleet.Python.Library.{Library}
use bitaxe_fleet.Axeos.Errors.{invalid_response, mutation_uncertain, value_error, Result, ok, err}
use bitaxe_fleet.Axeos.Models.{
  Time, MinerEndpoint, MinerSnapshot, AsicCapabilities, MinerLogs, RecoveryProfile,
}
use bitaxe_fleet.Axeos.Parser.SystemInfo.{parse_system_info}
use bitaxe_fleet.Axeos.Parser.Asic.{parse_system_asic}
use bitaxe_fleet.Axeos.Parser.Logs.{parse_system_logs}
use bitaxe_fleet.Axeos.Client.{
  axeos, timed_out, client_fault, Attempt, raised, done, ◌>>=◌, Request, Session, Call, base_url,
  map_fault, receive, json_content_type, text_content_type, max_response_bytes,
  max_log_response_bytes, content_type_of,
}
use bitaxe_fleet.Axeos.Client.Profile.{serialize_recovery_profile}

-- What `loads` does: it raises one of the three errors that the client catches, or a plain `ValueError`,
-- as it does for an integer of more digits than Python converts, or it returns an object.
pub data Loaded : Type 0 where
  malformed refused : Loaded
  loaded : Value → Loaded

-- What the client takes from the json module: `loads`, and the text of a float.
pub record Json : Type 0 where
  pub loads : Bytes → Loaded
  pub repr : Float → Text

abbrev pub of_result {ℓ} : {A : Type ℓ} → Result A → Attempt A
of_result (err e) = raised (axeos e)
of_result (ok a) = done a

-- What follows an awaited call, on its result alone.
abbrev pub then_pure : {A B : Type 0} → Call A → (A → Attempt B) → Call B
then_pure call next log = let (result, log') = call log in (result >>= next, log')

-- the handler of `_decode_json`
unfoldable pub json_decoded : Text → Loaded → Attempt Value
json_decoded operation malformed =
    raised (axeos (invalid_response operation (codes "malformed JSON")))
json_decoded operation refused = raised (axeos value_error)
json_decoded operation (loaded v) = done v

-- `_decode_json`
unfoldable pub decode_json : Json → Text → Bytes → Attempt Value
unfolding json_decoded
decode_json json operation body = json_decoded operation (json.loads body)

-- the handler of a text that is malformed
abbrev pub decoded : Text → Option Text → Attempt Text
decoded operation none = raised (axeos (invalid_response operation (codes "invalid text")))
decoded operation (some text) = done text

-- `body.decode("utf-8")`
unfoldable pub decode_text : Text → Bytes → Attempt Text
decode_text operation body = decoded operation (decode body)

-- the handler of `_async_mutate`
unfoldable pub uncertain {ℓ} : {A : Type ℓ} → Text → Attempt A → Attempt A
uncertain operation (raised (axeos (invalid_response _ _))) =
    raised (axeos (mutation_uncertain operation))
uncertain operation (raised timed_out) = raised (axeos (mutation_uncertain operation))
uncertain operation (raised client_fault) = raised (axeos (mutation_uncertain operation))
uncertain operation (raised (axeos e)) = raised (axeos e)
uncertain operation (done a) = done a

-- the reply to a mutation, decoded if there is any
unfoldable pub decode_reply : Json → Text → Bytes → Attempt (Unit {0})
unfolding decode_json
decode_reply json operation [] = done tt
decode_reply json operation (b ∷ r) = decode_json json operation (b ∷ r) >>= λ _. done tt

module _ (lib : Library) (json : Json) (session : Session) (endpoint : MinerEndpoint) where
  unfoldable pub request : Text → Text → Text → Option Bytes → Request
  request method path expected body = record {
    method = method;
    url = base_url decimal_text endpoint ++ path;
    accept = expected;
    content_type = content_type_of body;
    body = body;
    allow_redirects = false;
    total_timeout = 5;
    connect_timeout = 2;
    read_timeout = 3;
  }

  -- `_async_request_body`
  unfoldable pub request_body :
      Text → Text → Text → Text → Option Bytes → Bool → Bool → ℕ → Call Bytes
  unfolding request map_fault receive
  request_body method path operation expected body is_mutation allow_empty max log =
      let sent = request method path expected body in
      (
        map_fault is_mutation operation
            (receive lib (session log sent) operation expected allow_empty max),
        log ++ sent ∷ [],
      )

  -- `_async_get_json`
  unfoldable pub get_json : Text → Text → Call Value
  unfolding request_body decode_json
  get_json path operation =
      then_pure
        (request_body (codes "GET") path operation json_content_type none false false
          max_response_bytes)
        (decode_json json operation)

  -- `_async_get_text`
  unfoldable pub get_text : Text → Text → ℕ → Call Text
  unfolding request_body decode_text
  get_text path operation max =
      then_pure (request_body (codes "GET") path operation text_content_type none false false max)
        (decode_text operation)

  -- `_async_mutate`
  unfoldable pub mutate : Text → Text → Text → Option Bytes → Call (Unit {0})
  unfolding request_body decode_reply uncertain
  mutate method path operation body log =
      let (result, log') =
        request_body method path operation json_content_type body true true max_response_bytes
          log in
      (uncertain operation (result >>= decode_reply json operation), log')

  -- `now` is the `datetime.now(UTC)` of the parser.
  unfoldable pub get_system_info : Time → Call MinerSnapshot
  unfolding get_json
  get_system_info now =
      then_pure (get_json (codes "/api/system/info") (codes "system info"))
        (λ payload. of_result (parse_system_info lib payload endpoint now))

  unfoldable pub get_system_asic : Call AsicCapabilities
  unfolding get_json
  get_system_asic =
      then_pure (get_json (codes "/api/system/asic") (codes "system ASIC"))
        (λ payload. of_result (parse_system_asic lib payload))

  unfoldable pub get_system_logs : Call MinerLogs
  unfolding get_text
  get_system_logs =
      then_pure (get_text (codes "/api/system/logs") (codes "system logs") max_log_response_bytes)
        (λ text. of_result (parse_system_logs (str text)))

  -- the patch of a profile that could be written
  unfoldable pub patch_body : Result Text → Call (Unit {0})
  unfolding mutate
  patch_body (err e) log = (raised (axeos e), log)
  patch_body (ok body) log =
      mutate (codes "PATCH") (codes "/api/system") (codes "system settings update") (some body) log

  unfoldable pub patch_system : RecoveryProfile → Call (Unit {0})
  unfolding patch_body
  patch_system profile = patch_body (serialize_recovery_profile json.repr profile)

  unfoldable pub restart : Call (Unit {0})
  unfolding mutate
  restart = mutate (codes "POST") (codes "/api/system/restart") (codes "restart") none

  unfoldable pub pause : Call (Unit {0})
  unfolding mutate
  pause = mutate (codes "POST") (codes "/api/system/pause") (codes "pause") none

  unfoldable pub resume : Call (Unit {0})
  unfolding mutate
  resume = mutate (codes "POST") (codes "/api/system/resume") (codes "resume") none

  unfoldable pub identify : Call (Unit {0})
  unfolding mutate
  identify = mutate (codes "POST") (codes "/api/system/identify") (codes "identify") none

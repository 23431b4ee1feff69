-- ===== src/Axeos/Client/Tests.antt =====
-- A small session, and the theorems of the client at it.
use bitaxe_fleet.Prelude.{
  ℕ, zero, suc, ◌≡◌, ◌<◌, refl, false, Option, none, some, List, [], ◌∷◌, arith, if◌then◌else◌, leb,
  length,
}
use bitaxe_fleet.Python.Text.{codes, text_eq, strip, lower_char}
use bitaxe_fleet.Axeos.Errors.{value_error}
use bitaxe_fleet.Python.Value.{null, str}
use bitaxe_fleet.Python.Utf8.{Bytes}
use bitaxe_fleet.Python.Decimal.{int_text}
use bitaxe_fleet.Python.Tests.{plain_library}
use bitaxe_fleet.Axeos.Parser.SystemInfo.Tests.{endpoint, profile}
use bitaxe_fleet.Axeos.Client.{
  raised, axeos, done, Chunk, bytes, Response, no_answer, response, Session, read_chunks,
  read_response_body, json_content_type, text_content_type,
}
use bitaxe_fleet.Axeos.Client.Profile.{profile_text}
use bitaxe_fleet.Axeos.Client.Calls.{Json, loaded, refused, restart, request, request_body, mutate}
use bitaxe_fleet.Axeos.Client.Reading.{join, read_response_body_whole, read_response_body_cut}
use bitaxe_fleet.Axeos.Client.Outcomes.{Settled, Accepted, mutate_lem, request_body_lem}

-- The reads of a body that comes in two chunks.
abbrev two_chunks : ℕ → ℕ → Chunk
two_chunks zero n = bytes (if leb 2 n then 0x6f ∷ 0x6b ∷ [] else [])
two_chunks (suc zero) n = bytes (if leb 1 n then 0x0a ∷ [] else [])
two_chunks (suc (suc k)) n = bytes []

abbrev answer : Option ℕ → Response
answer told = record {
  status = 200;
  content_length = told;
  content_type = str (codes "text/plain; charset=utf-8");
  read = two_chunks;
}

abbrev first : Bytes
first = 0x6f ∷ 0x6b ∷ []

abbrev others : List Bytes
others = (0x0a ∷ []) ∷ []

read_response_body_whole_example :
    read_response_body (answer (some 3)) (codes "system logs") 100 ≡ done (join (first ∷ others))
read_response_body_whole_example =
    read_response_body_whole (answer (some 3)) (codes "system logs") 100 first others
      (omega arith, (omega arith, tt)) (λ n h. ground arith, (λ n h. ground arith, λ n. refl))
      (omega arith) refl

read_response_body_cut_example :
    (read_response_body (answer none) (codes "system logs") 100 ≡ done first)
    × (length first < length (join (first ∷ others)))
read_response_body_cut_example =
    read_response_body_cut (answer none) (codes "system logs") 100 first others
      (omega arith, (omega arith, tt)) (λ n h. ground arith, (λ n h. ground arith, λ n. refl))
      (omega arith) refl (omega arith)

abbrev pub json : Json
json = record { loads = λ b. loaded null; repr = λ x. codes "525.0" }

-- The first request gets an answer, a later one none.
abbrev pub session : Session
session [] r = response (answer (some 3))
session (_ ∷ _) r = no_answer

mutate_lem_example :
    let (result, log') =
      mutate plain_library json session endpoint
        (codes "POST")
        (codes "/api/system/restart")
        (codes "restart")
        none
        [] in
    let sent =
      request plain_library json session endpoint
        (codes "POST")
        (codes "/api/system/restart")
        json_content_type
        none in
    (log' ≡ sent ∷ [])
    × (sent.allow_redirects ≡ false)
    × Settled json (codes "restart") (session [] sent) result
mutate_lem_example =
    mutate_lem plain_library json session endpoint (codes "POST") (codes "/api/system/restart")
      (codes "restart") none []

request_body_lem_example :
    let (result, log') =
      request_body plain_library json session endpoint
        (codes "GET")
        (codes "/api/system/logs")
        (codes "system logs")
        text_content_type
        none
        false
        false
        100
        [] in
    let sent =
      request plain_library json session endpoint
        (codes "GET")
        (codes "/api/system/logs")
        text_content_type
        none in
    (log' ≡ sent ∷ [])
    × ((body : Bytes)
        → result ≡ done body
        → Accepted plain_library (session [] sent) text_content_type false 100 body)
request_body_lem_example =
    request_body_lem plain_library json session endpoint (codes "GET") (codes "/api/system/logs")
      (codes "system logs") text_content_type none false false 100 []

profile_written :
    profile_text json.repr profile
    ≡ codes
        "{\"frequency\":525.0,\"coreVoltage\":1150,\"overclockEnabled\":0,\"autofanspeed\":1,\"temptarget\":60,\"minFanSpeed\":25}"
unfolding profile_text int_text
profile_written = refl

-- A reply that `loads` refuses, after the miner has accepted the restart: the error is none of the
-- client's own.
abbrev refusing : Json
refusing = record json { loads = λ b. refused }

abbrev accepting : Session
accepting log r =
    response (record (answer (some 3)) { content_type = str (codes "application/json") })

refused_reply_raises :
    (restart plain_library refusing accepting endpoint []).0 ≡ raised (axeos value_error)
unfolding restart read_response_body read_chunks text_eq strip lower_char
refused_reply_raises = refl

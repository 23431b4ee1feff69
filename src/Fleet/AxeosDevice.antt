-- ===== src/Fleet/AxeosDevice.antt =====
-- axeos/client.py as the typed client of the fleet: `AxeOSClient` fills the protocol, over the requests
-- that the calls on record have sent.
use bitaxe_fleet.Prelude.{◌⊎◌, ◌≡◌, none, some, List, [], ◌∷◌, ◌++◌}
use bitaxe_fleet.Python.Text.{Text, codes}
use bitaxe_fleet.Python.Utf8.{Bytes}
use bitaxe_fleet.Python.Library.{Library}
use bitaxe_fleet.Axeos.Errors.{Result, ok, err, value_error}
use bitaxe_fleet.Axeos.Models.{MinerEndpoint, RecoveryProfile}
use bitaxe_fleet.Axeos.Client.{
  axeos, Attempt, raised, Request, Session, json_content_type, text_content_type,
}
use bitaxe_fleet.Axeos.Client.Profile.{serialize_recovery_profile}
use bitaxe_fleet.Axeos.Client.Calls.{
  Json, refused, request, get_system_info, get_system_asic, get_system_logs,
}
use bitaxe_fleet.Axeos.Client.Calls
use bitaxe_fleet.Fleet.Device.{
  Action, restart, pause, resume, identify, Command, system_info, system_asic, system_logs,
  patch_system, act, History, DeviceClient, RaisesAxeos,
}

-- the path and the name of an action
abbrev pub action_path : Action → Text
action_path restart = codes "/api/system/restart"
action_path pause = codes "/api/system/pause"
action_path resume = codes "/api/system/resume"
action_path identify = codes "/api/system/identify"

module _ (lib : Library) (json : Json) (session : Session) where
  -- the request of a call
  patch_request : MinerEndpoint → Result Text → List Request
  patch_request e (err _) = []
  patch_request e (ok body) =
      request lib json session e (codes "PATCH") (codes "/api/system") json_content_type (some body)
      ∷ []

  pub request_of : MinerEndpoint → Command → List Request
  unfolding patch_request
  request_of e system_info =
      request lib json session e (codes "GET") (codes "/api/system/info") json_content_type none
      ∷ []
  request_of e system_asic =
      request lib json session e (codes "GET") (codes "/api/system/asic") json_content_type none
      ∷ []
  request_of e system_logs =
      request lib json session e (codes "GET") (codes "/api/system/logs") text_content_type none
      ∷ []
  request_of e (patch_system p) = patch_request e (serialize_recovery_profile json.repr p)
  request_of e (act a) =
      request lib json session e (codes "POST") (action_path a) json_content_type none ∷ []

  -- the requests that the calls on record have sent
  pub requests_of : History → List Request
  unfolding request_of
  requests_of [] = []
  requests_of (x ∷ h) = request_of x.endpoint x.command ++ requests_of h

  abbrev pub perform_call :
      MinerEndpoint → Action → List Request → Attempt (Unit {0}) × List Request
  perform_call e restart = Calls.restart lib json session e
  perform_call e pause = Calls.pause lib json session e
  perform_call e resume = Calls.resume lib json session e
  perform_call e identify = Calls.identify lib json session e

  -- `AxeOSClient`, made for the endpoint of each call
  abbrev pub axeos_client : DeviceClient
  axeos_client = record {
    get_system_info = λ h now e. (get_system_info lib json session e now (requests_of h)).0;
    get_system_asic = λ h e. (get_system_asic lib json session e (requests_of h)).0;
    get_system_logs = λ h e. (get_system_logs lib json session e (requests_of h)).0;
    patch = λ h e p. (Calls.patch_system lib json session e p (requests_of h)).0;
    perform = λ h e a. (perform_call e a (requests_of h)).0;
  }

  -- How a mutation ends: it returns or raises an error of axeos/errors.py, or `loads` has refused the
  -- body of its reply with a plain `ValueError`, which is raised.
  abbrev pub EndsAs : Attempt (Unit {0}) → Type 0
  EndsAs a =
      RaisesAxeos a
      ⊎ ((body : Bytes) × (json.loads body ≡ refused) × (a ≡ raised (axeos value_error)))

  -- A mutation of the client: the log grows by the request on record.
  abbrev pub IsMutation :
      History → MinerEndpoint → Command → Attempt (Unit {0}) × List Request → Type 0
  IsMutation h e command (result, log) =
      (log ≡ requests_of (h ++ record { endpoint = e; command = command } ∷ [])) × EndsAs result

  -- A patch, by the body that its profile is written as: one that cannot be written is not sent, and
  -- the error of the writing is raised.
  abbrev pub IsPatch :
      History
      → MinerEndpoint
      → RecoveryProfile
      → Result Text
      → Attempt (Unit {0}) × List Request
      → Type 0
  IsPatch h e p (err f) (result, log) =
      (result ≡ raised (axeos f))
      × (log ≡ requests_of h)
      × (log ≡ requests_of (h ++ record { endpoint = e; command = patch_system p } ∷ []))
  IsPatch h e p (ok body) x = IsMutation h e (patch_system p) x

  -- The log of a read grows by the request on record.
  abbrev pub IsRead :
      {A : Type 0} → History → MinerEndpoint → Command → Attempt A × List Request → Type 0
  IsRead h e command (result, log) =
      log ≡ requests_of (h ++ record { endpoint = e; command = command } ∷ [])

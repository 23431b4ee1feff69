-- ===== src/Storage/State.antt =====
-- storage.py: the registry's state and the validators of what enters it.
use bitaxe_fleet.Prelude.{
  ℕ, Bool, false, not, ◌||◌, Option, none, some, List, [], ◌∷◌, ◌++◌, ltb, if◌then◌else◌, length,
  all,
}
use bitaxe_fleet.Python.Text.{Text, text_eq, strip, is_empty}
use bitaxe_fleet.Python.Value.{Value, null, str}
use bitaxe_fleet.Python.Dict.{Dict}
use bitaxe_fleet.Python.Library.{Library}
use bitaxe_fleet.Axeos.Errors.{value_error, Result, ok, err, ◌>>=◌}
use bitaxe_fleet.Axeos.Models.{MinerId, Time, EnrolledMiner}

pub record FleetIncident : Type 0 where
  pub incident_id : Text
  pub miner_id : MinerId
  pub occurred_at : Time
  pub cause : Text
  pub outcome : Text
  pub detail : Text

-- A `set` of ids: only membership is observed.
abbrev pub IdSet : Type 0
IdSet = List MinerId

unfoldable pub contains_id : MinerId → IdSet → Bool
contains_id m [] = false
contains_id m (j ∷ s) = text_eq m j || contains_id m s

-- `set.add` and `set.discard`
unfoldable pub add_id : MinerId → IdSet → IdSet
add_id m s = if contains_id m s then s else s ++ m ∷ []

unfoldable pub discard_id : MinerId → IdSet → IdSet
discard_id m [] = []
discard_id m (j ∷ s) = let rest = discard_id m s in if text_eq m j then rest else j ∷ rest

-- The fields of `MinerRegistry`, with the document that its `Store` holds: what the last save wrote,
-- and what a load reads. Each operation runs under the registry's lock, so it is one step.
pub record MinerRegistry : Type 0 where
  pub miners : Dict EnrolledMiner
  pub rejected_candidates : IdSet
  pub incidents : List FleetIncident
  pub loaded : Bool
  pub document : Option Value

abbrev pub max_stored_incidents : ℕ
max_stored_incidents = 100

abbrev pub max_text_length : ℕ
max_text_length = 128

abbrev pub max_incident_detail_length : ℕ
max_incident_detail_length = 512

-- `_validate_text`
pub validate_str : Library → Text → ℕ → Result Text
validate_str lib s limit =
    if is_empty (strip s) || ltb limit (length (strip s)) || not (all lib.printable (strip s))
    then err value_error
    else ok (strip s)

unfoldable pub validate_text : Library → Value → ℕ → Result Text
unfolding validate_str
validate_text lib (str s) limit = validate_str lib s limit
validate_text lib _ limit = err value_error

-- `_validate_optional_display_name`
unfoldable pub validate_optional_display_name : Library → Value → Result (Option Text)
validate_optional_display_name lib null = ok none
validate_optional_display_name lib v = validate_text lib v max_text_length >>= λ s. ok (some s)

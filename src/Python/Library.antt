-- ===== src/Python/Library.antt =====
-- What the code takes from the standard library and is not modelled by a definition: the Unicode
-- database behind `str.isprintable`, the reader of float literals, the regular expression engine,
-- and the text form of a `datetime`.
use bitaxe_fleet.Prelude.{ℕ, Bool, Option}
use bitaxe_fleet.Python.Text.{Text}
use bitaxe_fleet.Python.Float.{Float}

-- The compiled patterns of redaction.py.
pub data Pattern : Type 0 where
  ipv4_pattern mac_pattern url_pattern secret_assignment_pattern bitcoin_address_pattern : Pattern

-- What `datetime.fromisoformat` returns: a moment in UTC if the text names an offset.
pub data Timestamp : Type 0 where
  naive aware : ℕ → Timestamp

pub record Library : Type 0 where
  -- `str.isprintable` of one character
  pub printable : ℕ → Bool
  -- `str.lower`
  pub lower_text : Text → Text
  -- `float(text)`: `none` is the ValueError
  pub float_of_text : Text → Option Float
  -- `pattern.sub(replacement, text)`
  pub sub : Pattern → Text → Text → Text
  -- `datetime.isoformat` of a moment in UTC
  pub isoformat : ℕ → Text
  -- `datetime.fromisoformat`: `none` is the ValueError
  pub fromisoformat : Text → Option Timestamp

-- ===== src/Python/Tests.antt =====
-- A small instance of what is taken from the standard library, for examples.
use bitaxe_fleet.Prelude.{Option, none, some, [], ◌∷◌, leb}
use bitaxe_fleet.Python.Text.{Text, lower}
use bitaxe_fleet.Python.Library.{Library, Timestamp, aware}

-- A moment as a text of one character.
abbrev read_moment : Text → Option Timestamp
read_moment (t ∷ []) = some (aware t)
read_moment _ = none

-- ASCII alone, no pattern matches, and a moment is written as one character.
abbrev pub plain_library : Library
plain_library = record {
  printable = λ c. leb 32 c;
  lower_text = lower;
  float_of_text = λ s. none;
  sub = λ pattern replacement s. s;
  isoformat = λ t. t ∷ [];
  fromisoformat = read_moment;
}

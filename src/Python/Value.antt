-- ===== src/Python/Value.antt =====
-- Untrusted `object`s: decoded JSON, and anything else a caller may pass.
use bitaxe_fleet.Prelude.{ℕ, Bool, List, [], ◌∷◌, Option, none, some, ℤ}
use bitaxe_fleet.Python.Text.{Text}
use mathlib.Core.Option
use bitaxe_fleet.Python.Float.{Float}

-- The keys of a dict: a `str`, or some object that is none.
pub data Key : Type 0 where
  name : Text → Key
  other_key : ℕ → Key

mutual
  pub data Value : Type 0 where
    null : Value
    boolean : Bool → Value
    int : ℤ → Value
    float : Float → Value
    str : Text → Value
    array : Items → Value
    dict : Fields → Value
    foreign : ℕ → Value

  pub data Items : Type 0 where
    nil : Items
    cons : Value → Items → Items

  pub data Fields : Type 0 where
    end : Fields
    field : Key → Value → Fields → Fields

unfoldable pub list_of : Items → List Value
list_of nil = []
list_of (cons x xs) = x ∷ list_of xs

unfoldable pub items_of : List Value → Items
items_of [] = nil
items_of (x ∷ xs) = cons x (items_of xs)

-- `isinstance(key, str)` of every key, and the copy that both readers of mappings make: the keys of
-- a dict are distinct, so the copy has its entries in its order.
unfoldable pub string_entries : Fields → Option (List (Text × Value))
string_entries end = some []
string_entries (field (name k) v fs) = Option.map (λ d. (k, v) ∷ d) (string_entries fs)
string_entries (field (other_key _) v fs) = none

unfoldable pub fields_of : List (Text × Value) → Fields
fields_of [] = end
fields_of ((k, v) ∷ d) = field (name k) v (fields_of d)

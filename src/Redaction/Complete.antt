-- ===== src/Redaction/Complete.antt =====
-- What is left of structured data after its redaction.
use bitaxe_fleet.Prelude.{◌≡◌, refl, Bool, true, false, List, [], ◌∷◌, if◌then◌else◌}
use bitaxe_fleet.Python.Text.{Text}
use bitaxe_fleet.Python.Value.{
  name, other_key, Value, null, boolean, int, float, str, array, dict, foreign, Items, nil, cons,
  Fields, end, field,
}
use bitaxe_fleet.Python.Library.{Library}
use bitaxe_fleet.Redaction.{
  redact_text, is_sensitive_key, redacted_mark, redact_data, redact_items, redact_fields,
}

-- The names of a mapping's fields, in order.
pub names : Fields → List Text
names end = []
names (field (name k) v fs) = k ∷ names fs
names (field (other_key _) v fs) = names fs

module _ (lib : Library) where
  mutual
    -- Free text has been through the redaction of text, a sensitive field holds the mark, at every depth,
    -- and no field has a key of another kind.
    pub IsRedacted : Value → Type 0
    IsRedacted (str s) = (t : Text) × (s ≡ redact_text lib t)
    IsRedacted (array xs) = AreRedacted xs
    IsRedacted (dict fs) = AreRedactedFields fs
    IsRedacted _ = Unit

    pub AreRedacted : Items → Type 0
    AreRedacted nil = Unit
    AreRedacted (cons x xs) = IsRedacted x × AreRedacted xs

    pub AreRedactedFields : Fields → Type 0
    AreRedactedFields end = Unit
    AreRedactedFields (field (name k) v fs) =
        (if is_sensitive_key lib k then v ≡ str redacted_mark else IsRedacted v)
        × AreRedactedFields fs
    AreRedactedFields (field (other_key _) v fs) = ⊥

  marked :
      (b : Bool) (v : Value)
      → IsRedacted v
      → (if b
          then (if b then str redacted_mark else v) ≡ str redacted_mark
          else IsRedacted (if b then str redacted_mark else v))
  marked true v h = refl
  marked false v h = h

  mutual
    unfolding IsRedacted AreRedacted AreRedactedFields redact_data redact_items redact_fields

    redacted : (v : Value) → IsRedacted (redact_data lib v)
    redacted (str s) = (s, refl)
    redacted (array xs) = redacted_items xs
    redacted (dict fs) = redacted_fields fs
    redacted null = tt
    redacted (boolean b) = tt
    redacted (int n) = tt
    redacted (float x) = tt
    redacted (foreign n) = tt

    redacted_items : (xs : Items) → AreRedacted (redact_items lib xs)
    redacted_items nil = tt
    redacted_items (cons x xs) = (redacted x, redacted_items xs)

    redacted_fields : (fs : Fields) → AreRedactedFields (redact_fields lib fs)
    redacted_fields end = tt
    redacted_fields (field (name k) v fs) =
        (marked (is_sensitive_key lib k) (redact_data lib v) (redacted v), redacted_fields fs)
    redacted_fields (field (other_key _) v fs) = redacted_fields fs

  names-redact_fields : (fs : Fields) → names (redact_fields lib fs) ≡ names fs
  unfolding names redact_fields
  names-redact_fields end = refl
  names-redact_fields (field (name k) v fs) = rw (names-redact_fields fs) refl
  names-redact_fields (field (other_key _) v fs) = names-redact_fields fs

  -- In a redacted mapping every text, at every depth, is the redaction of a text or the mark, every field
  -- under a sensitive name holds the mark, every key is a text, and the names are the same as before, in
  -- their order.
  pub redact_fields-IsRedacted :
      (fs : Fields)
      → AreRedactedFields (redact_fields lib fs) × (names (redact_fields lib fs) ≡ names fs)
  redact_fields-IsRedacted fs = (redacted_fields fs, names-redact_fields fs)

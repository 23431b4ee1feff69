-- ===== src/Redaction.antt =====
-- redaction.py: the redaction of free text and of structured data. The five `re` patterns are the
-- library's: a pattern's `sub` is an argument.
pub mod Complete
pub mod Tests
use bitaxe_fleet.Prelude.{
  Bool, true, false, not, ◌&&◌, ◌||◌, List, [], ◌∷◌, ◌++◌, if◌then◌else◌, ◌==◌, length, ℕ,
}
use bitaxe_fleet.Python.Text.{Text, codes, without}
use bitaxe_fleet.Python.Value.{
  Key, name, other_key, Value, null, boolean, int, float, str, array, dict, foreign, Items, nil,
  cons, Fields, end, field,
}
use bitaxe_fleet.Python.Library.{
  Library, ipv4_pattern, mac_pattern, url_pattern, secret_assignment_pattern,
  bitcoin_address_pattern,
}

-- `redact_text`, each pass over what the one before it left
unfoldable pub redact_text : Library → Text → Text
redact_text lib value =
    let s1 = lib.sub url_pattern (codes "**REDACTED_URL**") value in
    let s2 = lib.sub secret_assignment_pattern (codes "**REDACTED_SECRET**") s1 in
    let s3 = lib.sub mac_pattern (codes "**REDACTED_MAC**") s2 in
    let s4 = lib.sub bitcoin_address_pattern (codes "**REDACTED_WALLET**") s3 in
    lib.sub ipv4_pattern (codes "**REDACTED_IP**") s4

-- `part in text`
starts_with : Text → Text → Bool
starts_with [] s = true
starts_with (c ∷ p) [] = false
starts_with (c ∷ p) (d ∷ s) = c == d && starts_with p s

pub contains_text : Text → Text → Bool
unfolding starts_with
contains_text p [] = starts_with p []
contains_text p (c ∷ s) = starts_with p (c ∷ s) || contains_text p s

abbrev pub sensitive_key_parts : List Text
sensitive_key_parts =
    codes "address"
    ∷ codes "certificate"
    ∷ codes "credential"
    ∷ codes "hostname"
    ∷ codes "ip"
    ∷ codes "mac"
    ∷ codes "password"
    ∷ codes "pool"
    ∷ codes "secret"
    ∷ codes "ssid"
    ∷ codes "token"
    ∷ codes "url"
    ∷ codes "user"
    ∷ codes "wallet"
    ∷ codes "wifi"
    ∷ []

any_part : List Text → Text → Bool
any_part [] s = false
any_part (p ∷ ps) s = contains_text p s || any_part ps s

-- `_is_sensitive_key`
pub is_sensitive_key : Library → Text → Bool
unfolding any_part contains_text
is_sensitive_key lib key = any_part sensitive_key_parts (without 95 (lib.lower_text key))

abbrev pub redacted_mark : Text
redacted_mark = codes "**REDACTED**"

module _ (lib : Library) where
  mutual
    -- `redact_data`; a `bytes` value is no `str`, list or mapping here
    pub redact_data : Value → Value
    redact_data (dict fs) = dict (redact_fields fs)
    redact_data (str s) = str (redact_text lib s)
    redact_data (array xs) = array (redact_items xs)
    redact_data null = null
    redact_data (boolean b) = boolean b
    redact_data (int n) = int n
    redact_data (float x) = float x
    redact_data (foreign n) = foreign n

    pub redact_items : Items → Items
    redact_items nil = nil
    redact_items (cons x xs) = cons (redact_data x) (redact_items xs)

    -- a key that is no `str` is dropped
    pub redact_fields : Fields → Fields
    redact_fields end = end
    redact_fields (field (name k) v fs) =
        field (name k) (if is_sensitive_key lib k then str redacted_mark else redact_data v)
          (redact_fields fs)
    redact_fields (field (other_key _) v fs) = redact_fields fs

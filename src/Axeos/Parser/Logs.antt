-- ===== src/Axeos/Parser/Logs.antt =====
-- axeos/parser.py: `parse_system_logs`, which keeps whole lines and whole characters of a long log.
use bitaxe_fleet.Prelude.{
  ℕ, ◌-◌, Bool, false, ◌||◌, Option, none, some, [], ◌∷◌, if◌then◌else◌, ltb, leb, ◌==◌, length,
  drop,
}
use bitaxe_fleet.Python.Text.{Text, codes}
use bitaxe_fleet.Python.Value.{Value, str}
use bitaxe_fleet.Python.Utf8.{Bytes, encode, decode_ignore}
use bitaxe_fleet.Axeos.Errors.{invalid_response, Result, ok, err, ◌>>=◌, or_raise}
use bitaxe_fleet.Axeos.Models.{MinerLogs}

-- `_SYSTEM_LOGS_OPERATION`
abbrev pub system_logs_operation : Text
system_logs_operation = codes "system logs"

abbrev pub max_log_bytes : ℕ
max_log_bytes = 1048576

-- `MAX_AXEOS_LOG_TEXT_BYTES`
abbrev pub max_log_text_bytes : ℕ
max_log_text_bytes = 65536

-- `c in text` of one character
unfoldable pub has_char : ℕ → Text → Bool
has_char c [] = false
has_char c (d ∷ s) = d == c || has_char c s

-- `tail[newline + 1 :]` behind `tail.find(b"\n")`, if there is a newline
unfoldable pub after_newline : Bytes → Option Bytes
after_newline [] = none
after_newline (b ∷ r) = let rest = after_newline r in if b == 10 then some r else rest

abbrev pub or_whole : Option Bytes → Bytes → Bytes
or_whole none tail = tail
or_whole (some rest) tail = rest

-- `_log_tail` of the encoded payload
unfoldable pub log_tail : Bytes → Text
unfolding after_newline
log_tail encoded =
    let tail = drop (length encoded - max_log_text_bytes) encoded in
    decode_ignore (or_whole (after_newline tail) tail)

unfoldable pub logs_of : Text → Bytes → Result MinerLogs
unfolding log_tail
logs_of payload encoded =
    if ltb max_log_bytes (length encoded)
    then err (invalid_response system_logs_operation (codes "response is too large"))
    else if leb (length encoded) max_log_text_bytes
    then ok (record { text = payload })
    else ok (record { text = log_tail encoded })

unfoldable pub parse_system_logs : Value → Result MinerLogs
unfolding has_char logs_of
parse_system_logs (str payload) =
    if has_char 0 payload
    then err (invalid_response system_logs_operation (codes "invalid text"))
    else (or_raise (encode payload) (invalid_response system_logs_operation (codes "invalid text"))
        >>= logs_of payload)
parse_system_logs _ = err (invalid_response system_logs_operation (codes "expected text"))

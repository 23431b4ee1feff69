-- ===== src/Redaction/Tests.antt =====
-- A mapping with nested secrets, and the theorem of the redaction at it.
use bitaxe_fleet.Prelude.{◌≡◌, pos}
use bitaxe_fleet.Python.Text.{codes}
use bitaxe_fleet.Python.Value.{int, str, dict, array, Fields, field, end, name, cons, nil}
use bitaxe_fleet.Python.Tests.{plain_library}
use bitaxe_fleet.Redaction.{redact_fields}
use bitaxe_fleet.Redaction.Complete.{AreRedactedFields, names, redact_fields-IsRedacted}

abbrev report : Fields
report = field (name (codes "wifi_password")) (str (codes "hunter2")) (
    field (name (codes "miners"))
      (array (
        cons
          (dict (
            field (name (codes "ip_address")) (str (codes "10.0.0.1"))
              (field (name (codes "count")) (int (pos 3)) end)))
          nil))
      end)

redact_fields-IsRedacted_example :
    AreRedactedFields plain_library (redact_fields plain_library report)
    × (names (redact_fields plain_library report) ≡ names report)
redact_fields-IsRedacted_example = redact_fields-IsRedacted plain_library report

-- ===== src/Storage/Serialize.antt =====
-- storage.py: the closed JSON shape that is written, field by field in the order of the source.
use bitaxe_fleet.Prelude.{
  Bool, true, false, ◌&&◌, ◌||◌, Option, none, some, List, [], ◌∷◌, ltb, ◌==◌, if◌then◌else◌, pos,
}
use bitaxe_fleet.Python.Text.{Text, codes}
use bitaxe_fleet.Python.Value.{
  Value, null, boolean, int, float, str, array, dict, Fields, name, end, field, Items, nil, cons,
}
use bitaxe_fleet.Python.Dict.{Dict}
use bitaxe_fleet.Python.Library.{Library}
use bitaxe_fleet.Axeos.Models.{
  RecoveryProfile, RecoveryPolicy, OverheatPolicy, keep_safe_values, restore_after_cooldown,
  log_only, EnrolledMiner,
}
use bitaxe_fleet.Axeos.Parser.Address.{address_text}
use bitaxe_fleet.Storage.State.{FleetIncident, IdSet, MinerRegistry}

abbrev pub text_or_null : Option Text → Value
text_or_null none = null
text_or_null (some s) = str s

-- The fields of a JSON object that follow one another.
infixr 60 ◌⦂◌
abbrev pub ◌⦂◌ : Text × Value → Fields → Fields
(k, v) ⦂ fs = field (name k) v fs

-- `_serialize_profile`
unfoldable pub serialize_profile : Option RecoveryProfile → Value
serialize_profile none = null
serialize_profile (some p) = dict (
    (codes "automatic_fan_speed", boolean p.automatic_fan_speed)
    ⦂ (codes "core_voltage_mv", int p.core_voltage_mv)
    ⦂ (codes "frequency_mhz", float p.frequency_mhz)
    ⦂ (codes "minimum_fan_speed_percent", int p.minimum_fan_speed_percent)
    ⦂ (codes "overclock_enabled", boolean p.overclock_enabled)
    ⦂ (codes "target_temperature_c", int p.target_temperature_c)
    ⦂ end)

-- `OverheatPolicy.value`
unfoldable pub overheat_value : OverheatPolicy → Text
overheat_value keep_safe_values = codes "keep_safe_values"
overheat_value restore_after_cooldown = codes "restore_after_cooldown"
overheat_value log_only = codes "log_only"

-- `_serialize_policy`
unfoldable pub serialize_policy : RecoveryPolicy → Value
serialize_policy p = dict (
    (codes "automatic_profile_restore_enabled", boolean p.automatic_profile_restore_enabled)
    ⦂ (codes "automatic_recovery_enabled", boolean p.automatic_recovery_enabled)
    ⦂ (codes "consecutive_unhealthy_required", int (pos p.consecutive_unhealthy_required))
    ⦂ (codes "cooldown_seconds", int (pos p.cooldown_seconds))
    ⦂ (codes "max_attempts", int (pos p.max_attempts))
    ⦂ (codes "overheat_policy", str (overheat_value p.overheat_policy))
    ⦂ (codes "post_restart_timeout_seconds", int (pos p.post_restart_timeout_seconds))
    ⦂ (codes "rolling_window_seconds", int (pos p.rolling_window_seconds))
    ⦂ (codes "startup_grace_seconds", int (pos p.startup_grace_seconds))
    ⦂ (codes "verification_timeout_seconds", int (pos p.verification_timeout_seconds))
    ⦂ end)

-- `_serialize_incident`
unfoldable pub serialize_incident : Library → FleetIncident → Value
serialize_incident lib i = dict (
    (codes "cause", str i.cause)
    ⦂ (codes "detail", str i.detail)
    ⦂ (codes "incident_id", str i.incident_id)
    ⦂ (codes "miner_id", str i.miner_id)
    ⦂ (codes "occurred_at", str (lib.isoformat i.occurred_at))
    ⦂ (codes "outcome", str i.outcome)
    ⦂ end)

-- One record of `_serialize`.
unfoldable pub serialize_miner : EnrolledMiner → Value
serialize_miner m = dict (
    (codes "asic_model", text_or_null m.identity.asic_model)
    ⦂ (codes "board_version", text_or_null m.identity.board_version)
    ⦂ (codes "display_name", text_or_null m.display_name)
    ⦂ (codes "enabled", boolean m.enabled)
    ⦂ (codes "firmware_version", text_or_null m.identity.firmware_version)
    ⦂ (codes "host", str (address_text m.endpoint.host))
    ⦂ (codes "hostname", text_or_null m.identity.hostname)
    ⦂ (codes "miner_id", str m.identity.miner_id)
    ⦂ (codes "recovery_policy", serialize_policy m.recovery_policy)
    ⦂ (codes "recovery_profile", serialize_profile m.recovery_profile)
    ⦂ end)

unfoldable pub serialize_miners : Dict EnrolledMiner → Fields
serialize_miners [] = end
serialize_miners ((k, m) ∷ d) = field (name k) (serialize_miner m) (serialize_miners d)

unfoldable pub serialize_incidents : Library → List FleetIncident → Items
serialize_incidents lib [] = nil
serialize_incidents lib (i ∷ is) = cons (serialize_incident lib i) (serialize_incidents lib is)

-- `sorted` of texts, by code points
unfoldable pub text_lt : Text → Text → Bool
text_lt [] [] = false
text_lt [] (b ∷ t) = true
text_lt (a ∷ s) [] = false
text_lt (a ∷ s) (b ∷ t) = ltb a b || (a == b && text_lt s t)

unfoldable pub insert_sorted : Text → IdSet → IdSet
insert_sorted x [] = x ∷ []
insert_sorted x (y ∷ ys) = if text_lt y x then y ∷ insert_sorted x ys else x ∷ y ∷ ys

unfoldable pub sorted : IdSet → IdSet
sorted [] = []
sorted (x ∷ xs) = insert_sorted x (sorted xs)

unfoldable pub serialize_ids : IdSet → Items
serialize_ids [] = nil
serialize_ids (m ∷ s) = cons (str m) (serialize_ids s)

-- `MinerRegistry._serialize`
unfoldable pub serialize : Library → MinerRegistry → Value
serialize lib r = dict (
    (codes "incidents", array (serialize_incidents lib r.incidents))
    ⦂ (codes "miners", dict (serialize_miners r.miners))
    ⦂ (codes "rejected_candidates", array (serialize_ids (sorted r.rejected_candidates)))
    ⦂ (codes "schema_version", int (pos 2))
    ⦂ end)

-- ===== src/Storage/RoundTrip/Fields.antt =====
-- About the fields of a stored record.
use bitaxe_fleet.Prelude.{ℕ, ◌≡◌, refl, Option, none, some, arith}
use bitaxe_fleet.Python.Text.{Text, text_eq}
use bitaxe_fleet.Python.Value.{str, string_entries}
use bitaxe_fleet.Python.Dict.{lookup}
use bitaxe_fleet.Python.Library.{Library}
use bitaxe_fleet.Axeos.Errors.{ok}
use bitaxe_fleet.Axeos.Models.{
  RecoveryProfile, RecoveryPolicy, OverheatPolicy, keep_safe_values, restore_after_cooldown,
  log_only, IsBoundedPolicy,
}
use bitaxe_fleet.Axeos.Models.Bounds.{recovery_profile_accepts, recovery_policy_accepts}
use bitaxe_fleet.Axeos.Parser.Fields.{get}
use bitaxe_fleet.Storage.State.{validate_text}
use bitaxe_fleet.Storage.Serialize.{serialize_profile, serialize_policy, overheat_value}
use bitaxe_fleet.Storage.Deserialize.{
  as_string_mapping, overheat_policy_of, deserialize_profile, deserialize_policy, stored_float,
  stored_int, stored_bool,
}
use bitaxe_fleet.Storage.Storable.{IsStoredText, IsBoundedOption}

pub validate_text_keeps :
    (lib : Library) (s : Text) (limit : ℕ)
    → IsStoredText lib limit s
    → validate_text lib (str s) limit ≡ ok s
unfolding validate_text
validate_text_keeps lib s limit h = rw h.stripped (ground arith)

overheat_policy_of-value : (p : OverheatPolicy) → overheat_policy_of (overheat_value p) ≡ ok p
unfolding overheat_policy_of overheat_value text_eq
overheat_policy_of-value keep_safe_values = refl
overheat_policy_of-value restore_after_cooldown = refl
overheat_policy_of-value log_only = refl

pub deserialize-serialize_profile :
    (p : Option RecoveryProfile)
    → IsBoundedOption p
    → deserialize_profile (serialize_profile p) ≡ ok p
unfolding deserialize_profile serialize_profile as_string_mapping string_entries stored_float
    stored_int stored_bool get lookup text_eq
deserialize-serialize_profile none h = refl
deserialize-serialize_profile (some p) h = rw (h.is_number, recovery_profile_accepts p h)

pub deserialize-serialize_policy :
    (p : RecoveryPolicy) → IsBoundedPolicy p → deserialize_policy (serialize_policy p) ≡ ok p
unfolding deserialize_policy serialize_policy as_string_mapping string_entries stored_int
    stored_bool get lookup text_eq
deserialize-serialize_policy p h =
    rw (overheat_policy_of-value p.overheat_policy, recovery_policy_accepts p h)

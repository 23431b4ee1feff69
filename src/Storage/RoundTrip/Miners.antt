-- ===== src/Storage/RoundTrip/Miners.antt =====
-- About the miners in the document.
use bitaxe_fleet.Prelude.{◌≡◌, refl, true, false, Option, none, some, [], ◌∷◌, arith}
use bitaxe_fleet.Python.Text.{Text, codes, text_eq}
use bitaxe_fleet.Python.Value.{Value, boolean, str, string_entries}
use bitaxe_fleet.Python.Dict.{Dict, lookup}
use bitaxe_fleet.Python.Library.{Library}
use bitaxe_fleet.Axeos.Errors.{ok}
use bitaxe_fleet.Axeos.Models.{EnrolledMiner, default_policy}
use bitaxe_fleet.Axeos.Parser.Fields.{get}
use bitaxe_fleet.Axeos.Parser.Address.{address_text}
use bitaxe_fleet.Axeos.Parser.Address.RoundTrip.{parse_private_ipv4-address_text}
use bitaxe_fleet.Axeos.Parser.MinerId.Canonical.{normalize_miner_id_keeps}
use bitaxe_fleet.Storage.Serialize.{
  text_or_null, serialize_profile, serialize_policy, serialize_miner,
}
use bitaxe_fleet.Storage.Deserialize.{as_string_mapping, stored_bool_or_true, none_on_error}
use bitaxe_fleet.Storage.Load.{
  stored_optional_text, stored_optional_hostname, stored_base, stored_settings, deserialize_miner,
}
use bitaxe_fleet.Storage.Storable.{IsStoredOption, IsStoredHostname, IsStorableMiner}
use bitaxe_fleet.Storage.RoundTrip.Fields.{
  validate_text_keeps, deserialize-serialize_profile, deserialize-serialize_policy,
}

module _ (lib : Library) where
  stored_optional_text_keeps :
      (r : Dict Value) (key : Text) (o : Option Text)
      → get key r ≡ text_or_null o
      → IsStoredOption lib o
      → stored_optional_text lib r key ≡ ok o
  unfolding stored_optional_text
  stored_optional_text_keeps r key none e h = rw e
  stored_optional_text_keeps r key (some s) e h = rw (e, validate_text_keeps lib s 128 h)

  weaken : (o : Option Text) → IsStoredHostname lib o → IsStoredOption lib o
  weaken none h = tt
  weaken (some s) h = h.0

  stored_optional_hostname_keeps :
      (r : Dict Value) (o : Option Text)
      → get (codes "hostname") r ≡ text_or_null o
      → IsStoredHostname lib o
      → stored_optional_hostname lib r ≡ ok o
  unfolding stored_optional_hostname
  stored_optional_hostname_keeps r none e h =
      rw (stored_optional_text_keeps r (codes "hostname") none e tt)
  stored_optional_hostname_keeps r (some s) e h =
      rw (stored_optional_text_keeps r (codes "hostname") (some s) e h.0, h.1)

  -- The entries of one stored record.
  abbrev entries : EnrolledMiner → Dict Value
  entries m =
      (codes "asic_model", text_or_null m.identity.asic_model)
      ∷ (codes "board_version", text_or_null m.identity.board_version)
      ∷ (codes "display_name", text_or_null m.display_name)
      ∷ (codes "enabled", boolean m.enabled)
      ∷ (codes "firmware_version", text_or_null m.identity.firmware_version)
      ∷ (codes "host", str (address_text m.endpoint.host))
      ∷ (codes "hostname", text_or_null m.identity.hostname)
      ∷ (codes "miner_id", str m.identity.miner_id)
      ∷ (codes "recovery_policy", serialize_policy m.recovery_policy)
      ∷ (codes "recovery_profile", serialize_profile m.recovery_profile)
      ∷ []

  module _ (m : EnrolledMiner) (h : IsStorableMiner lib m) where
    stored_base_keeps :
        stored_base lib (entries m)
        ≡ ok (record m {
          endpoint = record { host = m.endpoint.host; port = 80 };
          display_name = none;
          enabled = true;
          recovery_profile = none;
          recovery_policy = default_policy;
        })
    unfolding stored_base get lookup text_eq
    stored_base_keeps =
        let i = h.identity_storable in
        rw (
          normalize_miner_id_keeps m.identity.miner_id i.identified,
          stored_optional_hostname_keeps (entries m) m.identity.hostname refl i.named,
          stored_optional_text_keeps (entries m) (codes "asic_model") m.identity.asic_model refl
              i.model,
          stored_optional_text_keeps (entries m) (codes "board_version") m.identity.board_version
              refl i.board,
          stored_optional_text_keeps (entries m) (codes "firmware_version")
              m.identity.firmware_version refl i.firmware,
          parse_private_ipv4-address_text m.endpoint.host h.endpoint_storable.local,
        )

    stored_settings_keeps :
        (base : EnrolledMiner)
        → stored_settings lib (entries m) base
          ≡ ok (record m { endpoint = base.endpoint; identity = base.identity })
    unfolding stored_settings stored_bool_or_true get lookup text_eq
    stored_settings_keeps base = rw (
      stored_optional_text_keeps (entries m) (codes "display_name") m.display_name refl
          h.name_storable,
      deserialize-serialize_profile m.recovery_profile h.profile_bounded,
      deserialize-serialize_policy m.recovery_policy h.policy_bounded,
    )

    -- One stored miner reads back as it was.
    pub deserialize-serialize_miner : deserialize_miner lib (serialize_miner m) false ≡ ok (some m)
    unfolding deserialize_miner serialize_miner as_string_mapping string_entries none_on_error
    deserialize-serialize_miner =
        rw (stored_base_keeps, stored_settings_keeps) (ground (arith, h.endpoint_storable.http))

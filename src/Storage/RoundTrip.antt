-- ===== src/Storage/RoundTrip.antt =====
-- About reading what `_serialize` writes.
mod Fields
mod Miners
pub mod Ids
mod Incidents
mod Document
pub use Document.{deserialize-serialize}
pub use Ids.{contains_id-add_id, contains_id-discard_id}
pub use Fields.{validate_text_keeps}
pub use Incidents.{last_items_all}

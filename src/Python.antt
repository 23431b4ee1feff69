-- ===== src/Python.antt =====
-- What the integration uses of the language and its standard library.
pub mod Text
pub mod Float
pub mod Value
pub mod Dict
pub mod Library
pub mod Utf8
pub mod Decimal
pub mod Tests

-- ===== src/Axeos/Parser.antt =====
-- axeos/parser.py: validation and normalization of untrusted responses.
pub mod Address
pub mod Fields
pub mod SystemInfo
pub mod Asic
pub mod Logs
pub mod MinerId

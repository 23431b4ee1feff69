-- ===== src/Axeos.antt =====
-- The AxeOS boundary: errors, domain models, the parsers of untrusted responses and the client.
pub mod Errors
pub mod Models
pub mod Parser
pub mod Client

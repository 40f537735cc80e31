-- ===== src/Tests.antt =====
-- Concrete databases and requests, and the theorems applied to them.
pub mod Store
pub mod Auth
pub mod Library
pub mod Server

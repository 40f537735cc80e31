-- ===== src/Core.antt =====
-- The frozen domain contract (backend/internal/core): the error values and the row types.
pub mod Errors
pub mod Types

-- ===== src/Auth.antt =====
-- backend/internal/auth: pairing codes, device tokens, the rate limiter and the bearer middleware.
pub mod ServerId
pub mod Middleware
pub mod Token
pub mod Limiter
pub mod Issue
pub mod Pairing

-- ===== src/Refresh.antt =====
-- Refresh tokens: internal/service/refresh_token.go, internal/store/postgres/refresh_token.go and
-- domain/refresh_token.go.
pub mod Defs
pub mod Store
pub mod Rotate
pub mod Transaction
pub mod OneActive
pub mod Reuse
pub mod SingleUse
pub mod Successor
pub mod Outcome
pub mod Revoked

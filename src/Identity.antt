-- ===== src/Identity.antt =====
-- The identity component: domain/identity.go.
pub mod Status
pub mod Lifecycle
pub mod Class
pub mod Model
pub mod SubTypes
pub mod Spiffe

-- ===== src/Credential.antt =====
-- The credential component: internal/service/credential.go.
pub mod Defs
pub mod Claims
pub mod Issue
pub mod Revoke
pub mod Cascade
pub mod Revoked
pub mod Rotated
pub mod Grant

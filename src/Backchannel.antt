-- ===== src/Backchannel.antt =====
-- CIBA requests: internal/service/backchannel.go, internal/store/postgres/backchannel_request.go and
-- domain/backchannel_auth.go.
pub mod Notify
pub mod Attempts
pub mod Retry
pub mod Defs
pub mod Store
pub mod Issue
pub mod Resolve
pub mod Statements
pub mod Claim
pub mod Stamped
pub mod Once
pub mod Guards
pub mod Moves
pub mod Dispatch
pub mod Calls

-- ===== src/Tests.antt =====
-- Runs of the definitions on concrete data, and the theorems applied to it.
pub mod Refresh
pub mod Backchannel
pub mod Credential
pub mod Policy
pub mod Identity
pub mod OAuth
pub mod Sessions
pub mod Revocation
pub mod Delegation
pub mod Deletion
pub mod Keys

-- ===== src/OAuth.antt =====
-- The grants of internal/service/oauth.go with internal/service/authcode.go and internal/jwtalg.
pub mod Defs
pub mod Step
pub mod Lookup
pub mod Agent
pub mod Exchange
pub mod External
pub mod Key
pub mod AuthCode
pub mod CodeGrant
pub mod RefreshGrant
pub mod Endpoint
pub mod Issuance
pub mod Delegation
pub mod Delegated
pub mod Keeps
pub mod GrantKeeps
pub mod TokenKeeps
pub mod SingleUse
pub mod CodeIssued
pub mod CodeExchange
pub mod KeyScopes
pub mod KeyLayers
pub mod KeyGrant
pub mod Renewal
pub mod Revocation

-- ===== src/Credential/Grant.antt =====
-- What is known of every credential that `IssueCredential` issues.
pub mod Stages
pub mod Authority
pub mod Bounds
pub mod Token
pub mod Lookup

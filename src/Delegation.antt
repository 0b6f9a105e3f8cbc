-- ===== src/Delegation.antt =====
-- internal/service/delegation.go: the delegation graph of an identity and the lineage of a token.
pub mod Graph
pub mod Merged
pub mod Explored
pub mod Attenuation

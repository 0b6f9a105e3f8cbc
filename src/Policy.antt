-- ===== src/Policy.antt =====
-- The policy component: credential policies and their enforcement.
pub mod Defs
pub mod Enforce
pub mod Permits
pub mod Subset
pub mod Admin
pub mod Default
pub mod Ensured
pub mod Delete
pub mod Detached

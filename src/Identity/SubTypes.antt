-- ===== src/Identity/SubTypes.antt =====
-- Which sub-types belong to which identity type.
use zeroid.Prelude.{◌≡◌, ◌≢◌, true, arith}
use zeroid.Identity.Class.{IdentityType, mcp_server, SubType, valid_type, valid_for_identity_type}

-- A sub-type other than "" is accepted for at most one identity type; that type is one of the
-- valid ones and is never `mcp_server`.
pub valid_for_identity_type_unique :
    (s : SubType) (t u : IdentityType)
    → s ≢ SubType.unset
    → valid_for_identity_type s t ≡ true
    → valid_for_identity_type s u ≡ true
    → (t ≡ u) × (valid_type t ≡ true) × (t ≢ mcp_server)
unfolding valid_for_identity_type valid_type
valid_for_identity_type_unique s t u n h k = ground arith

-- ===== src/Identity/Model.antt =====
-- domain/identity.go: the row of an identity. JSON documents and PEM blocks are their text; a time is
-- a number of nanoseconds.
use zeroid.Prelude.{ℕ, String, Option, List}
use zeroid.Identity.Status.{IdentityStatus}
use zeroid.Identity.Class.{IdentityType, SubType, TrustLevel}

-- `Identity`
pub record Identity : Type 0 where
  pub id : String
  pub account_id : String
  pub project_id : String
  pub external_id : String
  pub name : String
  pub wimse_uri : String
  pub identity_type : IdentityType
  pub sub_type : SubType
  pub trust_level : TrustLevel
  pub status : IdentityStatus
  pub owner_user_id : String
  pub credential_policy_id : String
  pub allowed_scopes : List String
  pub public_key_pem : String
  pub framework : String
  pub version : String
  pub publisher : String
  pub description : String
  pub capabilities : String
  pub labels : String
  pub metadata : String
  pub capability_tier : String
  pub risk_tier : String
  pub ial : String
  pub expires_at : Option ℕ
  pub created_by : String
  pub modified_by : String
  pub created_at : ℕ
  pub updated_at : ℕ

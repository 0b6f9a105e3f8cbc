-- ===== src/Credential/Defs.antt =====
-- The data of internal/service/credential.go and domain/credential.go. Go's `time.Time` is a number of
-- nanoseconds, an `int` is an integer, and what the call takes from outside (the clock, the random
-- identifiers, the outcome of the insert) is a record of arguments.
use zeroid.Prelude.{
  ℕ, suc, ◌-◌, ◌+◌, ◌*◌, String, Bool, false, Option, none, List, [], ◌∷◌, ◌==◌, ◌&&◌, not,
  if◌then◌else◌,
}
use zeroid.Prelude.Int.{ℤ, pos, negsuc, lt_int}
use zeroid.Identity.Model.{Identity}
use zeroid.Policy.Defs.{CredentialPolicy, AttestationLevel, attestation_level_rank}
use zeroid.Policy.Enforce.{Violation}

-- `IssuedCredential`
pub record IssuedCredential : Type 0 where
  pub id : String
  pub identity_id : Option String
  pub account_id : String
  pub project_id : String
  pub jti : String
  pub subject : String
  pub issued_at : ℕ
  pub expires_at : ℕ
  pub ttl_seconds : ℤ
  pub scopes : List String
  pub is_revoked : Bool
  pub revoked_at : Option ℕ
  pub revoke_reason : String
  pub grant_type : String
  pub delegation_depth : ℤ
  pub parent_jti : String
  pub delegated_by_wimse_uri : String
  pub mission_id : String
  pub dpop_key_thumbprint : String

-- The value of a claim in a JWT.
pub data Claim : Type 0 where
  text : String → Claim
  texts : List String → Claim
  time : ℕ → Claim
  number : ℤ → Claim
  entry : String → String → Claim
  json : String → Claim

abbrev pub Claims : Type 0
Claims = List (String × Claim)

-- `IssueRequest`; `custom_claims` lists the entries of the Go map
pub record IssueRequest : Type 0 where
  pub identity : Option Identity
  pub identity_policy_id : String
  pub credential_policy_id : String
  pub scopes : List String
  pub ttl : ℤ
  pub grant_type : String
  pub audience : List String
  pub delegated_by : String
  pub parent_jti : String
  pub delegation_depth : ℤ
  pub use_rs256 : Bool
  pub application_id : String
  pub subject_override : String
  pub acting_user_id : String
  pub user_email : String
  pub user_name : String
  pub custom_claims : Claims
  pub credential_expires_at : Option ℕ
  pub mission_id : String
  pub dpop_key_thumbprint : String

-- `AccessToken` of domain/token.go; `issued_at` is in seconds
pub record AccessToken : Type 0 where
  pub access_token : String
  pub token_type : String
  pub expires_in : ℤ
  pub scope : String
  pub jti : String
  pub issued_at : ℕ
  pub account_id : String
  pub project_id : String
  pub external_id : String
  pub user_id : String
  pub refresh_token : String
  pub authorization_details : String

-- The columns of an attestation record that `GetHighestVerifiedLevel` reads.
pub record AttestationRecord : Type 0 where
  pub identity_id : String
  pub level : AttestationLevel
  pub is_verified : Bool
  pub is_expired : Bool

-- `GetHighestVerifiedLevel`: the level of greatest rank among the rows selected, "" if there is none
unfoldable pub highest_verified_level : String → List AttestationRecord → AttestationLevel
highest_verified_level identity [] = AttestationLevel.unset
highest_verified_level identity (r ∷ rs) =
    let best = highest_verified_level identity rs in
    if (r.identity_id == identity && r.is_verified && not r.is_expired)
      && not (lt_int (attestation_level_rank r.level) (attestation_level_rank best))
    then r.level
    else best

-- `CredentialService` with the rows that its repositories read. `sign` is the JWT library with the
-- server's keys: RS256 if the flag is set, ES256 if not; `none` is an error.
pub record CredentialService : Type 0 where
  pub issuer : String
  pub default_ttl : ℤ
  pub max_ttl : ℤ
  pub has_rsa_keys : Bool
  pub sign : Bool → Claims → Option String
  pub policies : Option (List CredentialPolicy)
  pub attestations : Option (List AttestationRecord)

-- One call's readings of the clock, in the order of the source, its identifiers, and whether the
-- database takes the insert (a violated key apart).
pub record Call : Type 0 where
  pub checked_at : ℕ
  pub clamped_at : ℕ
  pub enforced_at : ℕ
  pub key_enforced_at : ℕ
  pub issued_at : ℕ
  pub credential_id : String
  pub jti : String
  pub stored : Bool

pub data IssueError : Type 0 where
  identity_required identity_not_usable identity_expired credential_expired : IssueError
  scopes_not_allowed policy_not_found sign_failed persist_failed : IssueError
  policy_violation : Violation → IssueError
  not_found already_revoked revoke_failed : IssueError

abbrev pub second : ℕ
second = 1000000000

-- `t.Add(time.Duration(ttl) * time.Second)`, for times not before the epoch
abbrev pub add_seconds : ℕ → ℤ → ℕ
add_seconds t (pos n) = t + n * second
add_seconds t (negsuc n) = t - suc n * second

-- `IssueRequest{}`
abbrev pub zero_request : IssueRequest
zero_request = record {
  identity = none;
  identity_policy_id = "";
  credential_policy_id = "";
  scopes = [];
  ttl = pos 0;
  grant_type = "";
  audience = [];
  delegated_by = "";
  parent_jti = "";
  delegation_depth = pos 0;
  use_rs256 = false;
  application_id = "";
  subject_override = "";
  acting_user_id = "";
  user_email = "";
  user_name = "";
  custom_claims = [];
  credential_expires_at = none;
  mission_id = "";
  dpop_key_thumbprint = "";
}

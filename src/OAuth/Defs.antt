-- ===== src/OAuth/Defs.antt =====
-- The data of internal/service/oauth.go, internal/service/authcode.go, domain/token.go, domain/apikey.go and
-- domain/auth_code.go. The columns and claims that no grant reads are left out of the rows.
use zeroid.Prelude.{ℕ, String, Bool, Option, List}
use zeroid.Prelude.Int.{ℤ}
use zeroid.Prelude.Result.{Result}
use zeroid.Identity.Model.{Identity}
use zeroid.Identity.Spiffe.{Text}
use zeroid.Policy.Defs.{CredentialPolicy}
use zeroid.Credential.Defs.{
  IssuedCredential, Claims, AccessToken, CredentialService, Call, IssueError,
}
use zeroid.Refresh.Defs.{RefreshToken}
use zeroid.Refresh.Rotate.{IssueCall, RotateCall}
use zeroid.Backchannel.Defs.{Requests, ResolveCall, BackchannelError}

-- The errors by their code; the descriptions are left out. `issuance` and `ciba` pass on another service's error.
pub data OAuthError : Type 0 where
  invalid_request invalid_grant unauthorized_client unsupported_grant_type : OAuthError
  invalid_scope invalid_client server_error invalid_dpop_proof : OAuthError
  issuance : IssueError → OAuthError
  ciba : BackchannelError → OAuthError
  custom : String → OAuthError

-- `TokenRequest`
pub record TokenRequest : Type 0 where
  pub grant_type : String
  pub client_id : String
  pub client_secret : String
  pub scope : String
  pub account_id : String
  pub project_id : String
  pub subject : String
  pub api_key : String
  pub subject_token : String
  pub subject_token_type : String
  pub actor_token : String
  pub user_id : String
  pub user_email : String
  pub user_name : String
  pub application_id : String
  pub additional_claims : Claims
  pub code : String
  pub code_verifier : String
  pub redirect_uri : String
  pub refresh_token_str : String
  pub auth_req_id : String
  pub dpop_key_thumbprint : String

-- `OAuthClient`
pub record OAuthClient : Type 0 where
  pub client_id : String
  pub client_secret : String
  pub client_type : String
  pub grant_types : List String
  pub scopes : List String
  pub access_token_ttl : ℤ
  pub refresh_token_ttl : ℤ
  pub identity_id : Option String
  pub is_active : Bool

-- `APIKey`; `identity_id` and `credential_policy_id` are "" for NULL
pub record ApiKey : Type 0 where
  pub id : String
  pub key_hash : String
  pub account_id : String
  pub project_id : String
  pub identity_id : String
  pub created_by : String
  pub scopes : List String
  pub expires_at : Option ℕ
  pub state : String
  pub credential_policy_id : String

-- `AuthCode`
pub record AuthCode : Type 0 where
  pub jti : String
  pub client_id : String
  pub account_id : String
  pub project_id : String
  pub credential_jti : Option String
  pub refresh_family_id : Option String
  pub expires_at : ℕ

-- `AuthCodeClaims`
pub record AuthCodeClaims : Type 0 where
  pub jti : String
  pub expires_at : ℕ
  pub client_id : String
  pub code_challenge : String
  pub redirect_uri : String
  pub scopes : List String
  pub user_id : String
  pub org_id : String
  pub account_id : String
  pub project_id : String

-- What the code reads of a token of the JWT library; a missing text is "", and `delegation_depth` is already
-- cut to an integer.
pub record ParsedToken : Type 0 where
  pub issuer : String
  pub subject : Option String
  pub jwt_id : String
  pub expiration : Option ℕ
  pub delegation_depth : Option ℤ
  pub mission_id : Option String
  pub cid : String
  pub cc : String
  pub ruri : String
  pub scp : List String
  pub uid : String
  pub oid : String
  pub aid : String
  pub pid : String

-- A key as `x509.ParsePKIXPublicKey` gives it.
pub data PublicKey : Type 0 where
  ecdsa : String → String → PublicKey
  other : PublicKey

-- The libraries that the grants call; `none` is an error. `header_alg` decodes the first part of a compact
-- token, `parse_signed` checks the server's signature and, if the flag is set, the times,
-- `parse_assertion` verifies with a key and an audience, `parse_code` with the shared secret.
pub record Libraries : Type 0 where
  pub header_alg : String → Option String
  pub parse_insecure : String → Option ParsedToken
  pub parse_signed : Bool → String → Option ParsedToken
  pub parse_assertion : PublicKey → String → String → Option ParsedToken
  pub parse_code : String → String → Option ParsedToken
  pub decode_pem : String → Option String
  pub parse_public_key : String → Option PublicKey
  pub sha256_hex : String → String
  pub sha256_base64 : String → String
  pub compare_secret : String → String → Bool
  pub replace_first : String → String → String → String
  pub bytes : String → Text
  pub of_bytes : Text → String

-- The tables that the grants write; `policies` is `none` without a policy service.
pub record World : Type 0 where
  pub policies : Option (List CredentialPolicy)
  pub credentials : List IssuedCredential
  pub refresh_tokens : List RefreshToken
  pub auth_codes : List AuthCode
  pub requests : Requests

-- One call's readings of the clock, the outcomes of its statements, and what the services that it calls take.
pub record GrantCall : Type 0 where
  pub client_read : Bool
  pub identity_read : Bool
  pub policy_read : Bool
  pub policy_id : String
  pub policy_now : ℕ
  pub policy_stored : Bool
  pub policy_reread : Bool
  pub identity_now : ℕ
  pub key_read : Bool
  pub key_now : ℕ
  pub key_policy_read : Bool
  pub credential_read : Bool
  pub introspected_at : ℕ
  pub consume_runs : Bool
  pub code_read : Bool
  pub revoke_runs : Bool
  pub revoked_at : ℕ
  pub family_runs : Bool
  pub family_at : ℕ
  pub update_runs : Bool
  pub issue : Call
  pub refresh : IssueCall
  pub rotate : RotateCall
  pub resolve : ResolveCall

-- `OAuthService`, with the tables that the grants only read. `trusted` is the validator: `some none` refuses.
pub record OAuthService : Type 0 where
  pub credential : CredentialService
  pub lib : Libraries
  pub identities : List Identity
  pub clients : List OAuthClient
  pub api_keys : List ApiKey
  pub issuer : String
  pub wimse_domain : String
  pub hmac_secret : String
  pub auth_code_issuer : String
  pub trusted : Option (Option String)
  pub has_refresh : Bool
  pub min_poll : Option ℕ
  pub custom_grants : String → Option (TokenRequest → World → Result OAuthError AccessToken × World)

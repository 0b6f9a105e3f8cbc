-- ===== src/OAuth/External.antt =====
-- `ExternalPrincipalExchange` of internal/service/oauth.go.
use zeroid.Prelude.{
  String, true, none, some, List, [], ◌∷◌, ◌==◌, ◌||◌, not, contains, if◌then◌else◌,
}
use zeroid.Prelude.Int.{pos}
use zeroid.Prelude.Result.{Result, ok, err}
use zeroid.Identity.Status.{IdentityStatus}
use zeroid.Identity.Class.{IdentityType, SubType, TrustLevel}
use zeroid.Identity.Model.{Identity}
use zeroid.Credential.Defs.{text, Claims, IssueRequest, zero_request, AccessToken}
use zeroid.Credential.Issue.{Issued}
use zeroid.Scope.{parse_scope_string}
use zeroid.OAuth.Defs.{
  invalid_request, invalid_grant, server_error, TokenRequest, OAuthService, GrantCall, OAuthError,
  World,
}
use zeroid.OAuth.Step.{Step, done, check, need, ◌>>=◌, ◌>>◌}
use zeroid.OAuth.Lookup.{identity_by, gate, resolve_credential_policy, issue}

-- `reservedClaims`
abbrev pub reserved_claims : List String
reserved_claims =
    "iss" ∷ "sub" ∷ "aud" ∷ "exp" ∷ "nbf" ∷ "iat" ∷ "jti" ∷ "account_id" ∷ "project_id" ∷ "user_id"
    ∷ "owner_user_id" ∷ "external_id" ∷ "identity_type" ∷ "sub_type" ∷ "trust_level" ∷ "status"
    ∷ "name" ∷ "framework" ∷ "version" ∷ "publisher" ∷ "capabilities" ∷ "scopes" ∷ "grant_type"
    ∷ "delegation_depth" ∷ "user_email" ∷ "user_name" ∷ "act" ∷ "token_exchange" ∷ "trusted_by"
    ∷ "cnf" ∷ []

unfoldable pub drop_reserved : Claims → Claims
drop_reserved [] = []
drop_reserved ((k, v) ∷ more) =
    let rest = drop_reserved more in if contains reserved_claims k then rest else (k, v) ∷ rest

unfoldable pub principal_claims : String → Claims → Claims
principal_claims service extra =
    ("token_exchange", text "external_principal")
    ∷ ("trusted_by", text service)
    ∷ drop_reserved extra

-- `&domain.Identity{AccountID, ProjectID, Status: active}`
unfoldable pub synthetic_identity : IdentityType → String → String → Identity
synthetic_identity kind account project = record {
  id = "";
  account_id = account;
  project_id = project;
  external_id = "";
  name = "";
  wimse_uri = "";
  identity_type = kind;
  sub_type = SubType.unset;
  trust_level = TrustLevel.unset;
  status = IdentityStatus.active;
  owner_user_id = "";
  credential_policy_id = "";
  allowed_scopes = [];
  public_key_pem = "";
  framework = "";
  version = "";
  publisher = "";
  description = "";
  capabilities = "";
  labels = "";
  metadata = "";
  capability_tier = "";
  risk_tier = "";
  ial = "";
  expires_at = none;
  created_by = "";
  modified_by = "";
  created_at = 0;
  updated_at = 0;
}

-- the identity that the application names, gated; a failing query and a missing row differ in the code
unfoldable pub application_identity : OAuthService → GrantCall → TokenRequest → Step Identity
application_identity s call req = do
  check call.identity_read server_error
  i ←
      need (identity_by s call (λ j. j.id) req.application_id req.account_id req.project_id)
        invalid_request
  gate call i
  done i

unfoldable pub principal_identity : OAuthService → GrantCall → TokenRequest → Step Identity
principal_identity s call req =
    if req.application_id == ""
    then done (synthetic_identity IdentityType.service req.account_id req.project_id)
    else application_identity s call req

-- the id of the identity's policy, "" for an identity without a row
unfoldable pub policy_id_of : GrantCall → Identity → Step String
policy_id_of call i =
    if i.id == "" then done "" else resolve_credential_policy call i >>= λ p. done p.id

unfoldable pub principal_request : TokenRequest → String → Identity → String → IssueRequest
principal_request req service i policy = record zero_request {
  identity = some i;
  identity_policy_id = policy;
  grant_type = "token_exchange";
  scopes = parse_scope_string req.scope;
  use_rs256 = true;
  subject_override = req.user_id;
  user_email = req.user_email;
  user_name = req.user_name;
  application_id = req.application_id;
  ttl = pos 900;
  custom_claims = principal_claims service req.additional_claims;
  dpop_key_thumbprint = req.dpop_key_thumbprint;
}

-- an error of the issuance becomes a server error
unfoldable pub as_server_error : Result OAuthError Issued × World → Result OAuthError Issued × World
as_server_error (ok out, w) = (ok out, w)
as_server_error (err e, w) = (err server_error, w)

unfoldable pub issue_principal : OAuthService → GrantCall → IssueRequest → Step Issued
issue_principal s call r w = as_server_error (issue s call r w)

-- the fields of the answer that save the caller from decoding the token
unfoldable pub with_tenant : String → String → String → AccessToken → AccessToken
with_tenant account project user token = record token {
  account_id = account;
  project_id = project;
  user_id = user;
}

-- `ExternalPrincipalExchange`
unfoldable pub external_principal_exchange :
    OAuthService → GrantCall → TokenRequest → Step AccessToken
external_principal_exchange s call req = do
  validator ← need s.trusted invalid_grant
  service ← need validator invalid_grant
  check (not (req.account_id == "" || req.project_id == "")) invalid_request
  check (not (req.user_id == "")) invalid_request
  i ← principal_identity s call req
  policy ← policy_id_of call i
  out ← issue_principal s call (principal_request req service i policy)
  done (with_tenant req.account_id req.project_id req.user_id out.token)

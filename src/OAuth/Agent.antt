-- ===== src/OAuth/Agent.antt =====
-- `clientCredentials` and `jwtBearer` of internal/service/oauth.go, and the checks of an agent's assertion that
-- `tokenExchange` makes as well.
use zeroid.Prelude.{Bool, true, false, String, Option, none, some, List, ◌==◌, ◌||◌, not, contains}
use zeroid.Identity.Model.{Identity}
use zeroid.Policy.Defs.{CredentialPolicy}
use zeroid.Credential.Defs.{IssueRequest, zero_request, AccessToken}
use zeroid.Scope.{parse_scope_string, effective_allowed_scopes, intersect_scopes}
use zeroid.OAuth.Defs.{
  invalid_request, invalid_grant, unauthorized_client, invalid_client, TokenRequest, OAuthService,
  GrantCall,
}
use zeroid.OAuth.Step.{Step, done, check, need, ◌>>=◌, ◌>>◌}
use zeroid.OAuth.Lookup.{
  validate_alg, parse_ec_public_key_pem, identity_by, gate, verify_client_secret,
  resolve_credential_policy, issue, tenant_of_uri,
}

-- the request of an agent's own grants
unfoldable pub agent_request :
    String → TokenRequest → Identity → CredentialPolicy → List String → IssueRequest
agent_request grant req i p scopes = record zero_request {
  identity = some i;
  identity_policy_id = p.id;
  scopes = scopes;
  grant_type = grant;
  dpop_key_thumbprint = req.dpop_key_thumbprint;
}

-- `clientCredentials`
unfoldable pub client_credentials : OAuthService → GrantCall → TokenRequest → Step AccessToken
client_credentials s call req = do
  check (not (req.account_id == "" || req.project_id == "")) invalid_request
  client ← need (verify_client_secret s call req.client_id req.client_secret) invalid_client
  check (contains client.grant_types "client_credentials") unauthorized_client
  i ←
      need (identity_by s call (λ j. j.external_id) req.client_id req.account_id req.project_id)
        invalid_client
  gate call i
  p ← resolve_credential_policy call i
  out ← issue s call (
      agent_request "client_credentials" req i p
        (intersect_scopes (parse_scope_string req.scope) client.scopes))
  done out.token

-- the issuer that an assertion names, before its signature is checked
unfoldable pub peek_issuer : OAuthService → String → Step String
peek_issuer s token = do
  check (validate_alg s.lib token) invalid_grant
  peeked ← need (s.lib.parse_insecure token) invalid_grant
  check (not (peeked.issuer == "")) invalid_grant
  done peeked.issuer

abbrev pub present : {A : Type 0} → Option A → Bool
present none = false
present (some a) = true

-- the assertion against the key of the identity, and its mandatory claims
unfoldable pub verify_assertion : OAuthService → String → Identity → Step (Unit {0})
verify_assertion s token i = do
  check (not (i.public_key_pem == "")) invalid_grant
  key ← need (parse_ec_public_key_pem s.lib i.public_key_pem) invalid_grant
  verified ← need (s.lib.parse_assertion key s.issuer token) invalid_grant
  check (present verified.subject) invalid_grant
  check (present verified.expiration) invalid_grant
  check (verified.issuer == i.wimse_uri) invalid_grant

-- `jwtBearer`
unfoldable pub jwt_bearer : OAuthService → GrantCall → TokenRequest → Step AccessToken
jwt_bearer s call req = do
  check (not (req.subject == "")) invalid_request
  uri ← peek_issuer s req.subject
  tenant ← need (tenant_of_uri s uri) invalid_grant
  i ← need (identity_by s call (λ j. j.wimse_uri) uri tenant.0 tenant.1) invalid_grant
  gate call i
  verify_assertion s req.subject i
  p ← resolve_credential_policy call i
  out ← issue s call (
      agent_request "jwt_bearer" req i p (
        intersect_scopes (parse_scope_string req.scope)
          (effective_allowed_scopes (some p) (some i))))
  done out.token

-- ===== src/OAuth/CodeGrant.antt =====
-- `authorizationCode` and `revokeAuthCodeTokens` of internal/service/oauth.go.
use zeroid.Prelude.{
  String, Bool, true, false, Option, none, some, List, ◌==◌, ◌||◌, ◌&&◌, not, contains,
  if◌then◌else◌,
}
use zeroid.Prelude.Int.{ℤ, pos, lt_int}
use zeroid.Prelude.Result.{Result, ok, err}
use zeroid.Identity.Class.{IdentityType}
use zeroid.Identity.Model.{Identity}
use zeroid.Credential.Defs.{IssuedCredential, IssueRequest, zero_request, AccessToken}
use zeroid.Credential.Issue.{join_scopes}
use zeroid.Credential.Revoke.{revoke_credential}
use zeroid.Refresh.Defs.{RefreshToken, RefreshTokenParams, RefreshTokenResult, RefreshError}
use zeroid.Refresh.Store.{revoke_family}
use zeroid.Refresh.Rotate.{issue_refresh_token}
use zeroid.OAuth.Defs.{
  OAuthError, invalid_request, invalid_grant, unauthorized_client, invalid_client, server_error,
  TokenRequest, OAuthService, GrantCall, OAuthClient, AuthCode, AuthCodeClaims, World,
}
use zeroid.OAuth.Step.{Step, done, check, need, ◌>>=◌, ◌>>◌}
use zeroid.OAuth.Lookup.{
  identity_by, gate, get_public_client, resolve_credential_policy, issue, introspect,
}
use zeroid.OAuth.AuthCode.{
  decode_auth_code_jwt, verify_code_challenge, normalize_loopback, consume, get_code,
  update_token_info,
}
use zeroid.OAuth.External.{synthetic_identity, with_tenant}

-- the default where the client sets no lifetime
unfoldable pub or_default_ttl : ℤ → ℤ → ℤ
or_default_ttl ttl default = if lt_int (pos 0) ttl then ttl else default

abbrev pub access_ttl_with_refresh : ℤ
access_ttl_with_refresh = pos 3600

abbrev pub access_ttl_no_refresh : ℤ
access_ttl_no_refresh = pos 7776000

-- the access token of the first exchange, if its row is found
unfoldable pub revoke_found :
    GrantCall → Option IssuedCredential → List IssuedCredential → List IssuedCredential
revoke_found call none rows = rows
revoke_found call (some c) rows =
    elim (revoke_credential call.revoke_runs call.revoked_at c.id c.account_id c.project_id
      "auth_code_replay" rows) [ ok rows' ↦ rows' | err e ↦ rows ]

unfoldable pub revoke_by_jti :
    GrantCall → Option String → List IssuedCredential → List IssuedCredential
revoke_by_jti call none rows = rows
revoke_by_jti call (some jti) rows =
    if jti == "" then rows else revoke_found call (introspect call jti rows).0 rows

-- the refresh tokens of the first exchange
unfoldable pub revoke_refresh_family :
    Bool → GrantCall → Option String → List RefreshToken → List RefreshToken
revoke_refresh_family configured call none rows = rows
revoke_refresh_family configured call (some family) rows =
    if not (family == "") && (configured && call.family_runs)
    then (revoke_family call.family_at family rows).1
    else rows

unfoldable pub revoke_recorded : Bool → GrantCall → Option AuthCode → World → World
revoke_recorded configured call none w = w
revoke_recorded configured call (some c) w = record w {
  credentials = revoke_by_jti call c.credential_jti w.credentials;
  refresh_tokens = revoke_refresh_family configured call c.refresh_family_id w.refresh_tokens;
}

-- `revokeAuthCodeTokens`
unfoldable pub revoke_auth_code_tokens : Bool → GrantCall → String → World → World
revoke_auth_code_tokens configured call jti w =
    revoke_recorded configured call (get_code call.code_read jti w.auth_codes) w

unfoldable pub code_row : AuthCodeClaims → AuthCode
code_row c = record {
  jti = c.jti;
  client_id = c.client_id;
  account_id = c.account_id;
  project_id = c.project_id;
  credential_jti = none;
  refresh_family_id = none;
  expires_at = c.expires_at;
}

unfoldable pub after_consume :
    OAuthService
    → GrantCall
    → AuthCodeClaims
    → World
    → Option (Bool × List AuthCode)
    → Result OAuthError (Unit {0}) × World
after_consume s call c w none = (err server_error, w)
after_consume s call c w (some (true, rows)) = (ok tt, record w { auth_codes = rows })
after_consume s call c w (some (false, rows)) =
    (err invalid_grant, revoke_auth_code_tokens s.has_refresh call c.jti w)

-- the single use of the code
unfoldable pub consume_code : OAuthService → GrantCall → AuthCodeClaims → Step (Unit {0})
consume_code s call c w =
    after_consume s call c w (consume call.consume_runs (code_row c) w.auth_codes)

-- the identity that a client or a refresh token is linked to, gated, with the id of its policy
unfoldable pub linked_identity :
    OAuthService → GrantCall → String → String → String → Step (Identity × String)
linked_identity s call id account project = do
  i ← need (identity_by s call (λ j. j.id) id account project) invalid_grant
  gate call i
  p ← resolve_credential_policy call i
  done (i, p.id)

unfoldable pub carrier_identity :
    OAuthService → GrantCall → Option String → String → String → Step (Identity × String)
carrier_identity s call none account project =
    done (synthetic_identity IdentityType.unset account project, "")
carrier_identity s call (some id) account project =
    if id == ""
    then done (synthetic_identity IdentityType.unset account project, "")
    else linked_identity s call id account project

-- the request of a session's grants
unfoldable pub session_request :
    String → TokenRequest → Identity × String → String → String → ℤ → List String → IssueRequest
session_request grant req carrier user client ttl scopes = record zero_request {
  identity = some carrier.0;
  identity_policy_id = carrier.1;
  grant_type = grant;
  use_rs256 = true;
  subject_override = user;
  application_id = client;
  ttl = ttl;
  scopes = scopes;
  dpop_key_thumbprint = req.dpop_key_thumbprint;
}

unfoldable pub code_ttl : OAuthClient → ℤ
code_ttl client = or_default_ttl client.access_token_ttl (
    if contains client.grant_types "refresh_token"
    then access_ttl_with_refresh
    else access_ttl_no_refresh)

unfoldable pub refresh_params : TokenRequest → AuthCodeClaims → OAuthClient → RefreshTokenParams
refresh_params req c client = record {
  client_id = req.client_id;
  account_id = c.account_id;
  project_id = c.project_id;
  user_id = c.user_id;
  identity_id = client.identity_id;
  scopes = join_scopes c.scopes;
  ttl = client.refresh_token_ttl;
  dpop_key_thumbprint = req.dpop_key_thumbprint;
}

-- a refresh token that cannot be issued is left out of the answer
unfoldable pub attach_refresh :
    AccessToken
    → World
    → Result RefreshError (RefreshTokenResult × List RefreshToken)
    → Result OAuthError (AccessToken × String) × World
attach_refresh token w (ok (made, rows)) = (
  ok (record token { refresh_token = made.raw_token }, made.family_id),
  record w { refresh_tokens = rows },
)
attach_refresh token w (err e) = (ok (token, ""), w)

unfoldable pub add_refresh :
    OAuthService
    → GrantCall
    → TokenRequest
    → AuthCodeClaims
    → OAuthClient
    → AccessToken
    → Step (AccessToken × String)
add_refresh s call req c client token w =
    if contains client.grant_types "refresh_token" && s.has_refresh
    then attach_refresh token w (
        issue_refresh_token s.lib.sha256_hex call.refresh (refresh_params req c client)
          w.refresh_tokens)
    else (ok (token, ""), w)

unfoldable pub record_tokens : GrantCall → String → String → String → Step (Unit {0})
record_tokens call jti credential family w = (
  ok tt,
  record w { auth_codes = update_token_info call.update_runs jti credential family w.auth_codes },
)

-- what follows the consumption of the code
unfoldable pub exchange_code :
    OAuthService → GrantCall → TokenRequest → AuthCodeClaims → OAuthClient → Step AccessToken
exchange_code s call req c client = do
  carrier ← carrier_identity s call client.identity_id c.account_id c.project_id
  out ← issue s call (
      session_request "authorization_code" req carrier c.user_id c.client_id (code_ttl client)
        c.scopes)
  made ← add_refresh s call req c client (with_tenant c.account_id c.project_id c.user_id out.token)
  record_tokens call c.jti out.token.jti made.1
  done made.0

-- `authorizationCode`
unfoldable pub authorization_code : OAuthService → GrantCall → TokenRequest → Step AccessToken
authorization_code s call req = do
  check
      (not (
        (req.code == "" || req.code_verifier == "")
        || (req.client_id == "" || req.redirect_uri == "")))
      invalid_request
  check (not (s.hmac_secret == "")) server_error
  c ← need (decode_auth_code_jwt s req.code) invalid_grant
  check (c.client_id == req.client_id) invalid_grant
  client ← need (get_public_client s call req.client_id) invalid_client
  check (contains client.grant_types "authorization_code") unauthorized_client
  check (normalize_loopback s.lib c.redirect_uri == normalize_loopback s.lib req.redirect_uri)
      invalid_grant
  check (verify_code_challenge s.lib req.code_verifier c.code_challenge) invalid_grant
  consume_code s call c
  exchange_code s call req c client

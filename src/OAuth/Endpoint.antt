-- ===== src/OAuth/Endpoint.antt =====
-- `Token`, `Introspect` and `Revoke` of internal/service/oauth.go.
use zeroid.Prelude.{
  ℕ, String, true, false, Option, none, some, List, ◌==◌, ◌||◌, if◌then◌else◌, ltb,
}
use zeroid.Prelude.Result.{Result, ok, err}
use zeroid.Credential.Defs.{IssuedCredential, AccessToken}
use zeroid.Credential.Issue.{join_scopes}
use zeroid.Credential.Revoke.{get_by_jti, revoke_credential}
use zeroid.Backchannel.Issue.{Redeemed, redeem}
use zeroid.OAuth.Defs.{
  OAuthError, invalid_request, unsupported_grant_type, ciba, TokenRequest, OAuthService, GrantCall,
  World, ParsedToken,
}
use zeroid.OAuth.Step.{Step, check, ◌>>◌}
use zeroid.OAuth.Lookup.{parse_token, introspect, with_policies}
use zeroid.OAuth.Agent.{client_credentials, jwt_bearer}
use zeroid.OAuth.Exchange.{active_row, delegate}
use zeroid.OAuth.External.{external_principal_exchange}
use zeroid.OAuth.Key.{api_key_grant}
use zeroid.OAuth.CodeGrant.{authorization_code}
use zeroid.OAuth.RefreshGrant.{refresh_grant}

-- `tokenExchange`: the mode is that of the actor token
unfoldable pub token_exchange : OAuthService → GrantCall → TokenRequest → Step AccessToken
token_exchange s call req =
    check (if req.subject_token == "" then false else true) invalid_request
    >> (if req.actor_token == ""
        then external_principal_exchange s call req
        else delegate s call req)

unfoldable pub redeemed : World → Redeemed → Result OAuthError AccessToken × World
redeemed w (ok token, v) =
    (ok token, record w { requests = v.requests; credentials = v.credentials })
redeemed w (err e, v) =
    (err (ciba e), record w { requests = v.requests; credentials = v.credentials })

unfoldable pub ciba_in : OAuthService → GrantCall → TokenRequest → Option ℕ → Step AccessToken
ciba_in s call req none w = (err unsupported_grant_type, w)
ciba_in s call req (some min_poll) w = redeemed w (
    redeem (with_policies s w) min_poll call.resolve
      (record {
        auth_req_id = req.auth_req_id;
        client_id = req.client_id;
        dpop_key_thumbprint = req.dpop_key_thumbprint;
      })
      w.requests (record { requests = w.requests; credentials = w.credentials }))

-- the case of CIBA in `Token`
unfoldable pub ciba_grant : OAuthService → GrantCall → TokenRequest → Step AccessToken
ciba_grant s call req = ciba_in s call req s.min_poll

unfoldable pub custom_in :
    Option (TokenRequest → World → Result OAuthError AccessToken × World)
    → TokenRequest
    → Step AccessToken
custom_in none req w = (err unsupported_grant_type, w)
custom_in (some handler) req w = handler req w

-- `Token`
unfoldable pub token : OAuthService → GrantCall → TokenRequest → Step AccessToken
token s call req =
    if req.grant_type == "client_credentials"
    then client_credentials s call req
    else if req.grant_type == "urn:ietf:params:oauth:grant-type:jwt-bearer"
    then jwt_bearer s call req
    else if req.grant_type == "urn:ietf:params:oauth:grant-type:token-exchange"
    then token_exchange s call req
    else if req.grant_type == "api_key"
    then api_key_grant s call req
    else if req.grant_type == "authorization_code"
    then authorization_code s call req
    else if req.grant_type == "refresh_token"
    then refresh_grant s call req
    else if req.grant_type == "urn:openid:params:grant-type:ciba"
    then ciba_grant s call req
    else custom_in (s.custom_grants req.grant_type) req

-- The answer of `Introspect` for an active token, without the claims that it copies from the token.
pub record Introspection : Type 0 where
  pub sub : String
  pub iss : String
  pub jti : String
  pub scope : String
  pub account_id : String
  pub project_id : String

unfoldable pub introspection : ParsedToken → IssuedCredential → Introspection
introspection t c = record {
  sub = elim t.subject [ none ↦ "" | some sub ↦ sub ];
  iss = t.issuer;
  jti = t.jwt_id;
  scope = join_scopes c.scopes;
  account_id = c.account_id;
  project_id = c.project_id;
}

unfoldable pub introspect_parsed :
    GrantCall → List IssuedCredential → Option ParsedToken → Option Introspection
introspect_parsed call rows none = none
introspect_parsed call rows (some t) =
    if t.jwt_id == "" then none else elim (active_row (introspect call t.jwt_id rows)) [
      | none ↦ none
      | some c ↦ some (introspection t c)
    ]

-- `Introspect`; `none` is `{active: false}`
unfoldable pub introspect_endpoint :
    OAuthService → GrantCall → String → List IssuedCredential → Option Introspection
introspect_endpoint s call token rows = introspect_parsed call rows (parse_token s.lib token true)

unfoldable pub revoke_live :
    GrantCall
    → Option IssuedCredential
    → List IssuedCredential
    → Result OAuthError (List IssuedCredential)
revoke_live call none rows = ok rows
revoke_live call (some c) rows =
    if c.is_revoked || ltb c.expires_at call.introspected_at
    then ok rows
    else elim (revoke_credential call.revoke_runs call.revoked_at c.id c.account_id c.project_id
        "oauth2_revocation" rows) [ ok rows' ↦ ok rows' | err e ↦ err (OAuthError.issuance e) ]

unfoldable pub revoke_parsed :
    GrantCall
    → List IssuedCredential
    → Option ParsedToken
    → Result OAuthError (List IssuedCredential)
revoke_parsed call rows none = ok rows
revoke_parsed call rows (some t) =
    if t.jwt_id == ""
    then ok rows
    else revoke_live call (if call.credential_read then get_by_jti t.jwt_id rows else none) rows

-- `Revoke`
unfoldable pub revoke_endpoint :
    OAuthService
    → GrantCall
    → String
    → List IssuedCredential
    → Result OAuthError (List IssuedCredential)
revoke_endpoint s call token rows = revoke_parsed call rows (parse_token s.lib token false)

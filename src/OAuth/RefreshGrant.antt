-- ===== src/OAuth/RefreshGrant.antt =====
-- `refreshToken` of internal/service/oauth.go.
use zeroid.Prelude.{Option, none, some, ◌==◌, ◌||◌, not}
use zeroid.Prelude.Int.{ℤ, pos}
use zeroid.Prelude.Result.{Result, ok, err}
use zeroid.Credential.Defs.{AccessToken}
use zeroid.Refresh.Defs.{RefreshToken, RefreshTokenResult, RefreshError, dpop_binding_mismatch}
use zeroid.Refresh.Rotate.{Rotation, rotate_refresh_token}
use zeroid.Scope.{parse_scope_string}
use zeroid.OAuth.Defs.{
  OAuthError, invalid_request, invalid_grant, server_error, invalid_dpop_proof, TokenRequest,
  OAuthService, GrantCall, OAuthClient, World,
}
use zeroid.OAuth.Step.{Step, done, check, ◌>>=◌, ◌>>◌}
use zeroid.OAuth.Lookup.{client_by_client_id, issue}
use zeroid.OAuth.External.{with_tenant}
use zeroid.OAuth.CodeGrant.{
  or_default_ttl, access_ttl_with_refresh, carrier_identity, session_request,
}

-- the client's lifetimes of the access and of the refresh token, 0 if it is not found
unfoldable pub client_ttls : Option OAuthClient → ℤ × ℤ
client_ttls none = (pos 0, pos 0)
client_ttls (some c) = (c.access_token_ttl, c.refresh_token_ttl)

-- the errors of the rotation by their code
unfoldable pub rotation_error : RefreshError → OAuthError
rotation_error dpop_binding_mismatch = invalid_dpop_proof
rotation_error e = invalid_grant

unfoldable pub rotation_result :
    World → Rotation → Result OAuthError (RefreshToken × RefreshTokenResult) × World
rotation_result w (ok made, rows) = (ok made, record w { refresh_tokens = rows })
rotation_result w (err e, rows) = (err (rotation_error e), record w { refresh_tokens = rows })

unfoldable pub rotate :
    OAuthService → GrantCall → TokenRequest → ℤ → Step (RefreshToken × RefreshTokenResult)
rotate s call req ttl w = rotation_result w (
    rotate_refresh_token s.lib.sha256_hex call.rotate req.refresh_token_str ttl
      req.dpop_key_thumbprint w.refresh_tokens)

-- what follows the rotation
unfoldable pub refresh_session :
    OAuthService
    → GrantCall
    → TokenRequest
    → ℤ
    → RefreshToken × RefreshTokenResult
    → Step AccessToken
refresh_session s call req ttl (old, made) = do
  check (old.client_id == req.client_id) invalid_grant
  carrier ← carrier_identity s call old.identity_id old.account_id old.project_id
  out ← issue s call (
      session_request "refresh_token" req carrier old.user_id old.client_id ttl
        (parse_scope_string old.scopes))
  done (record (with_tenant old.account_id old.project_id old.user_id out.token) {
    refresh_token = made.raw_token;
  })

-- `refreshToken`
unfoldable pub refresh_grant : OAuthService → GrantCall → TokenRequest → Step AccessToken
refresh_grant s call req = do
  check (not (req.refresh_token_str == "" || req.client_id == "")) invalid_request
  check s.has_refresh server_error
  let ttls = client_ttls (client_by_client_id s call req.client_id)
  made ← rotate s call req ttls.1
  refresh_session s call req (or_default_ttl ttls.0 access_ttl_with_refresh) made

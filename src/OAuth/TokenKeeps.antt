-- ===== src/OAuth/TokenKeeps.antt =====
-- internal/service/oauth.go: the grants of sessions, and `Token`, keep what the codes' table keeps.
use zeroid.Prelude.{
  ◌≡◌, refl, String, Bool, true, false, Option, none, some, List, ◌&&◌, inl, inr, Bool-cases,
  contains, ℕ,
}
use zeroid.Prelude.Int.{ℤ}
use zeroid.Prelude.Result.{Result, ok, err}
use zeroid.Credential.Defs.{AccessToken}
use zeroid.Refresh.Defs.{RefreshToken, RefreshTokenResult, RefreshError}
use zeroid.Refresh.Rotate.{Rotation}
use zeroid.Backchannel.Issue.{Redeemed}
use zeroid.OAuth.Defs.{
  OAuthError, OAuthService, GrantCall, World, AuthCode, AuthCodeClaims, OAuthClient, TokenRequest,
}
use zeroid.OAuth.AuthCode.{consume}
use zeroid.OAuth.CodeGrant.{
  revoke_recorded, revoke_auth_code_tokens, after_consume, consume_code, linked_identity,
  carrier_identity, attach_refresh, add_refresh, record_tokens, exchange_code, authorization_code,
  code_row,
}
use zeroid.OAuth.RefreshGrant.{rotation_result, rotate, refresh_session, refresh_grant}
use zeroid.OAuth.Endpoint.{token_exchange, redeemed, ciba_in, ciba_grant, custom_in, token}
use zeroid.OAuth.Keeps.{
  Keeps, done-Keeps, bind-Keeps, after_check, after_need, if-Keeps, gate-Keeps, resolve-Keeps,
  issue-Keeps,
}
use zeroid.OAuth.GrantKeeps.{
  CodeStable, client_credentials-Keeps, jwt_bearer-Keeps, delegate-Keeps, external-Keeps,
  api_key-Keeps,
}

module _ (P : World → Type 0) (stable : CodeStable P) where
  revoke_recorded-keeps :
      (configured : Bool) (call : GrantCall) (o : Option AuthCode) (w : World)
      → P w
      → P (revoke_recorded configured call o w)
  unfolding revoke_recorded
  revoke_recorded-keeps configured call none w h = h
  revoke_recorded-keeps configured call (some c) w h =
      stable.of_codes.refresh_tokens _ _ (stable.of_codes.credentials w _ h)

  after_consume-keeps :
      (s : OAuthService) (call : GrantCall) (c : AuthCodeClaims) (w : World)
      (o : Option (Bool × List AuthCode))
      → consume call.consume_runs (code_row c) w.auth_codes ≡ o
      → P w
      → P (after_consume s call c w o).1
  unfolding after_consume revoke_auth_code_tokens
  after_consume-keeps s call c w none e h = h
  after_consume-keeps s call c w (some (true, rows)) e h =
      stable.consumes w call.consume_runs true (code_row c) rows e h
  after_consume-keeps s call c w (some (false, rows)) e h = revoke_recorded-keeps _ call _ w h

  consume_code-Keeps :
      (s : OAuthService) (call : GrantCall) (c : AuthCodeClaims) → Keeps P (consume_code s call c)
  unfolding consume_code Keeps
  consume_code-Keeps s call c w h = after_consume-keeps s call c w _ refl h

  carrier-Keeps :
      (s : OAuthService) (call : GrantCall) (o : Option String) (account project : String)
      → Keeps P (carrier_identity s call o account project)
  unfolding carrier_identity linked_identity
  carrier-Keeps s call none account project = done-Keeps P _
  carrier-Keeps s call (some id) account project = if-Keeps P _ _ _ (done-Keeps P _) (
      after_need P _ _ _ λ i.
        bind-Keeps P _ _ (gate-Keeps P call i)
          λ u. bind-Keeps P _ _ (resolve-Keeps P stable.of_codes call i) λ p. done-Keeps P _)

  attach_refresh-keeps :
      (t : AccessToken) (w : World)
      (r : Result RefreshError (RefreshTokenResult × List RefreshToken))
      → P w
      → P (attach_refresh t w r).1
  unfolding attach_refresh
  attach_refresh-keeps t w (ok (made, rows)) h = stable.of_codes.refresh_tokens w rows h
  attach_refresh-keeps t w (err e) h = h

  add_refresh-Keeps :
      (s : OAuthService) (call : GrantCall) (req : TokenRequest) (c : AuthCodeClaims)
      (client : OAuthClient) (t : AccessToken)
      → Keeps P (add_refresh s call req c client t)
  unfolding add_refresh Keeps
  add_refresh-Keeps s call req c client t w h =
      elim (Bool-cases (contains client.grant_types "refresh_token" && s.has_refresh)) [
        | inl on ↦ simp on (attach_refresh-keeps t w _ h)
        | inr off ↦ simp off h
      ]

  record_tokens-Keeps :
      (call : GrantCall) (jti credential family : String)
      → Keeps P (record_tokens call jti credential family)
  unfolding record_tokens Keeps
  record_tokens-Keeps call jti credential family w h = stable.updates w _ jti credential family h

  pub exchange_code-Keeps :
      (s : OAuthService) (call : GrantCall) (req : TokenRequest) (c : AuthCodeClaims)
      (client : OAuthClient)
      → Keeps P (exchange_code s call req c client)
  unfolding exchange_code
  exchange_code-Keeps s call req c client = bind-Keeps P _ _ (carrier-Keeps s call _ _ _) λ carrier.
      bind-Keeps P _ _ (issue-Keeps P stable.of_codes s call _) λ out.
        bind-Keeps P _ _ (add_refresh-Keeps s call req c client _)
          λ made. bind-Keeps P _ _ (record_tokens-Keeps call _ _ _) λ u. done-Keeps P made.0

  authorization_code-Keeps :
      (s : OAuthService) (call : GrantCall) (req : TokenRequest)
      → Keeps P (authorization_code s call req)
  unfolding authorization_code
  authorization_code-Keeps s call req = after_check P _ _ _ (
      after_check P _ _ _ (
        after_need P _ _ _ λ c. after_check P _ _ _ (
          after_need P _ _ _ λ client. after_check P _ _ _ (
            after_check P _ _ _ (
              after_check P _ _ _ (
                bind-Keeps P _ _ (consume_code-Keeps s call c)
                  λ u. exchange_code-Keeps s call req c client))))))

  rotation_result-keeps : (w : World) (r : Rotation) → P w → P (rotation_result w r).1
  unfolding rotation_result
  rotation_result-keeps w (ok made, rows) h = stable.of_codes.refresh_tokens w rows h
  rotation_result-keeps w (err e, rows) h = stable.of_codes.refresh_tokens w rows h

  rotate-Keeps :
      (s : OAuthService) (call : GrantCall) (req : TokenRequest) (ttl : ℤ)
      → Keeps P (rotate s call req ttl)
  unfolding rotate Keeps
  rotate-Keeps s call req ttl w h = rotation_result-keeps w _ h

  refresh-Keeps :
      (s : OAuthService) (call : GrantCall) (req : TokenRequest)
      → Keeps P (refresh_grant s call req)
  unfolding refresh_grant refresh_session
  refresh-Keeps s call req = after_check P _ _ _ (
      after_check P _ _ _ (
        bind-Keeps P _ _ (rotate-Keeps s call req _) λ made. after_check P _ _ _ (
          bind-Keeps P _ _ (carrier-Keeps s call _ _ _) λ carrier.
            bind-Keeps P _ _ (issue-Keeps P stable.of_codes s call _) λ out. done-Keeps P _)))

  redeemed-keeps : (w : World) (r : Redeemed) → P w → P (redeemed w r).1
  unfolding redeemed
  redeemed-keeps w (ok t, v) h = stable.of_codes.credentials _ _ (stable.of_codes.requests w _ h)
  redeemed-keeps w (err e, v) h = stable.of_codes.credentials _ _ (stable.of_codes.requests w _ h)

  ciba-Keeps :
      (s : OAuthService) (call : GrantCall) (req : TokenRequest) (o : Option ℕ)
      → Keeps P (ciba_in s call req o)
  unfolding ciba_in Keeps
  ciba-Keeps s call req none w h = h
  ciba-Keeps s call req (some m) w h = redeemed-keeps w _ h

  unsupported-Keeps :
      (o : Option (TokenRequest → World → Result OAuthError AccessToken × World))
      (req : TokenRequest)
      → o ≡ none
      → Keeps P (custom_in o req)
  unfolding custom_in Keeps
  unsupported-Keeps none req e w h = h
  unsupported-Keeps (some f) req e w h = cc

  -- `Token` keeps it for every grant that the server itself implements.
  pub token-Keeps :
      (s : OAuthService) (call : GrantCall) (req : TokenRequest)
      → s.custom_grants req.grant_type ≡ none
      → Keeps P (token s call req)
  unfolding token token_exchange ciba_grant
  token-Keeps s call req builtin = if-Keeps P _ _ _ (client_credentials-Keeps P stable s call req) (
      if-Keeps P _ _ _ (jwt_bearer-Keeps P stable s call req) (
        if-Keeps P _ _ _
          (after_check P _ _ _ (
            if-Keeps P _ _ _ (external-Keeps P stable s call req)
              (delegate-Keeps P stable s call req)))
          (if-Keeps P _ _ _ (api_key-Keeps P stable s call req) (
            if-Keeps P _ _ _ (authorization_code-Keeps s call req) (
              if-Keeps P _ _ _ (refresh-Keeps s call req) (
                if-Keeps P _ _ _ (ciba-Keeps s call req s.min_poll)
                  (unsupported-Keeps _ req builtin)))))))

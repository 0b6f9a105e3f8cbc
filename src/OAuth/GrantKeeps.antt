-- ===== src/OAuth/GrantKeeps.antt =====
-- internal/service/oauth.go: every grant keeps a property of the consumed codes that adding a code and recording
-- its tokens keep.
use zeroid.Prelude.{◌≡◌, String, Bool, Option, none, some, List}
use zeroid.Prelude.Result.{Result, ok, err}
use zeroid.Identity.Model.{Identity}
use zeroid.Policy.Defs.{CredentialPolicy}
use zeroid.Credential.Defs.{IssuedCredential, IssueRequest}
use zeroid.Credential.Issue.{Issued}
use zeroid.OAuth.Defs.{OAuthError, OAuthService, GrantCall, World, AuthCode, ApiKey, TokenRequest}
use zeroid.OAuth.Agent.{client_credentials, peek_issuer, verify_assertion, jwt_bearer}
use zeroid.OAuth.Exchange.{active_subject, issue_delegated, actor_of, delegate}
use zeroid.OAuth.External.{
  application_identity, principal_identity, policy_id_of, as_server_error, issue_principal,
  external_principal_exchange,
}
use zeroid.OAuth.Key.{
  gated_identity, key_identity, identity_layer, key_layer_in, key_layer, api_key_grant,
}
use zeroid.OAuth.AuthCode.{consume, update_token_info}
use zeroid.OAuth.Lookup.{issue}
use zeroid.OAuth.Keeps.{
  Keeps, OfCodes, done-Keeps, check-Keeps, need-Keeps, bind-Keeps, after_check, after_need,
  if-Keeps, gate-Keeps, resolve-Keeps, issue-Keeps,
}

-- `P` survives the first use of a code and the record of its tokens.
pub record CodeStable (P : World → Type 0) : Type 0 where
  pub of_codes : OfCodes P
  pub consumes :
      (w : World) (runs first : Bool) (c : AuthCode) (rows : List AuthCode)
      → consume runs c w.auth_codes ≡ some (first, rows)
      → P w
      → P (record w { auth_codes = rows })
  pub updates :
      (w : World) (runs : Bool) (jti credential family : String)
      → P w
      → P (record w { auth_codes = update_token_info runs jti credential family w.auth_codes })

module _ (P : World → Type 0) (stable : CodeStable P) where
  pub client_credentials-Keeps :
      (s : OAuthService) (call : GrantCall) (req : TokenRequest)
      → Keeps P (client_credentials s call req)
  unfolding client_credentials
  client_credentials-Keeps s call req = after_check P _ _ _ (
      after_need P _ _ _ λ client. after_check P _ _ _ (
        after_need P _ _ _ λ i. bind-Keeps P _ _ (gate-Keeps P call i) λ u.
          bind-Keeps P _ _ (resolve-Keeps P stable.of_codes call i) λ p.
            bind-Keeps P _ _ (issue-Keeps P stable.of_codes s call _)
              λ out. done-Keeps P out.token))

  peek_issuer-Keeps : (s : OAuthService) (t : String) → Keeps P (peek_issuer s t)
  unfolding peek_issuer
  peek_issuer-Keeps s t =
      after_check P _ _ _
        (after_need P _ _ _ λ peeked. after_check P _ _ _ (done-Keeps P peeked.issuer))

  verify_assertion-Keeps :
      (s : OAuthService) (t : String) (i : Identity) → Keeps P (verify_assertion s t i)
  unfolding verify_assertion
  verify_assertion-Keeps s t i = after_check P _ _ _ (
      after_need P _ _ _ λ key.
        after_need P _ _ _
          λ verified. after_check P _ _ _ (after_check P _ _ _ (check-Keeps P _ _)))

  pub jwt_bearer-Keeps :
      (s : OAuthService) (call : GrantCall) (req : TokenRequest) → Keeps P (jwt_bearer s call req)
  unfolding jwt_bearer
  jwt_bearer-Keeps s call req = after_check P _ _ _ (
      bind-Keeps P _ _ (peek_issuer-Keeps s req.subject) λ uri. after_need P _ _ _ λ tenant.
        after_need P _ _ _ λ i. bind-Keeps P _ _ (gate-Keeps P call i) λ u.
          bind-Keeps P _ _ (verify_assertion-Keeps s req.subject i) λ v.
            bind-Keeps P _ _ (resolve-Keeps P stable.of_codes call i) λ p.
              bind-Keeps P _ _ (issue-Keeps P stable.of_codes s call _)
                λ out. done-Keeps P out.token)

  active_subject-Keeps : (call : GrantCall) (jti : String) → Keeps P (active_subject call jti)
  unfolding active_subject Keeps
  active_subject-Keeps call jti w h = need-Keeps P _ _ w h

  actor_of-Keeps :
      (s : OAuthService) (call : GrantCall) (req : TokenRequest) (held : IssuedCredential)
      → Keeps P (actor_of s call req held)
  unfolding actor_of
  actor_of-Keeps s call req held = bind-Keeps P _ _ (peek_issuer-Keeps s req.actor_token) λ uri.
      after_need P _ _ _ λ tenant. after_check P _ _ _ (
        after_need P _ _ _ λ i.
          bind-Keeps P _ _ (gate-Keeps P call i)
            λ u. bind-Keeps P _ _ (verify_assertion-Keeps s req.actor_token i) λ v. done-Keeps P i)

  pub delegate-Keeps :
      (s : OAuthService) (call : GrantCall) (req : TokenRequest) → Keeps P (delegate s call req)
  unfolding delegate issue_delegated
  delegate-Keeps s call req = after_need P _ _ _ λ subject. after_check P _ _ _ (
      bind-Keeps P _ _ (active_subject-Keeps call subject.jwt_id) λ held.
        bind-Keeps P _ _ (actor_of-Keeps s call req held) λ actor.
          bind-Keeps P _ _ (resolve-Keeps P stable.of_codes call actor) λ p. after_check P _ _ _ (
            bind-Keeps P _ _ (issue-Keeps P stable.of_codes s call _)
              λ out. done-Keeps P out.token))

  application_identity-Keeps :
      (s : OAuthService) (call : GrantCall) (req : TokenRequest)
      → Keeps P (application_identity s call req)
  unfolding application_identity
  application_identity-Keeps s call req =
      after_check P _ _ _
        (after_need P _ _ _ λ i. bind-Keeps P _ _ (gate-Keeps P call i) λ u. done-Keeps P i)

  policy_id_of-Keeps : (call : GrantCall) (i : Identity) → Keeps P (policy_id_of call i)
  unfolding policy_id_of
  policy_id_of-Keeps call i =
      if-Keeps P _ _ _ (done-Keeps P "")
        (bind-Keeps P _ _ (resolve-Keeps P stable.of_codes call i) λ p. done-Keeps P p.id)

  as_server_error-keeps : (r : Result OAuthError Issued × World) → P r.1 → P (as_server_error r).1
  unfolding as_server_error
  as_server_error-keeps (ok out, w) h = h
  as_server_error-keeps (err e, w) h = h

  issue_principal-Keeps :
      (s : OAuthService) (call : GrantCall) (r : IssueRequest) → Keeps P (issue_principal s call r)
  unfolding issue_principal Keeps
  issue_principal-Keeps s call r w h =
      as_server_error-keeps (issue s call r w) (issue-Keeps P stable.of_codes s call r w h)

  pub external-Keeps :
      (s : OAuthService) (call : GrantCall) (req : TokenRequest)
      → Keeps P (external_principal_exchange s call req)
  unfolding external_principal_exchange principal_identity
  external-Keeps s call req = after_need P _ _ _ λ validator. after_need P _ _ _ λ service.
      after_check P _ _ _ (
        after_check P _ _ _ (
          bind-Keeps P _ _
            (if-Keeps P _ _ _ (done-Keeps P _) (application_identity-Keeps s call req))
            λ i.
              bind-Keeps P _ _ (policy_id_of-Keeps call i)
                λ policy. bind-Keeps P _ _ (issue_principal-Keeps s call _) λ out. done-Keeps P _))

  gated_identity-Keeps :
      (call : GrantCall) (k : ApiKey) (o : Option Identity) → Keeps P (gated_identity call k o)
  unfolding gated_identity
  gated_identity-Keeps call k none = done-Keeps P _
  gated_identity-Keeps call k (some i) = bind-Keeps P _ _ (gate-Keeps P call i) λ u. done-Keeps P i

  identity_layer-Keeps : (call : GrantCall) (i : Identity) → Keeps P (identity_layer call i)
  unfolding identity_layer
  identity_layer-Keeps call i =
      if-Keeps P _ _ _ (done-Keeps P _)
        (bind-Keeps P _ _ (resolve-Keeps P stable.of_codes call i) λ p. done-Keeps P _)

  key_layer_in-Keeps :
      (call : GrantCall) (k : ApiKey) (o : Option (List CredentialPolicy))
      → Keeps P (key_layer_in call k o)
  unfolding key_layer_in
  key_layer_in-Keeps call k none = done-Keeps P _
  key_layer_in-Keeps call k (some rows) = if-Keeps P _ _ _ (done-Keeps P _) (need-Keeps P _ _)

  key_layer-Keeps : (call : GrantCall) (k : ApiKey) → Keeps P (key_layer call k)
  unfolding key_layer Keeps
  key_layer-Keeps call k w h = key_layer_in-Keeps call k w.policies w h

  pub api_key-Keeps :
      (s : OAuthService) (call : GrantCall) (req : TokenRequest)
      → Keeps P (api_key_grant s call req)
  unfolding api_key_grant key_identity
  api_key-Keeps s call req = after_check P _ _ _ (
      after_check P _ _ _ (
        after_need P _ _ _ λ k.
          bind-Keeps P _ _ (if-Keeps P _ _ _ (done-Keeps P _) (gated_identity-Keeps call k _)) λ i.
            bind-Keeps P _ _ (identity_layer-Keeps call i) λ layer.
              bind-Keeps P _ _ (key_layer-Keeps call k) λ by_key.
                bind-Keeps P _ _ (issue-Keeps P stable.of_codes s call _) λ out. done-Keeps P _))

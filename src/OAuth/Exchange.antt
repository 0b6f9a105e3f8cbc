-- ===== src/OAuth/Exchange.antt =====
-- The delegation of `tokenExchange` in internal/service/oauth.go.
use zeroid.Prelude.{
  String, Bool, true, false, Option, none, some, List, [], ◌∷◌, ◌==◌, ◌&&◌, ◌||◌, not, contains,
  is_empty, if◌then◌else◌,
}
use zeroid.Prelude.Int.{ℤ, pos, succ}
use zeroid.Identity.Model.{Identity}
use zeroid.Policy.Defs.{CredentialPolicy}
use zeroid.Credential.Defs.{IssuedCredential, IssueRequest, zero_request, AccessToken}
use zeroid.Scope.{parse_scope_string, effective_allowed_scopes}
use zeroid.OAuth.Defs.{
  invalid_grant, invalid_scope, TokenRequest, ParsedToken, OAuthService, GrantCall,
}
use zeroid.OAuth.Step.{Step, done, check, need, ◌>>=◌, ◌>>◌}
use zeroid.OAuth.Lookup.{
  parse_token, identity_by, gate, resolve_credential_policy, issue, tenant_of_uri, introspect,
}
use zeroid.OAuth.Agent.{peek_issuer, verify_assertion}

-- the loops that collect the scopes: requested, held by the subject, and allowed for the actor
unfoldable pub delegated_scopes : List String → List String → List String → List String
delegated_scopes held allowed [] = []
delegated_scopes held allowed (s ∷ ss) =
    let rest = delegated_scopes held allowed ss in
    if contains held s && (is_empty allowed || contains allowed s) then s ∷ rest else rest

-- a row that is active
unfoldable pub active_row : Option IssuedCredential × Bool → Option IssuedCredential
active_row (none, active) = none
active_row (some c, true) = some c
active_row (some c, false) = none

-- `parentDepth`, 0 without the claim
unfoldable pub parent_depth : ParsedToken → ℤ
parent_depth t = elim t.delegation_depth [ none ↦ pos 0 | some d ↦ d ]

abbrev pub text_or_empty : Option String → String
text_or_empty none = ""
text_or_empty (some t) = t

unfoldable pub inherited_mission : ParsedToken → String
inherited_mission t =
    if text_or_empty t.mission_id == "" then t.jwt_id else text_or_empty t.mission_id

unfoldable pub delegation_request :
    TokenRequest → ParsedToken → Identity → CredentialPolicy → List String → IssueRequest
delegation_request req t i p scopes = record zero_request {
  identity = some i;
  identity_policy_id = p.id;
  scopes = scopes;
  grant_type = "token_exchange";
  delegated_by = text_or_empty t.subject;
  parent_jti = t.jwt_id;
  delegation_depth = succ (parent_depth t);
  mission_id = inherited_mission t;
  dpop_key_thumbprint = req.dpop_key_thumbprint;
}

unfoldable pub active_subject : GrantCall → String → Step IssuedCredential
active_subject call jti w = need (active_row (introspect call jti w.credentials)) invalid_grant w

-- steps 4 to 6: the scopes, and the issuance under the actor's policy
unfoldable pub issue_delegated :
    OAuthService
    → GrantCall
    → TokenRequest
    → ParsedToken
    → IssuedCredential
    → Identity
    → CredentialPolicy
    → Step AccessToken
issue_delegated s call req subject held actor p = do
  let scopes =
      delegated_scopes held.scopes (effective_allowed_scopes (some p) (some actor))
        (parse_scope_string req.scope)
  check (not (is_empty scopes)) invalid_scope
  out ← issue s call (delegation_request req subject actor p scopes)
  done out.token

-- step 2: the actor's assertion, its tenant and its identity
unfoldable pub actor_of : OAuthService → GrantCall → TokenRequest → IssuedCredential → Step Identity
actor_of s call req held = do
  uri ← peek_issuer s req.actor_token
  tenant ← need (tenant_of_uri s uri) invalid_grant
  check (tenant.0 == held.account_id && tenant.1 == held.project_id) invalid_grant
  actor ← need (identity_by s call (λ j. j.wimse_uri) uri tenant.0 tenant.1) invalid_grant
  gate call actor
  verify_assertion s req.actor_token actor
  done actor

-- `tokenExchange` with an actor token: one agent delegates to another
unfoldable pub delegate : OAuthService → GrantCall → TokenRequest → Step AccessToken
delegate s call req = do
  subject ← need (parse_token s.lib req.subject_token true) invalid_grant
  check (not (subject.jwt_id == "")) invalid_grant
  held ← active_subject call subject.jwt_id
  actor ← actor_of s call req held
  p ← resolve_credential_policy call actor
  issue_delegated s call req subject held actor p

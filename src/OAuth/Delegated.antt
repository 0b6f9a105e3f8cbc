-- ===== src/OAuth/Delegated.antt =====
-- internal/service/oauth.go: what `tokenExchange` grants for an actor token.
use zeroid.Prelude.{
  ◌≡◌, String, true, false, some, ◌∷◌, ◌⊎◌, inl, inr, Memᴰ, Bool-cases, same_key, is_empty,
}
use zeroid.Prelude.Int.{succ}
use zeroid.Prelude.Result.{ok}
use zeroid.Prelude.Table.{find-eq_some}
use zeroid.Identity.Status.{is_usable}
use zeroid.Identity.Model.{Identity}
use zeroid.Policy.Defs.{CredentialPolicy, is_expired}
use zeroid.Credential.Defs.{IssuedCredential, AccessToken}
use zeroid.Scope.{parse_scope_string, effective_allowed_scopes}
use zeroid.OAuth.Defs.{TokenRequest, ParsedToken, OAuthService, GrantCall, World}
use zeroid.OAuth.Lookup.{parse_token, identity_by, resolve_credential_policy}
use zeroid.OAuth.Exchange.{parent_depth, inherited_mission}
use zeroid.OAuth.Issuance.{SameSessions}
use zeroid.OAuth.Delegation.{Active}

-- The actor of a delegation, and its tenant.
pub record Actor (s : OAuthService) (call : GrantCall) (held : IssuedCredential) (actor : Identity)
    : Type 0 where
  pub known : Memᴰ actor s.identities
  pub same_account : actor.account_id ≡ held.account_id
  pub same_project : actor.project_id ≡ held.project_id
  pub usable : is_usable actor.status ≡ true
  pub in_time : is_expired call.identity_now actor.expires_at ≡ false

-- What the new row takes from the request, the subject's credential and the actor's policy.
pub record Attenuated (req : TokenRequest) (subject : ParsedToken) (held : IssuedCredential)
    (actor : Identity) (policy : CredentialPolicy) (row : IssuedCredential) : Type 0 where
  pub some_scope : is_empty row.scopes ≡ false
  pub scoped :
      {x : String}
      → Memᴰ x row.scopes
      → Memᴰ x (parse_scope_string req.scope)
        × Memᴰ x held.scopes
        × ((is_empty (effective_allowed_scopes (some policy) (some actor)) ≡ true)
            ⊎ Memᴰ x (effective_allowed_scopes (some policy) (some actor)))
  pub parent : row.parent_jti ≡ subject.jwt_id
  pub depth : row.delegation_depth ≡ succ (parent_depth subject)
  pub mission : row.mission_id ≡ inherited_mission subject
  pub grant : row.grant_type ≡ "token_exchange"

-- One delegation, from the state `w` to the state `v`.
pub record Delegated (s : OAuthService) (call : GrantCall) (req : TokenRequest) (w v : World)
    (token : AccessToken) : Type 0 where
  pub subject : ParsedToken
  pub signed : parse_token s.lib req.subject_token true ≡ some subject
  pub held : IssuedCredential
  pub active : Active call subject.jwt_id w.credentials held
  pub actor : Identity
  pub as_actor : Actor s call held actor
  pub policy : CredentialPolicy
  pub governed : World
  pub resolved : resolve_credential_policy call actor w ≡ (ok policy, governed)
  pub row : IssuedCredential
  pub added : v.credentials ≡ row ∷ w.credentials
  pub named : token.jti ≡ row.jti
  pub attenuated : Attenuated req subject held actor policy row
  pub sessions : SameSessions w v

pub identity_by-eq_some :
    (s : OAuthService) (call : GrantCall) (key : Identity → String) (value account project : String)
    {i : Identity}
    → identity_by s call key value account project ≡ some i
    → Memᴰ i s.identities × (key i ≡ value) × (i.account_id ≡ account) × (i.project_id ≡ project)
unfolding identity_by
identity_by-eq_some s call key value account project {i} h = elim (Bool-cases call.identity_read) [
  | inr down ↦ cc (simp down at h)
  | inl up ↦
      let (k, m) = find-eq_some _ s.identities (simp up at h) in
      let (a, b, c) = same_key (key i) value i.account_id account i.project_id project k in
      (m, a, b, c)
]

-- ===== src/OAuth/Key.antt =====
-- `apiKeyGrant` of internal/service/oauth.go. The update of the key's last use, which runs later and on the key's
-- row alone, is left out.
use zeroid.Prelude.{
  String, true, Option, none, some, List, [], ◌==◌, ◌&&◌, not, is_empty, if◌then◌else◌,
}
use zeroid.Prelude.Table.{find}
use zeroid.Identity.Class.{IdentityType}
use zeroid.Identity.Model.{Identity}
use zeroid.Policy.Defs.{CredentialPolicy}
use zeroid.Credential.Defs.{IssueRequest, zero_request, AccessToken}
use zeroid.Scope.{parse_scope_string, intersect_scopes}
use zeroid.OAuth.Defs.{
  invalid_request, invalid_grant, server_error, TokenRequest, OAuthService, GrantCall, ApiKey,
}
use zeroid.OAuth.Step.{Step, done, check, need, ◌>>=◌, ◌>>◌}
use zeroid.OAuth.Lookup.{identity_by, gate, get_by_key_hash, resolve_credential_policy, issue}
use zeroid.OAuth.External.{synthetic_identity, with_tenant}

unfoldable pub bare_identity : ApiKey → Identity
bare_identity k = synthetic_identity IdentityType.unset k.account_id k.project_id

-- the identity that the key is linked to, gated; a key without one, or with one that is not found, goes on with
-- the bare identity
unfoldable pub gated_identity : GrantCall → ApiKey → Option Identity → Step Identity
gated_identity call k none = done (bare_identity k)
gated_identity call k (some i) = gate call i >>= λ u. done i

unfoldable pub key_identity : OAuthService → GrantCall → ApiKey → Step Identity
key_identity s call k =
    if k.identity_id == ""
    then done (bare_identity k)
    else gated_identity call k
        (identity_by s call (λ j. j.id) k.identity_id k.account_id k.project_id)

-- the id and the scopes of the identity's policy
unfoldable pub identity_layer : GrantCall → Identity → Step (String × List String)
identity_layer call i =
    if i.id == ""
    then done ("", [])
    else resolve_credential_policy call i >>= λ p. done (p.id, p.allowed_scopes)

-- the scopes of the key's policy; [] where there is none, which `intersectScopes` takes for no restriction
unfoldable pub key_policy : ApiKey → List CredentialPolicy → Option (List String)
key_policy k rows =
    elim (find
      (λ p.
        p.id == k.credential_policy_id
        && (p.account_id == k.account_id && p.project_id == k.project_id))
      rows) [ none ↦ none | some p ↦ some p.allowed_scopes ]

unfoldable pub key_layer_in :
    GrantCall → ApiKey → Option (List CredentialPolicy) → Step (List String)
key_layer_in call k none = done []
key_layer_in call k (some rows) =
    if k.credential_policy_id == ""
    then done []
    else need (if call.key_policy_read then key_policy k rows else none) server_error

unfoldable pub key_layer : GrantCall → ApiKey → Step (List String)
key_layer call k w = key_layer_in call k w.policies w

-- the chain of intersections
unfoldable pub key_scopes :
    List String → List String → List String → List String → List String → List String
key_scopes requested key key_policy policy identity =
    let scopes =
      intersect_scopes (intersect_scopes (intersect_scopes requested key) key_policy) policy in
    if is_empty policy then intersect_scopes scopes identity else scopes

unfoldable pub key_request : TokenRequest → ApiKey → Identity → String → List String → IssueRequest
key_request req k i policy scopes = record zero_request {
  identity = some i;
  identity_policy_id = policy;
  credential_policy_id = k.credential_policy_id;
  scopes = scopes;
  grant_type = "api_key";
  use_rs256 = true;
  acting_user_id = k.created_by;
  credential_expires_at = k.expires_at;
  dpop_key_thumbprint = req.dpop_key_thumbprint;
}

-- `apiKeyGrant`
unfoldable pub api_key_grant : OAuthService → GrantCall → TokenRequest → Step AccessToken
api_key_grant s call req = do
  check (not (req.api_key == "")) invalid_request
  check s.credential.has_rsa_keys server_error
  k ← need (get_by_key_hash s call (s.lib.sha256_hex req.api_key)) invalid_grant
  i ← key_identity s call k
  layer ← identity_layer call i
  by_key ← key_layer call k
  out ← issue s call (
      key_request req k i layer.0
        (key_scopes (parse_scope_string req.scope) k.scopes by_key layer.1 i.allowed_scopes))
  done (record (with_tenant k.account_id k.project_id k.created_by out.token) {
    external_id = i.external_id;
  })

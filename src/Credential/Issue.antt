-- ===== src/Credential/Issue.antt =====
-- `IssueCredential` of internal/service/credential.go, in the stages of the source.
use Prim.Native.String
use zeroid.Prelude.{
  ℕ, ◌-◌, ◌/◌, String, Bool, false, Option, none, some, List, [], ◌∷◌, ◌==◌, ◌&&◌, ◌||◌, not,
  if◌then◌else◌,
}
use zeroid.Prelude.Int.{ℤ, pos, lt_int}
use zeroid.Prelude.Result.{Result, ok, err, ◌>>=◌, ◌>>◌, require, or_fail}
use zeroid.Prelude.Table.{find, any}
use zeroid.Identity.Status.{is_usable}
use zeroid.Identity.Model.{Identity}
use zeroid.Policy.Defs.{AttestationLevel, CredentialPolicy, is_expired}
use zeroid.Policy.Enforce.{EnforcePolicyRequest, Violation, scopes_permitted, enforce_policy}
use zeroid.Credential.Defs.{
  IssuedCredential, Claims, IssueRequest, AccessToken, highest_verified_level, CredentialService,
  Call, IssueError, identity_required, identity_not_usable, identity_expired, credential_expired,
  scopes_not_allowed, policy_not_found, sign_failed, persist_failed, policy_violation, second,
  add_seconds,
}
use zeroid.Credential.Claims.{build_claims}

-- lines 128 to 140: a nil, an unusable and an expired identity are refused
unfoldable pub check_identity : ℕ → Option Identity → Result IssueError Identity
check_identity now none = err identity_required
check_identity now (some i) = do
  require (is_usable i.status) identity_not_usable
  require (not (is_expired now i.expires_at)) identity_expired
  ok i

-- the requested TTL, the default for one that is not positive, and the cap
unfoldable pub effective_ttl : ℤ → ℤ → ℤ → ℤ
effective_ttl default_ttl max_ttl requested =
    let ttl = if lt_int (pos 0) requested then requested else default_ttl in
    if lt_int max_ttl ttl then max_ttl else ttl

-- `int(expiresAt.Sub(now).Seconds())`: whole seconds, 0 once the time has passed (the source tests
-- for 0 or less)
unfoldable pub remaining_seconds : ℕ → ℕ → ℕ
remaining_seconds now expires = (expires - now) / second

-- the clamp by the identity's expiry, and again by the credential's
unfoldable pub clamp_ttl : IssueError → ℕ → Option ℕ → ℤ → Result IssueError ℤ
clamp_ttl e now none ttl = ok ttl
clamp_ttl e now (some expires) ttl =
    let remaining = pos (remaining_seconds now expires) in
    if lt_int (pos 0) remaining then ok (if lt_int remaining ttl then remaining else ttl) else err e

-- `GetPolicy`: by id, in the tenant of the identity
unfoldable pub get_policy : List CredentialPolicy → String → Identity → Option CredentialPolicy
get_policy policies id i =
    find (λ p. p.id == id && (p.account_id == i.account_id && p.project_id == i.project_id))
      policies

unfoldable pub violation_error : Option Violation → Result IssueError (Unit {0})
violation_error none = ok tt
violation_error (some v) = err (policy_violation v)

-- one policy layer: the look-up and the enforcement
unfoldable pub enforce_layer :
    ℕ
    → List CredentialPolicy
    → String
    → Identity
    → EnforcePolicyRequest
    → Result IssueError (Unit {0})
unfolding violation_error
enforce_layer now policies id i e = do
  p ← or_fail (get_policy policies id i) policy_not_found
  violation_error (enforce_policy now (some p) e)

-- the request that is checked against each policy
unfoldable pub enforce_request :
    CredentialService → Identity → IssueRequest → ℤ → String → EnforcePolicyRequest
enforce_request s i r ttl grant = record {
  ttl = ttl;
  grant_type = grant;
  scopes = r.scopes;
  trust_level = i.trust_level;
  attestation_level = elim s.attestations [
    | none ↦ AttestationLevel.unset
    | some records ↦
        if i.id == "" then AttestationLevel.unset else highest_verified_level i.id records
  ];
  delegation_depth = r.delegation_depth;
}

-- both layers: the identity policy, and the key's policy where it is another one
unfoldable pub enforce_policies :
    Call
    → Option (List CredentialPolicy)
    → Identity
    → IssueRequest
    → EnforcePolicyRequest
    → Result IssueError (Unit {0})
enforce_policies call none i r e = ok tt
enforce_policies call (some policies) i r e = do
  if r.identity_policy_id == ""
      then ok tt
      else enforce_layer call.enforced_at policies r.identity_policy_id i e
  if r.credential_policy_id == "" || r.credential_policy_id == r.identity_policy_id
      then ok tt
      else enforce_layer call.key_enforced_at policies r.credential_policy_id i e

-- `IssuedCredential` as it is persisted
unfoldable pub credential_row : Call → Identity → IssueRequest → ℤ → String → IssuedCredential
credential_row call i r ttl grant = record {
  id = call.credential_id;
  identity_id = if i.id == "" then none else some i.id;
  account_id = i.account_id;
  project_id = i.project_id;
  jti = call.jti;
  subject = i.wimse_uri;
  issued_at = call.issued_at;
  expires_at = add_seconds call.issued_at ttl;
  ttl_seconds = ttl;
  scopes = r.scopes;
  is_revoked = false;
  revoked_at = none;
  revoke_reason = "";
  grant_type = grant;
  delegation_depth = r.delegation_depth;
  parent_jti = r.parent_jti;
  delegated_by_wimse_uri = r.delegated_by;
  mission_id = if r.mission_id == "" then call.jti else r.mission_id;
  dpop_key_thumbprint = r.dpop_key_thumbprint;
}

-- `strings.Join(scopes, " ")`
unfoldable pub join_scopes : List String → String
join_scopes [] = ""
join_scopes (s ∷ []) = s
join_scopes (s ∷ t ∷ more) = String.◌++◌ s (String.◌++◌ " " (join_scopes (t ∷ more)))

unfoldable pub access_token : Call → IssueRequest → ℤ → String → AccessToken
access_token call r ttl signed = record {
  access_token = signed;
  token_type = if r.dpop_key_thumbprint == "" then "Bearer" else "DPoP";
  expires_in = ttl;
  scope = join_scopes r.scopes;
  jti = call.jti;
  issued_at = call.issued_at / second;
  account_id = "";
  project_id = "";
  external_id = "";
  user_id = "";
  refresh_token = "";
  authorization_details = "";
}

-- the insert: the primary key and the unique `jti` must be new
unfoldable pub insert_credential :
    Bool → IssuedCredential → List IssuedCredential → Option (List IssuedCredential)
insert_credential stored c rows =
    if not stored || any (λ d. d.id == c.id || d.jti == c.jti) rows then none else some (c ∷ rows)

pub record Issued : Type 0 where
  pub token : AccessToken
  pub credential : IssuedCredential
  pub claims : Claims
  pub rows : List IssuedCredential

-- lines 303 to 475: build the token, sign it, persist the row
unfoldable pub mint :
    CredentialService
    → Call
    → List IssuedCredential
    → Identity
    → IssueRequest
    → ℤ
    → String
    → Result IssueError Issued
mint s call rows i r ttl grant = do
  let row = credential_row call i r ttl grant
  let claims =
      build_claims s.issuer call.jti call.issued_at (add_seconds call.issued_at ttl)
        (if r.mission_id == "" then call.jti else r.mission_id) grant i r
  signed ← or_fail (s.sign (r.use_rs256 && s.has_rsa_keys) claims) sign_failed
  rows' ← or_fail (insert_credential call.stored row rows) persist_failed
  ok (record {
    token = access_token call r ttl signed;
    credential = row;
    claims = claims;
    rows = rows';
  })

-- `IssueCredential`
unfoldable pub issue_credential :
    CredentialService → Call → List IssuedCredential → IssueRequest → Result IssueError Issued
issue_credential s call rows r = do
  i ← check_identity call.checked_at r.identity
  by_identity ←
      clamp_ttl identity_expired call.clamped_at i.expires_at
        (effective_ttl s.default_ttl s.max_ttl r.ttl)
  ttl ← clamp_ttl credential_expired call.clamped_at r.credential_expires_at by_identity
  let grant = if r.grant_type == "" then "client_credentials" else r.grant_type
  require (scopes_permitted i.allowed_scopes r.scopes) scopes_not_allowed
  enforce_policies call s.policies i r (enforce_request s i r ttl grant)
  mint s call rows i r ttl grant

-- ===== src/Policy/Enforce.antt =====
-- internal/service/credential_policy.go: the checks at issuance (`EnforcePolicy`) and the checks
-- that a key's policy is no broader than the identity's (`EnforceSubset`).
use zeroid.Prelude.{
  ℕ, String, Bool, true, not, Option, none, some, List, all, contains, is_empty, ◌&&◌, ◌||◌,
  if◌then◌else◌,
}
use zeroid.Prelude.Int.{ℤ, pos, lt_int}
use zeroid.Identity.Class.{TrustLevel, trust_level_rank}
use zeroid.Policy.Defs.{
  AttestationLevel, attestation_level_rank, CredentialPolicy, is_expired, normalize_grant_type,
}

-- `EnforcePolicyRequest`
pub record EnforcePolicyRequest : Type 0 where
  pub ttl : ℤ
  pub grant_type : String
  pub scopes : List String
  pub trust_level : TrustLevel
  pub attestation_level : AttestationLevel
  pub delegation_depth : ℤ

-- the check that an error of `EnforcePolicy` or `EnforceSubset` names
pub data Violation : Type 0 where
  inactive expired ttl grant_type scope trust_level attestation delegation_depth : Violation

-- `if len(policy.AllowedScopes) > 0 && len(req.Scopes) > 0 { … }`
unfoldable pub scopes_permitted : List String → List String → Bool
scopes_permitted allowed requested =
    is_empty allowed || is_empty requested || all (contains allowed) requested

-- a required level that is not "" is met by rank
unfoldable pub trust_met : TrustLevel → TrustLevel → Bool
trust_met TrustLevel.unset actual = true
trust_met required actual = not (lt_int (trust_level_rank actual) (trust_level_rank required))

unfoldable pub attestation_met : AttestationLevel → AttestationLevel → Bool
attestation_met AttestationLevel.unset actual = true
attestation_met required actual =
    not (lt_int (attestation_level_rank actual) (attestation_level_rank required))

-- the checks that follow `if policy == nil`, in the order of the source
unfoldable pub enforce : ℕ → CredentialPolicy → EnforcePolicyRequest → Option Violation
enforce now policy req =
    if not policy.is_active
    then some inactive
    else if is_expired now policy.expires_at
    then some expired
    else if lt_int policy.max_ttl_seconds req.ttl
    then some ttl
    else if not (contains policy.allowed_grant_types (normalize_grant_type req.grant_type))
    then some grant_type
    else if not (scopes_permitted policy.allowed_scopes req.scopes)
    then some scope
    else if not (trust_met policy.required_trust_level req.trust_level)
    then some trust_level
    else if not (attestation_met policy.required_attestation req.attestation_level)
    then some attestation
    else if lt_int policy.max_delegation_depth req.delegation_depth
    then some delegation_depth
    else none

-- `EnforcePolicy`: `none` is a nil error
unfoldable pub enforce_policy :
    ℕ → Option CredentialPolicy → EnforcePolicyRequest → Option Violation
unfolding enforce
enforce_policy now none req = none
enforce_policy now (some policy) req = enforce now policy req

-- the scope check of `EnforceSubset`: guarded on the wider list alone
unfoldable pub scopes_subset : List String → List String → Bool
scopes_subset narrower wider = is_empty wider || all (contains wider) narrower

-- the checks that follow the nil test of `EnforceSubset`, in the order of the source
unfoldable pub subset : CredentialPolicy → CredentialPolicy → Option Violation
subset narrower wider =
    if not (scopes_subset narrower.allowed_scopes wider.allowed_scopes)
    then some scope
    else if not (all (contains wider.allowed_grant_types) narrower.allowed_grant_types)
    then some grant_type
    else if lt_int (pos 0) wider.max_ttl_seconds
        && lt_int wider.max_ttl_seconds narrower.max_ttl_seconds
    then some ttl
    else if lt_int wider.max_delegation_depth narrower.max_delegation_depth
    then some delegation_depth
    else if not (trust_met wider.required_trust_level narrower.required_trust_level)
    then some trust_level
    else if not (attestation_met wider.required_attestation narrower.required_attestation)
    then some attestation
    else none

-- `EnforceSubset`
unfoldable pub enforce_subset : Option CredentialPolicy → Option CredentialPolicy → Option Violation
unfolding subset
enforce_subset none wider = none
enforce_subset (some narrower) none = none
enforce_subset (some narrower) (some wider) = subset narrower wider

-- ===== src/Policy/Permits.antt =====
-- internal/service/credential_policy.go: the reading of a policy that `EnforcePolicy` is compared with.
use zeroid.Prelude.{
  ℕ, ◌<◌, ◌≡◌, ◌≢◌, refl, ◌↔◌, String, true, false, Option, none, some, List, [], ◌∷◌, Memᴰ, Subset,
  contains, contains-mem, mem-contains, all-contains-Subset, Subset-all-contains, arith,
}
use zeroid.Prelude.Int.{◌≤ℤ◌, lt_int, lt_int→le, le→lt_int}
use zeroid.Identity.Class.{TrustLevel, trust_level_rank}
use zeroid.Policy.Defs.{
  AttestationLevel, attestation_level_rank, CredentialPolicy, is_expired, normalize_grant_type,
}
use zeroid.Policy.Enforce.{
  EnforcePolicyRequest, scopes_permitted, trust_met, attestation_met, enforce, enforce_policy,
}

-- A policy permits a request: the six constraints of the policy, and that it is in force.
pub record Permits (now : ℕ) (p : CredentialPolicy) (r : EnforcePolicyRequest) : Type 0 where
  pub active : p.is_active ≡ true
  pub current : (t : ℕ) → p.expires_at ≡ some t → now < t
  pub ttl : r.ttl ≤ℤ p.max_ttl_seconds
  pub grant : Memᴰ (normalize_grant_type r.grant_type) p.allowed_grant_types
  pub scopes : p.allowed_scopes ≢ [] → Subset r.scopes p.allowed_scopes
  pub trust :
      p.required_trust_level ≢ TrustLevel.unset
      → trust_level_rank p.required_trust_level ≤ℤ trust_level_rank r.trust_level
  pub attestation :
      p.required_attestation ≢ AttestationLevel.unset
      → attestation_level_rank p.required_attestation ≤ℤ attestation_level_rank r.attestation_level
  pub depth : r.delegation_depth ≤ℤ p.max_delegation_depth

-- The tests of `enforce`, all passed.
record Passes (now : ℕ) (p : CredentialPolicy) (r : EnforcePolicyRequest) : Type 0 where
  active : p.is_active ≡ true
  current : is_expired now p.expires_at ≡ false
  ttl : lt_int p.max_ttl_seconds r.ttl ≡ false
  grant : contains p.allowed_grant_types (normalize_grant_type r.grant_type) ≡ true
  scopes : scopes_permitted p.allowed_scopes r.scopes ≡ true
  trust : trust_met p.required_trust_level r.trust_level ≡ true
  attestation : attestation_met p.required_attestation r.attestation_level ≡ true
  depth : lt_int p.max_delegation_depth r.delegation_depth ≡ false

enforce-Passes :
    (now : ℕ) (p : CredentialPolicy) (r : EnforcePolicyRequest)
    → (enforce now p r ≡ none) ↔ Passes now p r
unfolding enforce
enforce-Passes now p r = ground arith

pub scopes_permitted_iff :
    (allowed requested : List String)
    → (scopes_permitted allowed requested ≡ true) ↔ (allowed ≢ [] → Subset requested allowed)
unfolding scopes_permitted
scopes_permitted_iff [] requested = (λ h n. absurd (n refl), λ f. refl)
scopes_permitted_iff (a ∷ rest) [] = (λ h n. tt, λ f. refl)
scopes_permitted_iff (a ∷ rest) (r ∷ rs) = (
  λ h n. all-contains-Subset (a ∷ rest) (r ∷ rs) h,
  λ f. Subset-all-contains (a ∷ rest) (r ∷ rs) (f (λ e. cc e)),
)

pub trust_met_iff :
    (required actual : TrustLevel)
    → (trust_met required actual ≡ true)
      ↔ (required ≢ TrustLevel.unset → trust_level_rank required ≤ℤ trust_level_rank actual)
unfolding trust_met
trust_met_iff TrustLevel.unset actual = (λ h n. absurd (n refl), λ f. refl)
trust_met_iff required actual = (
  λ h n. lt_int→le (trust_level_rank actual) (trust_level_rank required) (ground arith),
  λ f. rw (le→lt_int (trust_level_rank actual) (trust_level_rank required) (f (λ e. cc e))) refl,
)

pub attestation_met_iff :
    (required actual : AttestationLevel)
    → (attestation_met required actual ≡ true) ↔ (
        required ≢ AttestationLevel.unset
        → attestation_level_rank required ≤ℤ attestation_level_rank actual)
unfolding attestation_met
attestation_met_iff AttestationLevel.unset actual = (λ h n. absurd (n refl), λ f. refl)
attestation_met_iff required actual = (
  λ h n. lt_int→le (attestation_level_rank actual) (attestation_level_rank required) (ground arith),
  λ f.
      rw
        (le→lt_int (attestation_level_rank actual) (attestation_level_rank required)
          (f (λ e. cc e)))
        refl,
)

is_expired_iff :
    (now : ℕ) (e : Option ℕ) → (is_expired now e ≡ false) ↔ ((t : ℕ) → e ≡ some t → now < t)
is_expired_iff now none = (λ h t k. cc, λ f. refl)
is_expired_iff now (some u) = (λ h t k. ground arith, λ f. let k = f u refl in ground arith)

Passes-Permits :
    (now : ℕ) (p : CredentialPolicy) (r : EnforcePolicyRequest) → Passes now p r → Permits now p r
Passes-Permits now p r h = record {
  active = h.active;
  current = (is_expired_iff now p.expires_at).0 h.current;
  ttl = lt_int→le p.max_ttl_seconds r.ttl h.ttl;
  grant = contains-mem _ _ h.grant;
  scopes = (scopes_permitted_iff p.allowed_scopes r.scopes).0 h.scopes;
  trust = (trust_met_iff _ _).0 h.trust;
  attestation = (attestation_met_iff _ _).0 h.attestation;
  depth = lt_int→le p.max_delegation_depth r.delegation_depth h.depth;
}

Permits-Passes :
    (now : ℕ) (p : CredentialPolicy) (r : EnforcePolicyRequest) → Permits now p r → Passes now p r
Permits-Passes now p r h = record {
  active = h.active;
  current = (is_expired_iff now p.expires_at).1 h.current;
  ttl = le→lt_int p.max_ttl_seconds r.ttl h.ttl;
  grant = mem-contains h.grant;
  scopes = (scopes_permitted_iff p.allowed_scopes r.scopes).1 h.scopes;
  trust = (trust_met_iff _ _).1 h.trust;
  attestation = (attestation_met_iff _ _).1 h.attestation;
  depth = le→lt_int p.max_delegation_depth r.delegation_depth h.depth;
}

-- `EnforcePolicy` returns nil for a policy exactly when the policy is active, has not expired at
-- `now`, and the request meets the six constraints.
pub enforce-Permits :
    (now : ℕ) (p : CredentialPolicy) (r : EnforcePolicyRequest)
    → (enforce_policy now (some p) r ≡ none) ↔ Permits now p r
unfolding enforce_policy
enforce-Permits now p r = (
  λ e. Passes-Permits now p r ((enforce-Passes now p r).0 e),
  λ h. (enforce-Passes now p r).1 (Permits-Passes now p r h),
)

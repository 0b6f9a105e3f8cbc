-- ===== src/Policy/Subset.antt =====
-- internal/service/credential_policy.go: `EnforceSubset`, which compares a key's policy with the identity's,
-- against `EnforcePolicy`.
use zeroid.Prelude.{
  ℕ, ◌<◌, ◌≡◌, ◌≢◌, refl, ◌⊎◌, inl, inr, String, true, none, some, List, [], ◌∷◌, Memᴰ, Subset,
  Subset_trans, mem_of_Subset, all, contains, all-contains-Subset, arith,
}
use zeroid.Prelude.Int.{pos, ◌≤ℤ◌, ◌<ℤ◌}
use zeroid.Identity.Class.{TrustLevel}
use zeroid.Policy.Defs.{AttestationLevel, CredentialPolicy}
use zeroid.Policy.Enforce.{
  EnforcePolicyRequest, scopes_subset, trust_met, attestation_met, enforce_policy, subset,
  enforce_subset,
}
use zeroid.Policy.Permits.{enforce-Permits, trust_met_iff, attestation_met_iff}

-- The tests of `subset`, all passed.
record Within (n w : CredentialPolicy) : Type 0 where
  scopes : scopes_subset n.allowed_scopes w.allowed_scopes ≡ true
  grants : all (contains w.allowed_grant_types) n.allowed_grant_types ≡ true
  ttl : pos 0 <ℤ w.max_ttl_seconds → n.max_ttl_seconds ≤ℤ w.max_ttl_seconds
  depth : n.max_delegation_depth ≤ℤ w.max_delegation_depth
  trust : trust_met w.required_trust_level n.required_trust_level ≡ true
  attestation : attestation_met w.required_attestation n.required_attestation ≡ true

subset-Within : (n w : CredentialPolicy) → subset n w ≡ none → Within n w
unfolding subset
subset-Within n w h = ground arith

trust_met_trans :
    (w n a : TrustLevel) → trust_met w n ≡ true → trust_met n a ≡ true → trust_met w a ≡ true
unfolding trust_met
trust_met_trans w n a h k = ground arith

attestation_met_trans :
    (w n a : AttestationLevel)
    → attestation_met w n ≡ true
    → attestation_met n a ≡ true
    → attestation_met w a ≡ true
unfolding attestation_met
attestation_met_trans w n a h k = ground arith

scopes_within :
    (ns ws rs : List String)
    → scopes_subset ns ws ≡ true
    → (ns ≢ []) ⊎ (ws ≡ [])
    → (ns ≢ [] → Subset rs ns)
    → ws ≢ []
    → Subset rs ws
unfolding scopes_subset
scopes_within ns [] rs h c f k = absurd (k refl)
scopes_within ns (w ∷ ws) rs h (inl c) f k =
    Subset_trans rs ns (w ∷ ws) (f c) (all-contains-Subset (w ∷ ws) ns h)
scopes_within ns (w ∷ ws) rs h (inr e) f k = absurd (k e)

-- If `EnforceSubset` accepts a key's policy under the identity's policy, and the key's policy
-- restricts scopes or the identity's does not, then every request that the key's policy lets
-- through is let through by the identity's, as long as that is active, not expired and has a
-- positive maximal TTL.
pub enforce_subset_sound :
    (now : ℕ) (n w : CredentialPolicy) (r : EnforcePolicyRequest)
    → enforce_subset (some n) (some w) ≡ none
    → (n.allowed_scopes ≢ []) ⊎ (w.allowed_scopes ≡ [])
    → w.is_active ≡ true
    → ((t : ℕ) → w.expires_at ≡ some t → now < t)
    → pos 0 <ℤ w.max_ttl_seconds
    → enforce_policy now (some n) r ≡ none
    → enforce_policy now (some w) r ≡ none
unfolding enforce_subset
enforce_subset_sound now n w r s c active current positive e =
    let within = subset-Within n w s in
    let p = (enforce-Permits now n r).0 e in
    (enforce-Permits now w r).1 (record {
      active = active;
      current = current;
      ttl = let h = within.ttl positive in let k = p.ttl in omega arith;
      grant =
          mem_of_Subset p.grant
            (all-contains-Subset w.allowed_grant_types n.allowed_grant_types within.grants);
      scopes = scopes_within n.allowed_scopes w.allowed_scopes r.scopes within.scopes c p.scopes;
      trust = (trust_met_iff _ _).0 (
          trust_met_trans w.required_trust_level n.required_trust_level r.trust_level within.trust
            ((trust_met_iff _ _).1 p.trust));
      attestation = (attestation_met_iff _ _).0 (
          attestation_met_trans w.required_attestation n.required_attestation r.attestation_level
            within.attestation ((attestation_met_iff _ _).1 p.attestation));
      depth = let h = within.depth in let k = p.depth in omega arith;
    })

drop_scopes :
    (n w : CredentialPolicy)
    → n.allowed_scopes ≡ []
    → enforce_subset (some n) (some (record w { allowed_scopes = [] })) ≡ none
    → enforce_subset (some n) (some w) ≡ none
unfolding enforce_subset scopes_subset
drop_scopes n w e h = ground arith

-- A key's policy that lists no scopes, and that `EnforceSubset` accepts under the identity's policy
-- with its scopes taken off, is accepted under the identity's policy as it is. Where that lists
-- scopes, the key's policy is broader: where it lets a request through, it lets it through with
-- any one scope asked for, and the identity's policy refuses that for each scope not on its list.
pub enforce_subset-broader :
    (now : ℕ) (n w : CredentialPolicy) (r : EnforcePolicyRequest) (s : String)
    → enforce_subset (some n) (some (record w { allowed_scopes = [] })) ≡ none
    → n.allowed_scopes ≡ []
    → w.allowed_scopes ≢ []
    → ¬ Memᴰ s w.allowed_scopes
    → enforce_policy now (some n) r ≡ none
    → (enforce_subset (some n) (some w) ≡ none)
      × (enforce_policy now (some n) (record r { scopes = s ∷ [] }) ≡ none)
      × (enforce_policy now (some w) (record r { scopes = s ∷ [] }) ≢ none)
enforce_subset-broader now n w r s accepted empty restricted outside e =
    let p = (enforce-Permits now n r).0 e in
    (
      drop_scopes n w empty accepted,
      (enforce-Permits now n (record r { scopes = s ∷ [] })).1 (record {
        active = p.active;
        current = p.current;
        ttl = p.ttl;
        grant = p.grant;
        scopes = λ k. absurd (k empty);
        trust = p.trust;
        attestation = p.attestation;
        depth = p.depth;
      }),
      λ h.
          outside
            (((enforce-Permits now w (record r { scopes = s ∷ [] })).0 h).scopes restricted).0,
    )

-- ===== src/Tests/Policy.antt =====
-- Policies: an identity's policy, a key's policy within it, and one that lists no scopes.
use zeroid.Prelude.{
  ◌≡◌, ◌≢◌, ◌↔◌, inl, refl, true, false, eq_iff, none, some, [], ◌∷◌, String, Memᴰ, arith,
}
use zeroid.Prelude.Int.{pos}
use zeroid.Identity.Class.{TrustLevel}
use zeroid.Policy.Defs.{
  AttestationLevel, CredentialPolicy, normalize_grant_type, is_valid_grant_type, valid_attestation,
}
use zeroid.Policy.Enforce.{
  EnforcePolicyRequest, scopes_permitted, trust_met, attestation_met, enforce, enforce_policy,
  scopes_subset, subset, enforce_subset,
}
use zeroid.Prelude.Result.{ok, err}
use zeroid.Prelude.Table.{find, any, update_where}
use zeroid.Policy.Admin.{
  CreatePolicyRequest, UpdatePolicyRequest, trust_allowed, attestation_allowed, create_grants,
  insert_policy, new_policy, create_policy, parse_expires_at_patch, patch_expires_at, apply_patch,
  patch_policy, update_policy,
}
use zeroid.Policy.Admin.{clashes, name_conflict}
use zeroid.Policy.Default.{is_default, default_policy_request, ensure_default_policy}
use zeroid.Policy.Ensured.{fresh_default, ensure_default_policy-inactive}
use zeroid.Policy.Admin.Stored.{Sound, Stored, create_policy-Stored, update_policy-Stored}
use zeroid.Policy.Permits.{Permits, enforce-Permits}
use zeroid.Policy.Subset.{enforce_subset_sound, enforce_subset-broader}

abbrev pub wide : CredentialPolicy
wide = record {
  id = "wide";
  account_id = "acct";
  project_id = "proj";
  name = "wide";
  description = "";
  max_ttl_seconds = pos 3600;
  allowed_grant_types = "client_credentials" ∷ "api_key" ∷ [];
  allowed_scopes = "read" ∷ "write" ∷ [];
  required_trust_level = TrustLevel.unset;
  required_attestation = AttestationLevel.unset;
  max_delegation_depth = pos 2;
  is_active = true;
  expires_at = none;
  created_at = 0;
  updated_at = 0;
}

abbrev narrow : CredentialPolicy
narrow = record wide {
  max_ttl_seconds = pos 60;
  allowed_grant_types = "api_key" ∷ [];
  allowed_scopes = "read" ∷ [];
  required_trust_level = TrustLevel.first_party;
  max_delegation_depth = pos 1;
}

-- like `narrow`, without a list of scopes
abbrev unlisted : CredentialPolicy
unlisted = record narrow { allowed_scopes = [] }

abbrev request : EnforcePolicyRequest
request = record {
  ttl = pos 30;
  grant_type = "api_key";
  scopes = "read" ∷ [];
  trust_level = TrustLevel.first_party;
  attestation_level = AttestationLevel.unset;
  delegation_depth = pos 1;
}

enforce-Permits_example : (enforce_policy 5 (some narrow) request ≡ none) ↔ Permits 5 narrow request
enforce-Permits_example = enforce-Permits 5 narrow request

enforce_subset_sound_example : enforce_policy 5 (some wide) request ≡ none
unfolding enforce_subset subset scopes_subset enforce_policy enforce scopes_permitted trust_met
    attestation_met normalize_grant_type
enforce_subset_sound_example =
    enforce_subset_sound 5 narrow wide request refl (inl (λ e. cc e)) refl (λ t e. cc e)
      (omega arith) refl

enforce_subset-broader_example :
    (enforce_subset (some unlisted) (some wide) ≡ none)
    × (enforce_policy 5 (some unlisted) (record request { scopes = "admin" ∷ [] }) ≡ none)
    × (enforce_policy 5 (some wide) (record request { scopes = "admin" ∷ [] }) ≢ none)
unfolding enforce_subset subset scopes_subset enforce_policy enforce scopes_permitted trust_met
    attestation_met normalize_grant_type
enforce_subset-broader_example =
    enforce_subset-broader 5 unlisted wide request "admin" refl refl (λ e. cc e) outside refl
  where
    outside : Memᴰ {A = String} "admin" ("read" ∷ "write" ∷ []) → ⊥
    outside (Memᴰ.head e) = let k : false ≡ true = (eq_iff "admin" "read").1 e in cc k
    outside (Memᴰ.tail (Memᴰ.head e)) = let k : false ≡ true = (eq_iff "admin" "write").1 e in cc k
    outside (Memᴰ.tail (Memᴰ.tail m)) = elim m [ ]

abbrev asked : CreatePolicyRequest
asked = record {
  account_id = "acct";
  project_id = "proj";
  name = "bots";
  description = "";
  max_ttl_seconds = pos 0;
  allowed_grant_types = "urn:ietf:params:oauth:grant-type:jwt-bearer" ∷ [];
  allowed_scopes = [];
  required_trust_level = TrustLevel.first_party;
  required_attestation = AttestationLevel.unset;
  max_delegation_depth = pos 1;
  expires_at = none;
}

abbrev made : CredentialPolicy
made = new_policy "p-1" 5 asked

create_run : create_policy "p-1" 5 true asked [] ≡ ok (made, made ∷ [])
unfolding create_policy create_grants normalize_grant_type is_valid_grant_type trust_allowed
    attestation_allowed insert_policy any new_policy
create_run = refl

none-Stored : Stored []
none-Stored = record { sound = λ p m. elim m [ ] }

create_policy-Stored_example : Sound made × ((made ∷ []) ≡ (made ∷ [])) × Stored (made ∷ [])
create_policy-Stored_example = create_policy-Stored "p-1" 5 true asked [] none-Stored create_run

made-Stored : Stored (made ∷ [])
made-Stored = (create_policy-Stored "p-1" 5 true asked [] none-Stored create_run).2

abbrev change : UpdatePolicyRequest
change = record {
  name = "";
  description = none;
  max_ttl_seconds = some (pos 60);
  allowed_grant_types = none;
  allowed_scopes = some ("read" ∷ []);
  required_trust_level = none;
  required_attestation = some AttestationLevel.hardware;
  max_delegation_depth = none;
  is_active = some false;
  expires_at = some "";
}

abbrev changed : CredentialPolicy
changed = apply_patch 9 change none made

update_run :
    update_policy (λ text. none) 8 9 true "p-1" "acct" "proj" change (made ∷ [])
    ≡ ok (changed, changed ∷ [])
unfolding update_policy find patch_policy patch_expires_at parse_expires_at_patch trust_allowed
    attestation_allowed valid_attestation apply_patch any update_where new_policy
update_run = refl

update_policy-Stored_example : Sound changed × Stored (changed ∷ [])
update_policy-Stored_example =
    update_policy-Stored (λ text. none) 8 9 true "p-1" "acct" "proj" change (made ∷ []) made-Stored
      update_run

abbrev switched_off : CredentialPolicy
switched_off = record wide { name = "default"; is_active = false }

none_active : any (is_default "acct" "proj") (switched_off ∷ []) ≡ false
unfolding any is_default
none_active = refl

taken : any (clashes (fresh_default "new" 5 "acct" "proj")) (switched_off ∷ []) ≡ true
unfolding any new_policy default_policy_request
taken = refl

ensure_default_policy-inactive_example :
    ensure_default_policy true "new" 5 true true "acct" "proj" (switched_off ∷ [])
    ≡ err name_conflict
ensure_default_policy-inactive_example =
    ensure_default_policy-inactive "new" 5 "acct" "proj" (switched_off ∷ []) none_active taken

-- ===== src/Policy/Ensured.antt =====
-- internal/service/credential_policy.go: when a tenant gets its default policy.
use zeroid.Prelude.{
  ◌≡◌, refl, ℕ, String, Bool, true, false, none, List, ◌∷◌, inl, inr, Bool-cases, Option-cases,
  if◌then◌else◌,
}
use zeroid.Prelude.Result.{ok, err}
use zeroid.Prelude.Table.{find, any, find-eq_some, any-Mem}
use zeroid.Policy.Defs.{CredentialPolicy, is_valid_grant_type, normalize_grant_type}
use zeroid.Policy.Admin.{
  name_conflict, create_policy, create_grants, insert_policy, new_policy, clashes, trust_allowed,
  attestation_allowed,
}
use zeroid.Policy.Default.{
  is_default, get_default_by_tenant, default_policy_request, after_create, retry_default,
  create_if_missing, ensure_default_policy,
}

-- The row that a tenant's default policy would be.
abbrev pub fresh_default : String → ℕ → String → String → CredentialPolicy
fresh_default id now account project = new_policy id now (default_policy_request account project)

-- What `CreatePolicy` does with the default's request depends on the insert alone.
create_default :
    (id : String) (now : ℕ) (account project : String) (rows : List CredentialPolicy)
    → create_policy id now true (default_policy_request account project) rows ≡ (
        if any (clashes (fresh_default id now account project)) rows
        then err name_conflict
        else ok (fresh_default id now account project, fresh_default id now account project ∷ rows))
unfolding create_policy default_policy_request create_grants insert_policy trust_allowed
    attestation_allowed is_valid_grant_type normalize_grant_type
create_default id now account project rows =
    elim (Bool-cases (any (clashes (fresh_default id now account project)) rows)) [
      | inl taken ↦ simp taken refl
      | inr free ↦ simp free refl
    ]

-- The active default policy of a tenant.
pub record DefaultPolicy (account project : String) (p : CredentialPolicy) : Type 0 where
  pub of_account : p.account_id ≡ account
  pub of_project : p.project_id ≡ project
  pub named : p.name ≡ "default"
  pub active : p.is_active ≡ true

missing_default :
    (account project : String) (rows : List CredentialPolicy)
    → any (is_default account project) rows ≡ false
    → get_default_by_tenant true account project rows ≡ none
unfolding get_default_by_tenant
missing_default account project rows none_active =
    elim (Option-cases (find (is_default account project) rows)) [
      | inl missing ↦ missing
      | inr (p, found) ↦
          let (hit, stored) = find-eq_some (is_default account project) rows found in
          let some_active = any-Mem (is_default account project) stored hit in cc
    ]

-- Where the tenant's policy "default" is there, but not active, `EnsureDefaultPolicy` fails: no new one can be
-- stored under its name.
pub ensure_default_policy-inactive :
    (id : String) (now : ℕ) (account project : String) (rows : List CredentialPolicy)
    → any (is_default account project) rows ≡ false
    → any (clashes (fresh_default id now account project)) rows ≡ true
    → ensure_default_policy true id now true true account project rows ≡ err name_conflict
unfolding ensure_default_policy create_if_missing after_create retry_default
ensure_default_policy-inactive id now account project rows none_active taken =
    simp
      (
        missing_default account project rows none_active,
        create_default id now account project rows,
        taken,
      )
      refl

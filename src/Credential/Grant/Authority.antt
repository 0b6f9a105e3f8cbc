-- ===== src/Credential/Grant/Authority.antt =====
-- The authority behind an issued credential: the identity, its scopes and the policies.
use zeroid.Prelude.{
  ℕ, ◌<◌, ◌≡◌, ◌≢◌, ◌∙◌, refl, sym, ap, String, Bool, true, false, Option, none, some, List, [],
  ◌==◌, ◌||◌, Memᴰ, Subset, same_key, eq_false_of_ne, if◌then◌else◌, arith,
}
use mathlib.Core.Path.{subst}
use zeroid.Prelude.Int.{ℤ}
use zeroid.Prelude.Result.{Result, ok, or_fail, >>=-eq_ok, or_fail-eq_ok}
use zeroid.Prelude.Table.{find-eq_some}
use zeroid.Identity.Status.{active, is_usable}
use zeroid.Identity.Model.{Identity}
use zeroid.Policy.Defs.{CredentialPolicy}
use zeroid.Policy.Enforce.{EnforcePolicyRequest, Violation}
use zeroid.Policy.Permits.{Permits, enforce-Permits, scopes_permitted_iff}
use zeroid.Credential.Defs.{IssuedCredential, IssueRequest, CredentialService, Call, IssueError}
use zeroid.Credential.Issue.{
  check_identity, get_policy, violation_error, enforce_layer, enforce_request, enforce_policies,
  Issued, issue_credential, credential_row,
}
use zeroid.Credential.Grant.Stages.{issue-Stages, grant_of, mint-Minted}

pub check_identity-eq_ok :
    (now : ℕ) (o : Option Identity) {i : Identity}
    → check_identity now o ≡ ok i
    → (o ≡ some i) × (i.status ≡ active) × ((t : ℕ) → i.expires_at ≡ some t → now < t)
unfolding check_identity is_usable
check_identity-eq_ok now none h = cc
check_identity-eq_ok now (some j) {i} h = (ground arith, ground arith, λ t e. ground arith)

-- A policy of the store, with the id and in the tenant of the identity, permits the request.
pub record Enforced (now : ℕ) (policies : List CredentialPolicy) (id : String) (i : Identity)
    (e : EnforcePolicyRequest) : Type 0 where
  pub policy : CredentialPolicy
  pub stored : Memᴰ policy policies
  pub same_id : policy.id ≡ id
  pub same_account : policy.account_id ≡ i.account_id
  pub same_project : policy.project_id ≡ i.project_id
  pub permits : Permits now policy e

get_policy-eq_some :
    (policies : List CredentialPolicy) (id : String) (i : Identity) {p : CredentialPolicy}
    → get_policy policies id i ≡ some p
    → Memᴰ p policies × (p.id ≡ id) × (p.account_id ≡ i.account_id) × (p.project_id ≡ i.project_id)
unfolding get_policy
get_policy-eq_some policies id i {p} h =
    let (holds, stored) = find-eq_some _ policies h in
    let (a, b, c) = same_key p.id id p.account_id i.account_id p.project_id i.project_id holds in
    (stored, a, b, c)

violation_error-eq_ok : (v : Option Violation) {u : Unit {0}} → violation_error v ≡ ok u → v ≡ none
unfolding violation_error
violation_error-eq_ok none h = refl
violation_error-eq_ok (some v) h = cc

enforce_layer-Enforced :
    (now : ℕ) (policies : List CredentialPolicy) (id : String) (i : Identity)
    (e : EnforcePolicyRequest) {u : Unit {0}}
    → enforce_layer now policies id i e ≡ ok u
    → Enforced now policies id i e
unfolding enforce_layer
enforce_layer-Enforced now policies id i e h =
    let (p, found, passed) = >>=-eq_ok (or_fail (get_policy policies id i) _) _ h in
    let (stored, a, b, c) = get_policy-eq_some policies id i (or_fail-eq_ok _ _ found) in
    record {
      policy = p;
      stored = stored;
      same_id = a;
      same_account = b;
      same_project = c;
      permits = (enforce-Permits now p e).0 (violation_error-eq_ok _ passed);
    }

layer_if :
    (skip : Bool) (m : Result IssueError (Unit {0})) {u : Unit {0}}
    → (if skip then ok tt else m) ≡ ok u
    → skip ≡ false
    → m ≡ ok tt
layer_if true m h e = cc
layer_if false m h e = h

-- What the two policy layers establish.
pub record Layers (call : Call) (policies : List CredentialPolicy) (i : Identity) (r : IssueRequest)
    (e : EnforcePolicyRequest) : Type 0 where
  pub by_identity :
      r.identity_policy_id ≢ "" → Enforced call.enforced_at policies r.identity_policy_id i e
  pub by_key :
      r.credential_policy_id ≢ ""
      → r.credential_policy_id ≢ r.identity_policy_id
      → Enforced call.key_enforced_at policies r.credential_policy_id i e

enforce_policies-Layers :
    (call : Call) (policies : List CredentialPolicy) (i : Identity) (r : IssueRequest)
    (e : EnforcePolicyRequest)
    → enforce_policies call (some policies) i r e ≡ ok tt
    → Layers call policies i r e
unfolding enforce_policies
enforce_policies-Layers call policies i r e h =
    let (u, first, second) =
      >>=-eq_ok
        (if r.identity_policy_id == ""
          then ok tt
          else enforce_layer call.enforced_at policies r.identity_policy_id i e)
        _ h in
    record {
      by_identity = λ n.
          enforce_layer-Enforced call.enforced_at policies r.identity_policy_id i e
            (layer_if (r.identity_policy_id == "") _ first (eq_false_of_ne _ _ n));
      by_key = λ n m.
          enforce_layer-Enforced call.key_enforced_at policies r.credential_policy_id i e (
            layer_if
              (r.credential_policy_id == "" || r.credential_policy_id == r.identity_policy_id) _
              second (rw (eq_false_of_ne _ _ n) (eq_false_of_ne _ _ m)));
    }

ttl-credential_row :
    (call : Call) (i : Identity) (r : IssueRequest) (ttl : ℤ) (grant : String)
    → (credential_row call i r ttl grant).ttl_seconds ≡ ttl
unfolding credential_row
ttl-credential_row call i r ttl grant = refl

-- Whenever `IssueCredential` returns a token, the request named an identity that is active and, when
-- it was checked, not expired; the requested scopes lie within the identity's allowed scopes, if
-- it lists any; and where the service has policies, a named identity policy, and a named key
-- policy that is another one, exist in the identity's tenant and permit the request, with the TTL that
-- the token has, at the time they are read.
pub issue-authority :
    (s : CredentialService) (call : Call) (rows : List IssuedCredential) (r : IssueRequest)
    (out : Issued)
    → issue_credential s call rows r ≡ ok out
    → (i : Identity) × (r.identity ≡ some i)
      × (i.status ≡ active)
      × ((t : ℕ) → i.expires_at ≡ some t → call.checked_at < t)
      × (i.allowed_scopes ≢ [] → Subset r.scopes i.allowed_scopes)
      × ((policies : List CredentialPolicy)
          → s.policies ≡ some policies
          → Layers call policies i r
              (enforce_request s i r out.credential.ttl_seconds (grant_of r)))
issue-authority s call rows r out h =
    let st = issue-Stages s call rows r h in
    let (named, usable, current) = check_identity-eq_ok call.checked_at r.identity st.checked in
    (
      st.identity,
      named,
      usable,
      current,
      (scopes_permitted_iff st.identity.allowed_scopes r.scopes).0 st.scoped,
      λ policies e.
          let m = mint-Minted s call rows st.identity r st.ttl (grant_of r) st.minted in
          subst
            (λ t.
              Layers call policies st.identity r (enforce_request s st.identity r t (grant_of r)))
            (sym (
              ap (λ (c : IssuedCredential). c.ttl_seconds) m.credential
              ∙ ttl-credential_row _ _ _ _ _))
            (enforce_policies-Layers call policies st.identity r _ (
              subst
                (λ o.
                  enforce_policies call o st.identity r
                    (enforce_request s st.identity r st.ttl (grant_of r))
                  ≡ ok tt)
                e st.enforced)),
    )

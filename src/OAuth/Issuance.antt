-- ===== src/OAuth/Issuance.antt =====
-- internal/service/oauth.go: what the steps that the grants share leave of the tables.
use zeroid.Prelude.{
  ◌≡◌, refl, sym, ap, ◌∙◌, Bool, true, false, Option, none, some, List, ◌∷◌, ◌==◌, not, inl, inr,
  Bool-cases,
}
use zeroid.Prelude.Int.{ℤ}
use zeroid.Prelude.Result.{Result, ok, err}
use zeroid.Identity.Status.{is_usable}
use zeroid.Identity.Model.{Identity}
use zeroid.Policy.Defs.{CredentialPolicy, is_expired}
use zeroid.Policy.Default.{Ensured}
use zeroid.Credential.Defs.{IssueRequest, IssueError}
use zeroid.Credential.Issue.{Issued, credential_row, access_token, issue_credential}
use zeroid.Credential.Grant.Stages.{issue-Stages, mint-Minted, insert-eq_some, grant_of}
use zeroid.OAuth.Defs.{OAuthError, OAuthService, GrantCall, World}
use zeroid.OAuth.Step.{need, check-eq_ok, check-true}
use zeroid.OAuth.Lookup.{
  gate, ensured, resolve_in, resolve_credential_policy, issued, with_policies, issue,
}

-- Two states that differ in the policies and the credentials only.
pub record SameSessions (w v : World) : Type 0 where
  pub refresh_tokens : v.refresh_tokens ≡ w.refresh_tokens
  pub auth_codes : v.auth_codes ≡ w.auth_codes
  pub requests : v.requests ≡ w.requests

pub SameSessions-trans : {u v w : World} → SameSessions u v → SameSessions v w → SameSessions u w
SameSessions-trans a b = record {
  refresh_tokens = b.refresh_tokens ∙ a.refresh_tokens;
  auth_codes = b.auth_codes ∙ a.auth_codes;
  requests = b.requests ∙ a.requests;
}

pub record OnlyPolicies (w v : World) : Type 0 where
  pub credentials : v.credentials ≡ w.credentials
  pub sessions : SameSessions w v

pub not-true : {b : Bool} → not b ≡ true → b ≡ false
not-true {b = true} k = cc
not-true {b = false} k = refl

pub gate-eq_ok :
    (call : GrantCall) (i : Identity) (w : World) {v : World}
    → gate call i w ≡ (ok tt, v)
    → (is_usable i.status ≡ true) × (is_expired call.identity_now i.expires_at ≡ false) × (v ≡ w)
unfolding gate
gate-eq_ok call i w h =
    let (usable, h1) = check-eq_ok (is_usable i.status) _ _ w h in
    let (live, same) = check-true (not (is_expired call.identity_now i.expires_at)) _ w h1 in
    (usable, not-true live, same)

ensured-OnlyPolicies :
    (w : World) (e : Ensured) {p : CredentialPolicy} {v : World}
    → ensured w e ≡ (ok p, v)
    → OnlyPolicies w v
unfolding ensured
ensured-OnlyPolicies w (ok (p, rows)) {v} h =
    let e : record w { policies = some rows } ≡ v = ap (λ r. r.1) h in
    rw (← e) (record {
      credentials = refl;
      sessions = record { refresh_tokens = refl; auth_codes = refl; requests = refl };
    })
ensured-OnlyPolicies w (err e) h = cc

need-OnlyPolicies :
    (o : Option CredentialPolicy) (e : OAuthError) (w : World) {p : CredentialPolicy} {v : World}
    → need o e w ≡ (ok p, v)
    → OnlyPolicies w v
need-OnlyPolicies none e w h = cc
need-OnlyPolicies (some q) e w {v} h =
    let same : w ≡ v = ap (λ r. r.1) h in
    rw (← same) (record {
      credentials = refl;
      sessions = record { refresh_tokens = refl; auth_codes = refl; requests = refl };
    })

resolve_in-OnlyPolicies :
    (call : GrantCall) (i : Identity) (o : Option (List CredentialPolicy)) (w : World)
    {p : CredentialPolicy} {v : World}
    → resolve_in call i o w ≡ (ok p, v)
    → OnlyPolicies w v
unfolding resolve_in
resolve_in-OnlyPolicies call i none w h = cc
resolve_in-OnlyPolicies call i (some rows) w h = elim (Bool-cases (i.credential_policy_id == "")) [
  | inl unset ↦ ensured-OnlyPolicies w _ (simp unset at h)
  | inr named ↦ need-OnlyPolicies _ _ w (simp named at h)
]

pub resolve-OnlyPolicies :
    (call : GrantCall) (i : Identity) (w : World) {p : CredentialPolicy} {v : World}
    → resolve_credential_policy call i w ≡ (ok p, v)
    → OnlyPolicies w v
unfolding resolve_credential_policy
resolve-OnlyPolicies call i w h = resolve_in-OnlyPolicies call i w.policies w h

-- What an issuance within a grant leaves: one more row, made by `IssueCredential`.
pub record IssuedIn (s : OAuthService) (call : GrantCall) (r : IssueRequest) (w : World)
    (out : Issued) (v : World) : Type 0 where
  pub by : issue_credential (with_policies s w) call.issue w.credentials r ≡ ok out
  pub added : v.credentials ≡ out.credential ∷ w.credentials
  pub sessions : SameSessions w v
  pub identity : Identity
  pub ttl : ℤ
  pub row : out.credential ≡ credential_row call.issue identity r ttl (grant_of r)
  pub token_jti : out.token.jti ≡ out.credential.jti

issued-eq_ok :
    (w : World) (r : Result IssueError Issued) {out : Issued} {v : World}
    → issued w r ≡ (ok out, v)
    → (r ≡ ok out) × (v ≡ record w { credentials = out.rows })
unfolding issued
issued-eq_ok w (ok o) {out} h =
    let same : o ≡ out = cc (ap (λ r. r.0) h) in
    (ap (λ x. ok x) same, sym (ap (λ r. r.1) h) ∙ ap (λ x. record w { credentials = x.rows }) same)
issued-eq_ok w (err e) h = cc

pub issue-IssuedIn :
    (s : OAuthService) (call : GrantCall) (r : IssueRequest) (w : World) {out : Issued} {v : World}
    → issue s call r w ≡ (ok out, v)
    → IssuedIn s call r w out v
unfolding issue access_token credential_row
issue-IssuedIn s call r w {out} {v} h =
    let (by, after) = issued-eq_ok w _ h in
    let st = issue-Stages (with_policies s w) call.issue w.credentials r by in
    let m =
      mint-Minted (with_policies s w) call.issue w.credentials st.identity r st.ttl (grant_of r)
        st.minted in
    record {
      by = by;
      added = rw after (
          rw m.credential (
            insert-eq_some call.issue.stored
              (credential_row call.issue st.identity r st.ttl (grant_of r)) w.credentials
              m.inserted));
      sessions = rw after (record { refresh_tokens = refl; auth_codes = refl; requests = refl });
      identity = st.identity;
      ttl = st.ttl;
      row = m.credential;
      token_jti = rw (m.token, m.credential) refl;
    }

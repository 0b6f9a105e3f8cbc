-- ===== src/Credential/Grant/Stages.antt =====
-- The stages of a successful `IssueCredential`.
use zeroid.Prelude.{
  ◌≡◌, refl, inl, inr, String, Bool, true, some, List, ◌∷◌, ◌==◌, ◌&&◌, ◌||◌, not, if◌then◌else◌,
  Bool-cases,
}
use zeroid.Prelude.Table.{any}
use zeroid.Prelude.Int.{ℤ}
use zeroid.Prelude.Result.{ok, or_fail, >>=-eq_ok, require-eq_ok, or_fail-eq_ok}
use zeroid.Identity.Model.{Identity}
use zeroid.Policy.Enforce.{scopes_permitted}
use zeroid.Credential.Defs.{
  IssuedCredential, IssueRequest, add_seconds, CredentialService, Call, identity_expired,
  credential_expired, scopes_not_allowed,
}
use zeroid.Credential.Claims.{build_claims}
use zeroid.Credential.Issue.{
  check_identity, effective_ttl, clamp_ttl, enforce_request, enforce_policies, Issued, mint,
  issue_credential, credential_row, access_token, insert_credential,
}

abbrev pub grant_of : IssueRequest → String
grant_of r = if r.grant_type == "" then "client_credentials" else r.grant_type

-- The stages of a successful call.
pub record Stages (s : CredentialService) (call : Call) (rows : List IssuedCredential)
    (r : IssueRequest) (out : Issued) : Type 0 where
  pub identity : Identity
  pub by_identity : ℤ
  pub ttl : ℤ
  pub checked : check_identity call.checked_at r.identity ≡ ok identity
  pub clamped :
      clamp_ttl identity_expired call.clamped_at identity.expires_at
        (effective_ttl s.default_ttl s.max_ttl r.ttl)
      ≡ ok by_identity
  pub clamped_again :
      clamp_ttl credential_expired call.clamped_at r.credential_expires_at by_identity ≡ ok ttl
  pub scoped : scopes_permitted identity.allowed_scopes r.scopes ≡ true
  pub enforced :
      enforce_policies call s.policies identity r (enforce_request s identity r ttl (grant_of r))
      ≡ ok tt
  pub minted : mint s call rows identity r ttl (grant_of r) ≡ ok out

pub issue-Stages :
    (s : CredentialService) (call : Call) (rows : List IssuedCredential) (r : IssueRequest)
    {out : Issued}
    → issue_credential s call rows r ≡ ok out
    → Stages s call rows r out
unfolding issue_credential
issue-Stages s call rows r h =
    let (i, checked, h1) = >>=-eq_ok (check_identity call.checked_at r.identity) _ h in
    let (t, clamped, h2) =
      >>=-eq_ok
        (clamp_ttl identity_expired call.clamped_at i.expires_at
          (effective_ttl s.default_ttl s.max_ttl r.ttl))
        _ h1 in
    let (ttl, clamped_again, h3) =
      >>=-eq_ok (clamp_ttl credential_expired call.clamped_at r.credential_expires_at t) _ h2 in
    let (scoped, h4) =
      require-eq_ok (scopes_permitted i.allowed_scopes r.scopes) scopes_not_allowed _ h3 in
    let (u, enforced, h5) =
      >>=-eq_ok (enforce_policies call s.policies i r (enforce_request s i r ttl (grant_of r))) _
        h4 in
    record {
      identity = i;
      by_identity = t;
      ttl = ttl;
      checked = checked;
      clamped = clamped;
      clamped_again = clamped_again;
      scoped = scoped;
      enforced = enforced;
      minted = h5;
    }

-- What the last stage leaves: the signed token, the persisted row and the table.
pub record Minted (s : CredentialService) (call : Call) (rows : List IssuedCredential)
    (i : Identity) (r : IssueRequest) (ttl : ℤ) (grant : String) (out : Issued) : Type 0 where
  pub credential : out.credential ≡ credential_row call i r ttl grant
  pub claims :
      out.claims
      ≡ build_claims s.issuer call.jti call.issued_at
          (add_seconds call.issued_at ttl)
          (if r.mission_id == "" then call.jti else r.mission_id)
          grant
          i
          r
  pub inserted :
      insert_credential call.stored (credential_row call i r ttl grant) rows ≡ some out.rows
  pub signature : String
  pub signed : s.sign (r.use_rs256 && s.has_rsa_keys) out.claims ≡ some signature
  pub token : out.token ≡ access_token call r ttl signature

pub mint-Minted :
    (s : CredentialService) (call : Call) (rows : List IssuedCredential) (i : Identity)
    (r : IssueRequest) (ttl : ℤ) (grant : String) {out : Issued}
    → mint s call rows i r ttl grant ≡ ok out
    → Minted s call rows i r ttl grant out
unfolding mint access_token credential_row build_claims insert_credential
mint-Minted s call rows i r ttl grant {out} h =
    let (signed, made, h1) = >>=-eq_ok (or_fail (s.sign (r.use_rs256 && s.has_rsa_keys) _) _) _ h in
    let (rows', put, h2) = >>=-eq_ok (or_fail (insert_credential call.stored _ rows) _) _ h1 in
    let e : out ≡ record {
      token = access_token call r ttl signed;
      credential = credential_row call i r ttl grant;
      claims =
          build_claims s.issuer call.jti call.issued_at (add_seconds call.issued_at ttl)
            (if r.mission_id == "" then call.jti else r.mission_id) grant i r;
      rows = rows';
    } =
      cc h2 in
    rw e (record {
      credential = refl;
      claims = refl;
      inserted = or_fail-eq_ok _ _ put;
      signature = signed;
      signed = or_fail-eq_ok _ _ made;
      token = refl;
    })

-- A row that is inserted stands before the others.
pub insert-eq_some :
    (stored : Bool) (c : IssuedCredential) (rows : List IssuedCredential)
    {rows' : List IssuedCredential}
    → insert_credential stored c rows ≡ some rows'
    → rows' ≡ c ∷ rows
unfolding insert_credential
insert-eq_some stored c rows h =
    elim (Bool-cases (not stored || any (λ d. d.id == c.id || d.jti == c.jti) rows)) [
      | inl taken ↦ cc (simp taken at h)
      | inr free ↦ cc (simp free at h)
    ]

-- ===== src/Credential/Grant/Token.antt =====
-- The claims of an issued token against the persisted row.
use zeroid.Prelude.{
  ℕ, ◌≡◌, ◌≢◌, refl, sym, ◌∙◌, ap, String, Bool, true, false, some, List, [], ◌∷◌, ◌==◌, ◌&&◌, ◌||◌,
  Bool-cases, inl, inr, if◌then◌else◌, eq_iff, eq_false_of_ne, Memᴰ,
}
use mathlib.Core.Path.{subst}
use zeroid.Prelude.Int.{ℤ}
use zeroid.Prelude.Result.{ok}
use zeroid.Prelude.Table.{any}
use zeroid.Identity.Model.{Identity}
use zeroid.Credential.Defs.{
  IssuedCredential, Claim, text, time, entry, Claims, IssueRequest, AccessToken, CredentialService,
  Call, add_seconds,
}
use zeroid.Credential.Claims.{get_claim, registered_claims, binding_claims, build_claims}
use zeroid.Credential.Issue.{
  credential_row, access_token, insert_credential, Issued, issue_credential,
}
use zeroid.Credential.Grant.Authority.{check_identity-eq_ok}
use zeroid.Credential.Grant.Stages.{grant_of, issue-Stages, mint-Minted}
use zeroid.Credential.Grant.Lookup.{get-set_same, get-build_claims}

-- The claims that are always set.
abbrev pub registered : List String
registered =
    "iss" ∷ "sub" ∷ "iat" ∷ "exp" ∷ "jti" ∷ "account_id" ∷ "project_id" ∷ "grant_type"
    ∷ "mission_id" ∷ []

get-cnf :
    (issuer jti : String) (now exp : ℕ) (mission grant : String) (i : Identity) (r : IssueRequest)
    → r.dpop_key_thumbprint ≢ ""
    → get_claim "cnf" (build_claims issuer jti now exp mission grant i r)
      ≡ some (entry "jkt" r.dpop_key_thumbprint)
unfolding build_claims binding_claims
get-cnf issuer jti now exp mission grant i r n =
    let b : (r.dpop_key_thumbprint == "") ≡ false = eq_false_of_ne _ _ n in
    rw b (get-set_same "cnf" _ _)

any-eq-Mem : (xs : List String) (k : String) → any (λ (j : String). j == k) xs ≡ true → Memᴰ k xs
unfolding any
any-eq-Mem [] k h = cc
any-eq-Mem (x ∷ xs) k h = elim (Bool-cases (x == k)) [
  | inl b ↦ Memᴰ.head (sym ((eq_iff x k).0 b))
  | inr b ↦ Memᴰ.tail (any-eq-Mem xs k (rw (b, any) at h))
]

registered-Mem : (k : String) → any (λ (j : String). j == k) registered ≡ true → Memᴰ k registered
registered-Mem k h = any-eq-Mem registered k h

-- The registered claims of a token say what the row says.
pub record Agrees (issuer subject : String) (c : IssuedCredential) (claims : Claims) : Type 0 where
  pub iss : get_claim "iss" claims ≡ some (text issuer)
  pub sub : get_claim "sub" claims ≡ some (text subject)
  pub iat : get_claim "iat" claims ≡ some (time c.issued_at)
  pub exp : get_claim "exp" claims ≡ some (time c.expires_at)
  pub jti : get_claim "jti" claims ≡ some (text c.jti)
  pub account_id : get_claim "account_id" claims ≡ some (text c.account_id)
  pub project_id : get_claim "project_id" claims ≡ some (text c.project_id)
  pub grant_type : get_claim "grant_type" claims ≡ some (text c.grant_type)
  pub mission_id : get_claim "mission_id" claims ≡ some (text c.mission_id)

build_claims-Agrees :
    (issuer : String) (call : Call) (i : Identity) (r : IssueRequest) (ttl : ℤ) (grant : String)
    → ((k : String)
        → Memᴰ k registered
        → any (λ (c : String × Claim). c.0 == k) r.custom_claims ≡ false)
    → Agrees issuer
        (if r.subject_override == "" then i.wimse_uri else r.subject_override)
        (credential_row call i r ttl grant)
        (build_claims issuer call.jti call.issued_at
          (add_seconds call.issued_at ttl)
          (if r.mission_id == "" then call.jti else r.mission_id)
          grant
          i
          r)
unfolding credential_row registered_claims get_claim any
build_claims-Agrees issuer call i r ttl grant free = record {
  iss = get-build_claims "iss" _ _ _ _ _ _ i r refl (free "iss" (registered-Mem "iss" refl));
  sub = get-build_claims "sub" _ _ _ _ _ _ i r refl (free "sub" (registered-Mem "sub" refl));
  iat = get-build_claims "iat" _ _ _ _ _ _ i r refl (free "iat" (registered-Mem "iat" refl));
  exp = get-build_claims "exp" _ _ _ _ _ _ i r refl (free "exp" (registered-Mem "exp" refl));
  jti = get-build_claims "jti" _ _ _ _ _ _ i r refl (free "jti" (registered-Mem "jti" refl));
  account_id =
      get-build_claims "account_id" _ _ _ _ _ _ i r refl
        (free "account_id" (registered-Mem "account_id" refl));
  project_id =
      get-build_claims "project_id" _ _ _ _ _ _ i r refl
        (free "project_id" (registered-Mem "project_id" refl));
  grant_type =
      get-build_claims "grant_type" _ _ _ _ _ _ i r refl
        (free "grant_type" (registered-Mem "grant_type" refl));
  mission_id =
      get-build_claims "mission_id" _ _ _ _ _ _ i r refl
        (free "mission_id" (registered-Mem "mission_id" refl));
}

insert-fresh :
    (stored : Bool) (c : IssuedCredential) (rows : List IssuedCredential)
    {rows' : List IssuedCredential}
    → insert_credential stored c rows ≡ some rows'
    → (any (λ (d : IssuedCredential). d.id == c.id || d.jti == c.jti) rows ≡ false)
      × (rows' ≡ (c ∷ rows))
unfolding insert_credential
insert-fresh true c rows h =
    elim (Bool-cases (any (λ (d : IssuedCredential). d.id == c.id || d.jti == c.jti) rows)) [
      | inl b ↦ cc (simp b at h)
      | inr b ↦ (b, sym (cc (simp b at h)))
    ]
insert-fresh false c rows h = cc

-- Whenever `IssueCredential` returns a token for a request whose custom claims name none of the registered
-- claims, the token was signed over claims that agree with the persisted row, which is the one row added to the
-- table and has a new id and a new `jti`.
pub issue-Agrees :
    (s : CredentialService) (call : Call) (rows : List IssuedCredential) (r : IssueRequest)
    (out : Issued)
    → issue_credential s call rows r ≡ ok out
    → ((k : String)
        → Memᴰ k registered
        → any (λ (c : String × Claim). c.0 == k) r.custom_claims ≡ false)
    → (i : Identity) × (r.identity ≡ some i)
      × (Agrees s.issuer
          (if r.subject_override == "" then i.wimse_uri else r.subject_override)
          out.credential
          out.claims)
      × (s.sign (r.use_rs256 && s.has_rsa_keys) out.claims ≡ some out.token.access_token)
      × (out.rows ≡ (out.credential ∷ rows))
      × (any
            (λ (d : IssuedCredential). d.id == out.credential.id || d.jti == out.credential.jti)
            rows
          ≡ false)
unfolding access_token
issue-Agrees s call rows r out h free =
    let st = issue-Stages s call rows r h in
    let i = st.identity in
    let m = mint-Minted s call rows i r st.ttl (grant_of r) st.minted in
    let sub = if r.subject_override == "" then i.wimse_uri else r.subject_override in
    let (fresh, added) =
      insert-fresh call.stored (credential_row call i r st.ttl (grant_of r)) rows m.inserted in
    let row = sym m.credential in
    (
      i,
      (check_identity-eq_ok call.checked_at r.identity st.checked).0,
      subst (λ (c : IssuedCredential). Agrees s.issuer sub c out.claims) row
          (subst (λ cs. Agrees s.issuer sub (credential_row call i r st.ttl (grant_of r)) cs)
            (sym m.claims) (build_claims-Agrees s.issuer call i r st.ttl (grant_of r) free)),
      m.signed ∙ ap some (sym (ap (λ (t : AccessToken). t.access_token) m.token)),
      subst (λ (c : IssuedCredential). out.rows ≡ (c ∷ rows)) row added,
      subst
          (λ (c : IssuedCredential).
            any (λ (d : IssuedCredential). d.id == c.id || d.jti == c.jti) rows ≡ false)
          row fresh,
    )

-- Whenever `IssueCredential` returns a token for a request with a DPoP key, the token is of type "DPoP", its `cnf` claim
-- names that key, whatever the custom claims are, and so does the persisted row.
pub issue-bound :
    (s : CredentialService) (call : Call) (rows : List IssuedCredential) (r : IssueRequest)
    (out : Issued)
    → issue_credential s call rows r ≡ ok out
    → r.dpop_key_thumbprint ≢ ""
    → (get_claim "cnf" out.claims ≡ some (entry "jkt" r.dpop_key_thumbprint))
      × (out.credential.dpop_key_thumbprint ≡ r.dpop_key_thumbprint)
      × (out.token.token_type ≡ "DPoP")
unfolding access_token credential_row
issue-bound s call rows r out h n =
    let st = issue-Stages s call rows r h in
    let m = mint-Minted s call rows st.identity r st.ttl (grant_of r) st.minted in
    let b : (r.dpop_key_thumbprint == "") ≡ false = eq_false_of_ne _ _ n in
    (
      ap (get_claim "cnf") m.claims ∙ get-cnf _ _ _ _ _ _ st.identity r n,
      ap (λ (c : IssuedCredential). c.dpop_key_thumbprint) m.credential,
      ap (λ (t : AccessToken). t.token_type) m.token ∙ rw b refl,
    )

-- ===== src/Policy/Admin/Stored.antt =====
-- internal/service/credential_policy.go: what the stored policies satisfy through their administration.
use mathlib.Core.Path.{subst}
use zeroid.Prelude.{
  ℕ, ◌≡◌, refl, sym, ◌∙◌, String, Bool, true, Option, none, some, List, [], ◌∷◌, Memᴰ, all, not,
  Bool-cases, inl, inr, ◌==◌, ◌&&◌, if◌then◌else◌,
}
use zeroid.Prelude.Int.{ℤ, pos, lt_int}
use zeroid.Prelude.Result.{ok, or_fail, >>=-eq_ok, require-eq_ok, or_fail-eq_ok}
use zeroid.Prelude.Table.{find, any, update_where, find-eq_some}
use zeroid.Policy.Defs.{CredentialPolicy, is_valid_grant_type}
use zeroid.Policy.Admin.{
  name_required, invalid_grant_type, invalid_trust_level, invalid_attestation, name_conflict,
  store_failed, not_found, ttl_not_positive, CreatePolicyRequest, UpdatePolicyRequest,
  trust_allowed, attestation_allowed, normalize_grant_types, create_grants, insert_policy, clashes,
  name_clashes, apply_patch, new_policy, create_policy, or_else, allowed, patch_expires_at,
  patch_policy, in_tenant, update_policy,
}

-- What every stored policy satisfies.
pub record Sound (p : CredentialPolicy) : Type 0 where
  pub ttl : lt_int (pos 0) p.max_ttl_seconds ≡ true
  pub grants : all is_valid_grant_type p.allowed_grant_types ≡ true
  pub trust : trust_allowed p.required_trust_level ≡ true
  pub attestation : attestation_allowed p.required_attestation ≡ true

pub record Stored (rows : List CredentialPolicy) : Type 0 where
  pub sound : (p : CredentialPolicy) → Memᴰ p rows → Sound p

positive_ttl : (t : ℤ) → lt_int (pos 0) (if lt_int (pos 0) t then t else pos 3600) ≡ true
positive_ttl t = elim (Bool-cases (lt_int (pos 0) t)) [ inl b ↦ rw b b | inr b ↦ rw b refl ]

insert_policy-eq_ok :
    (stored : Bool) (p : CredentialPolicy) (rows : List CredentialPolicy)
    {rows' : List CredentialPolicy}
    → insert_policy stored p rows ≡ ok rows'
    → rows' ≡ (p ∷ rows)
unfolding insert_policy
insert_policy-eq_ok stored p rows h =
    let (s, h1) = require-eq_ok stored store_failed _ h in
    let (f, h2) = require-eq_ok (not (any (clashes p) rows)) name_conflict (ok (p ∷ rows)) h1 in
    cc h2

Stored-add :
    (p : CredentialPolicy) (rows : List CredentialPolicy)
    → Sound p
    → Stored rows
    → Stored (p ∷ rows)
Stored-add p rows s st = record { sound = λ q m. go q m }
  where
    go : (q : CredentialPolicy) → Memᴰ q (p ∷ rows) → Sound q
    go q (Memᴰ.head e) = subst Sound (sym e) s
    go q (Memᴰ.tail m) = st.sound q m

create_policy-Sound :
    (id : String) (now : ℕ) (stored : Bool) (r : CreatePolicyRequest) (rows : List CredentialPolicy)
    {p : CredentialPolicy} {rows' : List CredentialPolicy}
    → create_policy id now stored r rows ≡ ok (p, rows')
    → Sound p × (rows' ≡ (p ∷ rows))
unfolding create_policy new_policy
create_policy-Sound id now stored r rows {p} {rows'} h =
    let (named, h1) = require-eq_ok (not (r.name == "")) name_required _ h in
    let (grants, h2) =
      require-eq_ok (all is_valid_grant_type (create_grants r.allowed_grant_types))
        invalid_grant_type _ h1 in
    let (trust, h3) =
      require-eq_ok (trust_allowed r.required_trust_level) invalid_trust_level _ h2 in
    let (attestation, h4) =
      require-eq_ok (attestation_allowed r.required_attestation) invalid_attestation _ h3 in
    let (rs, put, h5) = >>=-eq_ok (insert_policy stored (new_policy id now r) rows) _ h4 in
    let e : new_policy id now r ≡ p = cc h5 in
    let k : rs ≡ rows' = cc h5 in
    let s : Sound (new_policy id now r) = record {
      ttl = positive_ttl r.max_ttl_seconds;
      grants = grants;
      trust = trust;
      attestation = attestation;
    } in
    (
      subst Sound e s,
      subst (λ q. rows' ≡ (q ∷ rows)) e
          (sym k ∙ insert_policy-eq_ok stored (new_policy id now r) rows put),
    )

or_else-allowed :
    {A : Type 0} (test : A → Bool) (o : Option A) (a : A)
    → allowed test o ≡ true
    → test a ≡ true
    → test (or_else o a) ≡ true
or_else-allowed test none a h k = k
or_else-allowed test (some b) a h k = h

patch_policy-Sound :
    (parse_time : String → Option ℕ) (parsed_at now : ℕ) (r : UpdatePolicyRequest)
    (p : CredentialPolicy) {q : CredentialPolicy}
    → Sound p
    → patch_policy parse_time parsed_at now r p ≡ ok q
    → Sound q
unfolding patch_policy apply_patch
patch_policy-Sound parse_time parsed_at now r p {q} s h =
    let (ttl, h1) =
      require-eq_ok (allowed (lt_int (pos 0)) r.max_ttl_seconds) ttl_not_positive _ h in
    let (gts, h2) =
      require-eq_ok
        (allowed (λ g. all is_valid_grant_type (normalize_grant_types g)) r.allowed_grant_types)
        invalid_grant_type _ h1 in
    let (trust, h3) =
      require-eq_ok (allowed trust_allowed r.required_trust_level) invalid_trust_level _ h2 in
    let (attestation, h4) =
      require-eq_ok (allowed attestation_allowed r.required_attestation) invalid_attestation _ h3 in
    let (t, patched, h5) =
      >>=-eq_ok (patch_expires_at parse_time parsed_at r.expires_at p.expires_at) _ h4 in
    let e : apply_patch now r t p ≡ q = cc h5 in
    subst Sound e (record {
      ttl = or_else-allowed (lt_int (pos 0)) r.max_ttl_seconds p.max_ttl_seconds ttl s.ttl;
      grants = patched_grants r.allowed_grant_types gts;
      trust =
          or_else-allowed trust_allowed r.required_trust_level p.required_trust_level trust s.trust;
      attestation =
          or_else-allowed attestation_allowed r.required_attestation p.required_attestation
            attestation s.attestation;
    })
  where
    patched_grants :
        (o : Option (List String))
        → allowed (λ g. all is_valid_grant_type (normalize_grant_types g)) o ≡ true
        → all is_valid_grant_type (elim o as (λ _. List String) [
          | none ↦ p.allowed_grant_types
          | some g ↦ normalize_grant_types g
        ])
          ≡ true
    patched_grants none e = s.grants
    patched_grants (some g) e = e

Stored-update :
    (test : CredentialPolicy → Bool) (q : CredentialPolicy) (rows : List CredentialPolicy)
    → Sound q
    → Stored rows
    → Stored (update_where test (λ old. q) rows)
unfolding update_where
Stored-update test q [] s st = st
Stored-update test q (x ∷ rows) s st =
    let rest = Stored-update test q rows s (record { sound = λ p m. st.sound p (Memᴰ.tail m) }) in
    elim (Bool-cases (test x)) [
      | inl b ↦ rw b (Stored-add q _ s rest)
      | inr b ↦ rw b (Stored-add x _ (st.sound x (Memᴰ.head refl)) rest)
    ]

-- Where `CreatePolicy` succeeds on a table of sound policies, it returns the one policy that it adds, which is sound,
-- and so the table stays one of sound policies: each has a positive maximal TTL, valid grant types, and required
-- levels that are empty or known.
pub create_policy-Stored :
    (id : String) (now : ℕ) (stored : Bool) (r : CreatePolicyRequest) (rows : List CredentialPolicy)
    {p : CredentialPolicy} {rows' : List CredentialPolicy}
    → Stored rows
    → create_policy id now stored r rows ≡ ok (p, rows')
    → Sound p × (rows' ≡ (p ∷ rows)) × Stored rows'
create_policy-Stored id now stored r rows {p} st h =
    let (s, e) = create_policy-Sound id now stored r rows h in
    (s, e, subst Stored (sym e) (Stored-add p rows s st))

-- Where `UpdatePolicy` succeeds on a table of sound policies, it returns a sound policy and leaves such a table.
pub update_policy-Stored :
    (parse_time : String → Option ℕ) (parsed_at now : ℕ) (stored : Bool)
    (id account project : String) (r : UpdatePolicyRequest) (rows : List CredentialPolicy)
    {changed : CredentialPolicy} {rows' : List CredentialPolicy}
    → Stored rows
    → update_policy parse_time parsed_at now stored id account project r rows ≡ ok (changed, rows')
    → Sound changed × Stored rows'
unfolding update_policy
update_policy-Stored parse_time parsed_at now stored id account project r rows {changed} {rows'} st
      k =
    let (p, read, k1) =
      >>=-eq_ok (or_fail (find (in_tenant id account project) rows) not_found) _ k in
    let (q, patched, k2) = >>=-eq_ok (patch_policy parse_time parsed_at now r p) _ k1 in
    let (kept, k3) =
      require-eq_ok (stored && not (any (name_clashes q) rows)) store_failed
        (ok (q, update_where (in_tenant id account project) (λ old. q) rows)) k2 in
    let s =
      patch_policy-Sound parse_time parsed_at now r p
        (st.sound p (find-eq_some _ rows (or_fail-eq_ok _ _ read)).1) patched in
    let eq : q ≡ changed = cc k3 in
    let er : update_where (in_tenant id account project) (λ old. q) rows ≡ rows' = cc k3 in
    (subst Sound eq s, subst Stored er (Stored-update (in_tenant id account project) q rows s st))

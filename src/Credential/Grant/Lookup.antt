-- ===== src/Credential/Grant/Lookup.antt =====
-- The claims of a token, looked up after all of them are set.
use zeroid.Prelude.{
  ℕ, ◌≡◌, refl, sym, ◌∙◌, String, Bool, true, false, some, List, [], ◌∷◌, ◌==◌, ◌&&◌, not, is_empty,
  Bool-cases, inl, inr, if◌then◌else◌, eq_iff, arith,
}
use mathlib.Core.Path.{subst}
use zeroid.Prelude.Int.{ℤ, pos, lt_int}
use zeroid.Prelude.Table.{any}
use zeroid.Identity.Model.{Identity}
use zeroid.Credential.Defs.{Claim, text, texts, number, entry, json, Claims, IssueRequest}
use zeroid.Credential.Claims.{
  set_claim, get_claim, set_if, set_text, set_all, registered_claims, identity_claims,
  request_claims, binding_claims, build_claims,
}

pub get-set_same : (k : String) (v : Claim) (cs : Claims) → get_claim k (set_claim k v cs) ≡ some v
unfolding get_claim set_claim
get-set_same k v [] = rw ((eq_iff k k).1 refl) refl
get-set_same k v ((j, w) ∷ cs) = elim (Bool-cases (j == k)) [
  | inl b ↦ rw b (rw ((eq_iff k k).1 refl) refl)
  | inr b ↦ rw b (rw b (get-set_same k v cs))
]

get-set_other :
    (j k : String) (v : Claim) (cs : Claims)
    → (j == k) ≡ false
    → get_claim k (set_claim j v cs) ≡ get_claim k cs
unfolding get_claim set_claim
get-set_other j k v [] n = rw n refl
get-set_other j k v ((i, w) ∷ cs) n = elim (Bool-cases (i == j)) [
  | inl b ↦
      let e : i ≡ j = (eq_iff i j).0 b in
      let m : (i == k) ≡ false = subst (λ x. (x == k) ≡ false) (sym e) n in rw b (rw n (rw m refl))
  | inr b ↦ elim (Bool-cases (i == k)) [
    | inl c ↦ rw b (rw c refl)
    | inr c ↦ rw b (rw c (get-set_other j k v cs n))
  ]
]

get-set_if :
    (b : Bool) (j k : String) (v : Claim) (cs : Claims)
    → (j == k) ≡ false
    → get_claim k (set_if b j v cs) ≡ get_claim k cs
get-set_if true j k v cs n = get-set_other j k v cs n
get-set_if false j k v cs n = refl

get-set_text :
    (j k s : String) (cs : Claims)
    → (j == k) ≡ false
    → get_claim k (set_text j s cs) ≡ get_claim k cs
get-set_text j k s cs n = elim (Bool-cases (s == "")) [
  | inl b ↦ rw b refl
  | inr b ↦ rw b (get-set_other j k (text s) cs n)
]

-- A claim that the custom claims do not name is kept.
get-set_all :
    (k : String) (more cs : Claims)
    → any (λ (c : String × Claim). c.0 == k) more ≡ false
    → get_claim k (set_all more cs) ≡ get_claim k cs
unfolding set_all any
get-set_all k [] cs h = refl
get-set_all k ((j, v) ∷ more) cs h =
    let n : (j == k) ≡ false = ground arith in
    let rest : any (λ (c : String × Claim). c.0 == k) more ≡ false = ground arith in
    get-set_all k more (set_claim j v cs) rest ∙ get-set_other j k v cs n

-- The claims that a token may carry besides the registered ones.
abbrev pub optional : List String
optional =
    "capabilities" ∷ "publisher" ∷ "version" ∷ "framework" ∷ "name" ∷ "delegation_depth"
    ∷ "owner_user_id" ∷ "user_name" ∷ "user_email" ∷ "application_id" ∷ "scopes" ∷ "aud" ∷ "act"
    ∷ "cnf" ∷ []

-- One of the optional claims is not a claim that is none of them.
other :
    (j k : String)
    → any (λ (x : String). x == j) optional ≡ true
    → any (λ (x : String). x == k) optional ≡ false
    → (j == k) ≡ false
other j k among h = elim (Bool-cases (j == k)) [
  | inl b ↦
      let e : any (λ (x : String). x == k) optional ≡ true =
        subst (λ z. any (λ (x : String). x == z) optional ≡ true) ((eq_iff j k).0 b) among in
      cc (e, h)
  | inr b ↦ b
]

get-identity_claims :
    (k : String) (depth : ℤ) (i : Identity) (cs : Claims)
    → any (λ (j : String). j == k) optional ≡ false
    → get_claim k (identity_claims depth i cs) ≡ get_claim k cs
unfolding identity_claims any
get-identity_claims k depth i cs h =
    get-set_if (not (i.capabilities == "") && not (i.capabilities == "[]")) "capabilities" k
      (json i.capabilities) _ (other "capabilities" k refl h)
    ∙ get-set_text "publisher" k i.publisher _ (other "publisher" k refl h)
    ∙ get-set_text "version" k i.version _ (other "version" k refl h)
    ∙ get-set_text "framework" k i.framework _ (other "framework" k refl h)
    ∙ get-set_text "name" k i.name _ (other "name" k refl h)
    ∙ get-set_if (lt_int (pos 0) depth) "delegation_depth" k (number depth) _
        (other "delegation_depth" k refl h)
    ∙ get-set_text "owner_user_id" k i.owner_user_id cs (other "owner_user_id" k refl h)

get-request_claims :
    (k issuer : String) (r : IssueRequest) (cs : Claims)
    → any (λ (j : String). j == k) optional ≡ false
    → get_claim k (request_claims issuer r cs) ≡ get_claim k cs
unfolding request_claims any
get-request_claims k issuer r cs h =
    get-set_text "user_name" k r.user_name _ (other "user_name" k refl h)
    ∙ get-set_text "user_email" k r.user_email _ (other "user_email" k refl h)
    ∙ get-set_text "application_id" k r.application_id _ (other "application_id" k refl h)
    ∙ get-set_if (not (is_empty r.scopes)) "scopes" k (texts r.scopes) _ (other "scopes" k refl h)
    ∙ get-set_other "aud" k (texts (if is_empty r.audience then issuer ∷ [] else r.audience)) cs
        (other "aud" k refl h)

get-binding_claims :
    (k : String) (r : IssueRequest) (cs : Claims)
    → any (λ (j : String). j == k) optional ≡ false
    → get_claim k (binding_claims r cs) ≡ get_claim k cs
unfolding binding_claims any
get-binding_claims k r cs h =
    get-set_if (not (r.dpop_key_thumbprint == "")) "cnf" k (entry "jkt" r.dpop_key_thumbprint) _
      (other "cnf" k refl h)
    ∙ elim (Bool-cases (not (r.delegated_by == ""))) [
      | inl b ↦ rw b (get-set_other "act" k (entry "sub" r.delegated_by) cs (other "act" k refl h))
      | inr b ↦ rw b (
          get-set_if (not (r.acting_user_id == "")) "act" k (entry "sub" r.acting_user_id) cs
            (other "act" k refl h))
    ]

-- A registered claim that the custom claims do not name is the one set first.
pub get-build_claims :
    (k issuer jti : String) (now exp : ℕ) (mission grant : String) (i : Identity) (r : IssueRequest)
    → any (λ (j : String). j == k) optional ≡ false
    → any (λ (c : String × Claim). c.0 == k) r.custom_claims ≡ false
    → get_claim k (build_claims issuer jti now exp mission grant i r)
      ≡ get_claim k (
          registered_claims issuer
            (if r.subject_override == "" then i.wimse_uri else r.subject_override)
            jti
            now
            exp
            mission
            grant
            i)
unfolding build_claims
get-build_claims k issuer jti now exp mission grant i r h free =
    get-binding_claims k r _ h
    ∙ get-set_all k r.custom_claims _ free
    ∙ get-request_claims k issuer r _ h
    ∙ get-identity_claims k r.delegation_depth i _ h

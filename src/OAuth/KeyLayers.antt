-- ===== src/OAuth/KeyLayers.antt =====
-- internal/service/oauth.go: an API key, its holder, and the layers of scopes it is under.
use mathlib.Core.Bool.{and-eq-true_iff}
use mathlib.Core.Path.{subst}
use zeroid.Prelude.{
  ℕ, ltb, ◌≡◌, refl, sym, ap, ◌∙◌, String, true, Option, none, some, List, [], ◌∷◌, ◌==◌, ◌⊎◌, inl,
  inr, Bool-cases, Option-cases, eq_iff, Memᴰ,
}
use zeroid.Prelude.Result.{ok}
use zeroid.Prelude.Table.{find-eq_some}
use zeroid.Identity.Status.{is_usable}
use zeroid.Identity.Model.{Identity}
use zeroid.Policy.Defs.{CredentialPolicy}
use zeroid.Credential.Defs.{IssuedCredential, AccessToken}
use zeroid.Scope.{parse_scope_string}
use zeroid.OAuth.Defs.{OAuthService, GrantCall, World, TokenRequest, ApiKey}
use zeroid.OAuth.Step.{done, >>=-eq_ok, need_last}
use zeroid.OAuth.Lookup.{
  gate, get_by_key_hash, unexpired_key, resolve_credential_policy, identity_by,
}
use zeroid.OAuth.External.{synthetic_identity}
use zeroid.OAuth.Key.{
  bare_identity, gated_identity, key_identity, identity_layer, key_layer, key_layer_in, key_scopes,
}
use zeroid.OAuth.Issuance.{gate-eq_ok, resolve-OnlyPolicies}
use zeroid.OAuth.Delegated.{identity_by-eq_some}

-- The key that is presented.
pub record Known (s : OAuthService) (req : TokenRequest) (k : ApiKey) : Type 0 where
  pub stored : Memᴰ k s.api_keys
  pub hash : k.key_hash ≡ s.lib.sha256_hex req.api_key
  pub active : k.state ≡ "active"

-- The identity that the token is issued to: the one that the key is linked to, which is usable and of the key's
-- tenant, or one without an id and without scopes.
pub Holder : OAuthService → ApiKey → Identity → Type 0
Holder s k i =
    (Memᴰ i s.identities
      × (i.id ≡ k.identity_id)
      × (i.account_id ≡ k.account_id)
      × (i.project_id ≡ k.project_id)
      × (is_usable i.status ≡ true))
    ⊎ ((i.id ≡ "") × (i.allowed_scopes ≡ []))

-- The scopes of the policy that `ResolveCredentialPolicy` gives the identity; none for one without an id.
pub Governed : GrantCall → World → Identity → List String → Type 0
Governed call w i scopes =
    ((i.id ≡ "") × (scopes ≡ []))
    ⊎ ((p : CredentialPolicy) × (v : World) × (resolve_credential_policy call i w ≡ (ok p, v))
        × (scopes ≡ p.allowed_scopes))

-- One issuance for a key: the layers of scopes that it went by, and the credential that is added.
pub record Granted (s : OAuthService) (call : GrantCall) (req : TokenRequest) (w v : World)
    (token : AccessToken) : Type 0 where
  pub key : ApiKey
  pub found : get_by_key_hash s call (s.lib.sha256_hex req.api_key) ≡ some key
  pub identity : Identity
  pub holder : Holder s key identity
  pub policy : List String
  pub governed : Governed call w identity policy
  pub by_key : List String
  pub between : World
  pub after : World
  pub layered : key_layer call key between ≡ (ok by_key, after)
  pub row : IssuedCredential
  pub added : v.credentials ≡ row ∷ w.credentials
  pub token_jti : token.jti ≡ row.jti
  pub scopes :
      row.scopes
      ≡ key_scopes (parse_scope_string req.scope) key.scopes by_key policy identity.allowed_scopes

pub done-eq_ok :
    {A : Type 0} (a : A) (w : World) {b : A} {v : World} → done a w ≡ (ok b, v) → (a ≡ b) × (v ≡ w)
done-eq_ok a w h = (cc (ap (λ r. r.0) h), sym (ap (λ r. r.1) h))

unexpired_key-eq_some :
    (now : ℕ) (o : Option ApiKey) {k : ApiKey} → unexpired_key now o ≡ some k → o ≡ some k
unfolding unexpired_key
unexpired_key-eq_some now none h = cc
unexpired_key-eq_some now (some x) {k} h = elim (Option-cases x.expires_at) [
  | inl never ↦ simp never at h
  | inr (t, ends) ↦ elim (Bool-cases (ltb t now)) [
    | inl over ↦ cc (simp (ends, over) at h)
    | inr current ↦ simp (ends, current) at h
  ]
]

pub get_by_key_hash-Known :
    (s : OAuthService) (call : GrantCall) (req : TokenRequest) {k : ApiKey}
    → get_by_key_hash s call (s.lib.sha256_hex req.api_key) ≡ some k
    → Known s req k
unfolding get_by_key_hash
get_by_key_hash-Known s call req {k} h = elim (Bool-cases call.key_read) [
  | inr down ↦ cc (simp down at h)
  | inl up ↦
      let (hit, stored) =
        find-eq_some _ s.api_keys (unexpired_key-eq_some call.key_now _ (simp up at h)) in
      let (hash, active) = (and-eq-true_iff (k.key_hash == s.lib.sha256_hex req.api_key) _).0 hit in
      record { stored = stored; hash = (eq_iff _ _).0 hash; active = (eq_iff _ _).0 active }
]

bare-Holder :
    (s : OAuthService) (k : ApiKey) (w : World) {i : Identity} {v : World}
    → done (bare_identity k) w ≡ (ok i, v)
    → Holder s k i × (v ≡ w)
unfolding Holder bare_identity synthetic_identity
bare-Holder s k w h =
    let (e, last) = done-eq_ok (bare_identity k) w h in
    (inr (ap (λ i. i.id) (sym e), ap (λ i. i.allowed_scopes) (sym e)), last)

gated_identity-Holder :
    (s : OAuthService) (call : GrantCall) (k : ApiKey) (w : World) (o : Option Identity)
    {i : Identity} {v : World}
    → identity_by s call (λ j. j.id) k.identity_id k.account_id k.project_id ≡ o
    → gated_identity call k o w ≡ (ok i, v)
    → Holder s k i × (v ≡ w)
unfolding gated_identity Holder
gated_identity-Holder s call k w none looked h = bare-Holder s k w h
gated_identity-Holder s call k w (some j) {i} {v} looked h =
    let (u, w1, k1, h1) = >>=-eq_ok (gate call j) _ w h in
    let (usable, current, e1) = gate-eq_ok call j w k1 in
    let (same, last) = done-eq_ok j w1 h1 in
    let (known, id, account, project) =
      identity_by-eq_some s call (λ j. j.id) k.identity_id k.account_id k.project_id looked in
    (subst (Holder s k) same (inl (known, id, account, project, usable)), last ∙ e1)

pub key_identity-Holder :
    (s : OAuthService) (call : GrantCall) (k : ApiKey) (w : World) {i : Identity} {v : World}
    → key_identity s call k w ≡ (ok i, v)
    → Holder s k i × (v ≡ w)
unfolding key_identity
key_identity-Holder s call k w {i} {v} h = elim (Bool-cases (k.identity_id == "")) [
  | inl unlinked ↦ bare-Holder s k w (simp unlinked at h)
  | inr linked ↦ gated_identity-Holder s call k w _ refl (simp linked at h)
]

pub identity_layer-Governed :
    (call : GrantCall) (i : Identity) (w : World) {layer : String × List String} {v : World}
    → identity_layer call i w ≡ (ok layer, v)
    → Governed call w i layer.1 × (v.credentials ≡ w.credentials)
unfolding identity_layer Governed
identity_layer-Governed call i w {layer} {v} h = elim (Bool-cases (i.id == "")) [
  | inl bare ↦
      let (same, last) = done-eq_ok ("", []) w (simp bare at h) in
      (inl ((eq_iff _ _).0 bare, ap (λ l. l.1) (sym same)), ap (λ x. x.credentials) last)
  | inr stored ↦
      let (p, w1, k1, h1) = >>=-eq_ok (resolve_credential_policy call i) _ w (simp stored at h) in
      let (same, last) = done-eq_ok (p.id, p.allowed_scopes) w1 h1 in
      (
        inr (p, w1, k1, ap (λ l. l.1) (sym same)),
        ap (λ x. x.credentials) last ∙ (resolve-OnlyPolicies call i w k1).credentials,
      )
]

key_layer_in-same :
    (call : GrantCall) (k : ApiKey) (o : Option (List CredentialPolicy)) (w : World)
    {scopes : List String} {v : World}
    → key_layer_in call k o w ≡ (ok scopes, v)
    → v ≡ w
unfolding key_layer_in
key_layer_in-same call k none w h = (done-eq_ok [] w h).1
key_layer_in-same call k (some rows) w h = elim (Bool-cases (k.credential_policy_id == "")) [
  | inl unset ↦ (done-eq_ok [] w (simp unset at h)).1
  | inr set ↦ (need_last _ _ w (simp set at h)).1
]

key_layer_in-none :
    (call : GrantCall) (k : ApiKey) (o : Option (List CredentialPolicy)) (w : World)
    {scopes : List String} {v : World}
    → k.credential_policy_id ≡ ""
    → key_layer_in call k o w ≡ (ok scopes, v)
    → scopes ≡ []
unfolding key_layer_in
key_layer_in-none call k none w unset h = sym (done-eq_ok [] w h).0
key_layer_in-none call k (some rows) w unset h =
    let same = (eq_iff k.credential_policy_id "").1 unset in
    sym (done-eq_ok [] w (simp same at h)).0

pub key_layer-same :
    (call : GrantCall) (k : ApiKey) (w : World) {scopes : List String} {v : World}
    → key_layer call k w ≡ (ok scopes, v)
    → v ≡ w
unfolding key_layer
key_layer-same call k w h = key_layer_in-same call k w.policies w h

pub key_layer-none :
    (call : GrantCall) (k : ApiKey) (w : World) {scopes : List String} {v : World}
    → k.credential_policy_id ≡ ""
    → key_layer call k w ≡ (ok scopes, v)
    → scopes ≡ []
unfolding key_layer
key_layer-none call k w unset h = key_layer_in-none call k w.policies w unset h

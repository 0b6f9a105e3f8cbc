-- ===== src/OAuth/SingleUse.antt =====
-- internal/service/oauth.go: the single use of an authorization code.
use mathlib.Core.Path.{subst}
use zeroid.Prelude.{
  ◌≡◌, ◌≢◌, refl, sym, ap, ◌∙◌, String, Bool, true, false, none, some, List, ◌∷◌, ◌==◌, ◌||◌, not,
  inl, inr, Bool-cases, eq_iff, contains, arith,
}
use zeroid.Prelude.Result.{ok}
use zeroid.Prelude.Table.{any, any-update_where}
use zeroid.Credential.Defs.{AccessToken}
use zeroid.OAuth.Defs.{
  OAuthService, GrantCall, World, AuthCode, AuthCodeClaims, OAuthClient, TokenRequest,
}
use zeroid.OAuth.Step.{>>=-eq_ok, check-eq_ok, need-eq_ok}
use zeroid.OAuth.Lookup.{get_public_client}
use zeroid.OAuth.AuthCode.{
  decode_auth_code_jwt, has_jti, consume, set_token_info, update_token_info, normalize_loopback,
  verify_code_challenge,
}
use zeroid.OAuth.CodeGrant.{
  code_row, after_consume, consume_code, exchange_code, authorization_code,
}
use zeroid.OAuth.Endpoint.{token}
use zeroid.OAuth.Keeps.{Keeps}
use zeroid.OAuth.GrantKeeps.{CodeStable}
use zeroid.OAuth.TokenKeeps.{exchange_code-Keeps, token-Keeps}

-- A code with this identifier has been used.
abbrev pub Consumed : String → World → Type 0
Consumed jti w = any (has_jti jti) w.auth_codes ≡ true

consume-keeps :
    (jti : String) (runs first : Bool) (c : AuthCode) (old rows : List AuthCode)
    → consume runs c old ≡ some (first, rows)
    → any (has_jti jti) old ≡ true
    → any (has_jti jti) rows ≡ true
unfolding consume any
consume-keeps jti runs first c old rows e h = elim (Bool-cases runs) [
  | inr down ↦ cc (simp down at e)
  | inl up ↦ elim (Bool-cases (any (has_jti c.jti) old)) [
    | inl used ↦ let same : old ≡ rows = cc (simp (up, used) at e) in rw (← same) h
    | inr fresh ↦
        let same : (c ∷ old) ≡ rows = cc (simp (up, fresh) at e) in rw (← same) (ground (arith, h))
  ]
]

update-keeps :
    (jti : String) (runs : Bool) (id credential family : String) (rows : List AuthCode)
    → any (has_jti jti) rows ≡ true
    → any (has_jti jti) (update_token_info runs id credential family rows) ≡ true
unfolding update_token_info has_jti set_token_info
update-keeps jti runs id credential family rows h = elim (Bool-cases runs) [
  | inl up ↦ simp up (
      any-update_where (has_jti id) (has_jti jti) (set_token_info credential family) rows
        (λ x. refl)
      ∙ h)
  | inr down ↦ simp down h
]

Consumed-stable : (jti : String) → CodeStable (Consumed jti)
Consumed-stable jti = record {
  of_codes = record {
    policies = λ w x h. h;
    credentials = λ w x h. h;
    refresh_tokens = λ w x h. h;
    requests = λ w x h. h;
  };
  consumes = λ w runs first c rows e h. consume-keeps jti runs first c w.auth_codes rows e h;
  updates =
      λ w runs id credential family h. update-keeps jti runs id credential family w.auth_codes h;
}

-- The states that come after `w`: by calls of `Token` for the grants that the server implements, and by whatever
-- leaves the table of codes alone.
pub data Later (w : World) : World → Type 0 where
  now : Later w w
  then_token :
      {v : World} (s : OAuthService) (call : GrantCall) (req : TokenRequest)
      → Later w v
      → s.custom_grants req.grant_type ≡ none
      → Later w (token s call req v).1
  then_other : {v u : World} → Later w v → u.auth_codes ≡ v.auth_codes → Later w u

Consumed-Later : (jti : String) {w v : World} → Later w v → Consumed jti w → Consumed jti v
unfolding Keeps
Consumed-Later jti now h = h
Consumed-Later jti (then_token {v} s call req before builtin) h =
    token-Keeps (Consumed jti) (Consumed-stable jti) s call req builtin v
      (Consumed-Later jti before h)
Consumed-Later jti (then_other before same) h = rw same (Consumed-Later jti before h)

-- The tests that a successful exchange of an authorization code has passed, and what ran after them.
pub record Passed (s : OAuthService) (call : GrantCall) (req : TokenRequest) (w v : World)
    (token : AccessToken) : Type 0 where
  pub code : AuthCodeClaims
  pub decoded : decode_auth_code_jwt s req.code ≡ some code
  pub same_client : code.client_id ≡ req.client_id
  pub client : OAuthClient
  pub registered : get_public_client s call req.client_id ≡ some client
  pub permitted : contains client.grant_types "authorization_code" ≡ true
  pub redirect :
      normalize_loopback s.lib code.redirect_uri ≡ normalize_loopback s.lib req.redirect_uri
  pub proof : verify_code_challenge s.lib req.code_verifier code.code_challenge ≡ true
  pub middle : World
  pub consumed : consume_code s call code w ≡ (ok tt, middle)
  pub rest : exchange_code s call req code client middle ≡ (ok token, v)

pub authorization_code-Passed :
    (s : OAuthService) (call : GrantCall) (req : TokenRequest) (w : World) {token : AccessToken}
    {v : World}
    → authorization_code s call req w ≡ (ok token, v)
    → Passed s call req w v token
unfolding authorization_code
authorization_code-Passed s call req w h =
    let (complete, h1) =
      check-eq_ok
        (not (
          (req.code == "" || req.code_verifier == "")
          || (req.client_id == "" || req.redirect_uri == "")))
        _ _ w h in
    let (secret, h2) = check-eq_ok (not (s.hmac_secret == "")) _ _ w h1 in
    let (c, decoded, h3) = need-eq_ok (decode_auth_code_jwt s req.code) _ _ w h2 in
    let (same, h4) = check-eq_ok (c.client_id == req.client_id) _ _ w h3 in
    let (client, registered, h5) = need-eq_ok (get_public_client s call req.client_id) _ _ w h4 in
    let (permitted, h6) = check-eq_ok (contains client.grant_types "authorization_code") _ _ w h5 in
    let (redirect, h7) =
      check-eq_ok
        (normalize_loopback s.lib c.redirect_uri == normalize_loopback s.lib req.redirect_uri) _ _ w
        h6 in
    let (proof, h8) =
      check-eq_ok (verify_code_challenge s.lib req.code_verifier c.code_challenge) _ _ w h7 in
    let (u, middle, consumed, rest) = >>=-eq_ok (consume_code s call c) _ w h8 in
    record {
      code = c;
      decoded = decoded;
      same_client = (eq_iff c.client_id req.client_id).0 same;
      client = client;
      registered = registered;
      permitted = permitted;
      redirect = (eq_iff _ _).0 redirect;
      proof = proof;
      middle = middle;
      consumed = consumed;
      rest = rest;
    }

pub consume_code-fresh :
    (s : OAuthService) (call : GrantCall) (c : AuthCodeClaims) (w : World) {v : World}
    → consume_code s call c w ≡ (ok tt, v)
    → (any (has_jti c.jti) w.auth_codes ≡ false) × Consumed c.jti v
unfolding consume_code consume after_consume code_row any has_jti
consume_code-fresh s call c w {v} h = elim (Bool-cases call.consume_runs) [
  | inr down ↦ cc (simp down at h)
  | inl up ↦ elim (Bool-cases (any (λ d. d.jti == c.jti) w.auth_codes)) [
    | inl used ↦ cc (simp (up, used) at h)
    | inr fresh ↦
        let e : record w { auth_codes = code_row c ∷ w.auth_codes } ≡ v =
          ap (λ r. r.1) (simp (up, fresh) at h) in
        (fresh, rw (← e) (rw ((eq_iff c.jti c.jti).1 refl) refl))
  ]
]

pub Passed-Consumed :
    (s : OAuthService) (call : GrantCall) (req : TokenRequest) (w : World) {v : World}
    {t : AccessToken} (e : Passed s call req w v t)
    → Consumed e.code.jti e.middle
    → Consumed e.code.jti v
unfolding Keeps
Passed-Consumed s call req w e used = subst (Consumed e.code.jti) (ap (λ r. r.1) e.rest) (
    exchange_code-Keeps (Consumed e.code.jti) (Consumed-stable e.code.jti) s call req e.code
      e.client e.middle used)

some-inj : {A : Type 0} {a b : A} → some a ≡ some b → a ≡ b
some-inj e = cc

clash : {b : Bool} → b ≡ true → b ≡ false → ⊥
clash h k = cc

-- After an authorization code has been exchanged, no later call of `Token` exchanges a code with the same
-- identifier, whatever the parameters of the two calls, as long as every change in between is a built-in grant
-- or leaves the table of consumed codes alone.
pub code-single_use :
    (s : OAuthService) (call : GrantCall) (req : TokenRequest) (w : World) {v : World}
    {t : AccessToken}
    → (first : authorization_code s call req w ≡ (ok t, v)) → {u : World} → Later v u
    → (s' : OAuthService) (call' : GrantCall) (req' : TokenRequest) (t' : AccessToken) (u' : World)
      (c c' : AuthCodeClaims)
    → decode_auth_code_jwt s req.code ≡ some c
    → decode_auth_code_jwt s' req'.code ≡ some c'
    → c'.jti ≡ c.jti
    → authorization_code s' call' req' u ≢ (ok t', u')
code-single_use s call req w {v} {t} first {u} later s' call' req' t' u' c c' d d' same second =
    let a = authorization_code-Passed s call req w first in
    let b = authorization_code-Passed s' call' req' u second in
    let (unused, used) = consume_code-fresh s call a.code w a.consumed in
    let after : Consumed a.code.jti v = Passed-Consumed s call req w a used in
    let (fresh, again) = consume_code-fresh s' call' b.code u b.consumed in
    let first_code : a.code ≡ c = some-inj (sym a.decoded ∙ d) in
    let second_code : b.code ≡ c' = some-inj (sym b.decoded ∙ d') in
    let id : a.code.jti ≡ b.code.jti =
      ap (λ x. x.jti) first_code ∙ (sym same ∙ ap (λ x. x.jti) (sym second_code)) in
    let later_used = Consumed-Later a.code.jti later after in
    clash (subst (λ j. Consumed j u) id later_used) fresh

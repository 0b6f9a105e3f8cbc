-- ===== src/OAuth/Delegation.antt =====
-- internal/service/oauth.go: what a token that one agent delegates to another carries.
use mathlib.Core.Path.{subst}
use mathlib.Core.Bool.{and-eq-true_iff}
use zeroid.Prelude.{
  ◌≡◌, refl, sym, ap, String, true, false, Option, none, some, List, [], ◌∷◌, ◌==◌, ◌&&◌, ◌||◌, not,
  ◌⊎◌, inl, inr, Memᴰ, Bool-cases, eq_iff, contains, contains-mem, is_empty, ltb,
}
use zeroid.Prelude.Result.{ok}
use zeroid.Prelude.Table.{find-eq_some}
use zeroid.Identity.Model.{Identity}
use zeroid.Credential.Defs.{IssuedCredential}
use zeroid.Credential.Revoke.{introspect_token, introspect_found, get_by_jti}
use zeroid.OAuth.Defs.{OAuthService, GrantCall, World}
use zeroid.OAuth.Step.{check-eq_ok, check_last, need-eq_ok, need_last}
use zeroid.OAuth.Lookup.{validate_alg, parse_ec_public_key_pem, introspect}
use zeroid.OAuth.Exchange.{delegated_scopes, active_row, active_subject}
use zeroid.OAuth.Agent.{present, peek_issuer, verify_assertion}

-- A scope that is collected was requested, is held, and is allowed where the actor has a list.
pub delegated_scopes-Mem :
    (held allowed requested : List String) {x : String}
    → Memᴰ x (delegated_scopes held allowed requested)
    → Memᴰ x requested × Memᴰ x held × ((is_empty allowed ≡ true) ⊎ Memᴰ x allowed)
unfolding delegated_scopes
delegated_scopes-Mem held allowed [] m = elim m [ ]
delegated_scopes-Mem held allowed (s ∷ ss) {x} m =
    elim (Bool-cases (contains held s && (is_empty allowed || contains allowed s))) [
      | inr out ↦
          let (a, b, c) =
            delegated_scopes-Mem held allowed ss (simp (out, delegated_scopes) at m) in
          (Memᴰ.tail a, b, c)
      | inl kept ↦
          first kept (delegated_scopes-Mem held allowed ss) (simp (kept, delegated_scopes) at m)
    ]
  where
    permitted :
        (is_empty allowed || contains allowed s) ≡ true → (is_empty allowed ≡ true) ⊎ Memᴰ s allowed
    permitted h = elim (Bool-cases (is_empty allowed)) [
      | inl unlisted ↦ inl unlisted
      | inr listed ↦ inr (contains-mem allowed s (simp listed at h))
    ]

    first :
        (contains held s && (is_empty allowed || contains allowed s)) ≡ true
        → (Memᴰ x (delegated_scopes held allowed ss)
            → Memᴰ x ss × Memᴰ x held × ((is_empty allowed ≡ true) ⊎ Memᴰ x allowed))
        → Memᴰ x (s ∷ delegated_scopes held allowed ss)
        → Memᴰ x (s ∷ ss) × Memᴰ x held × ((is_empty allowed ≡ true) ⊎ Memᴰ x allowed)
    first kept later (Memᴰ.head e) =
        let (held_here, free) = (and-eq-true_iff _ _).0 kept in
        (
          Memᴰ.head e,
          subst (λ y. Memᴰ y held) (sym e) (contains-mem held s held_here),
          subst (λ y. (is_empty allowed ≡ true) ⊎ Memᴰ y allowed) (sym e) (permitted free),
        )
    first kept later (Memᴰ.tail n) = let (a, b, c) = later n in (Memᴰ.tail a, b, c)

-- A credential that `IntrospectToken` finds active.
pub record Active (call : GrantCall) (jti : String) (rows : List IssuedCredential)
    (c : IssuedCredential) : Type 0 where
  pub stored : Memᴰ c rows
  pub named : c.jti ≡ jti
  pub alive : c.is_revoked ≡ false
  pub in_time : ltb c.expires_at call.introspected_at ≡ false

introspect_found-Active :
    (call : GrantCall) (jti : String) (rows : List IssuedCredential) (o : Option IssuedCredential)
    {c : IssuedCredential}
    → get_by_jti jti rows ≡ o
    → active_row (introspect_found call.introspected_at o) ≡ some c
    → Active call jti rows c
unfolding introspect_found active_row get_by_jti
introspect_found-Active call jti rows none found h = cc
introspect_found-Active call jti rows (some d) {c} found h = elim (Bool-cases d.is_revoked) [
  | inl gone ↦ cc (simp gone at h)
  | inr alive ↦ elim (Bool-cases (ltb d.expires_at call.introspected_at)) [
    | inl late ↦ cc (simp (alive, late) at h)
    | inr in_time ↦
        let same : d ≡ c = cc (simp (alive, in_time) at h) in
        let (named, stored) = find-eq_some _ rows found in
        subst (Active call jti rows) same (record {
          stored = stored;
          named = (eq_iff d.jti jti).0 named;
          alive = alive;
          in_time = in_time;
        })
  ]
]

pub introspect-Active :
    (call : GrantCall) (jti : String) (rows : List IssuedCredential) {c : IssuedCredential}
    → active_row (introspect call jti rows) ≡ some c
    → Active call jti rows c
unfolding introspect introspect_token active_row
introspect-Active call jti rows h = elim (Bool-cases call.credential_read) [
  | inr down ↦ cc (simp down at h)
  | inl up ↦ introspect_found-Active call jti rows _ refl (simp up at h)
]

pub active_subject-eq_ok :
    (call : GrantCall) (jti : String) (w : World) {c : IssuedCredential} {v : World}
    → active_subject call jti w ≡ (ok c, v)
    → Active call jti w.credentials c × (v ≡ w)
unfolding active_subject
active_subject-eq_ok call jti w h =
    let (found, same) = need_last _ _ w h in (introspect-Active call jti w.credentials found, same)

pub peek_issuer-eq_ok :
    (s : OAuthService) (t : String) (w : World) {uri : String} {v : World}
    → peek_issuer s t w ≡ (ok uri, v)
    → v ≡ w
unfolding peek_issuer
peek_issuer-eq_ok s t w h =
    let (alg, h1) = check-eq_ok (validate_alg s.lib t) _ _ w h in
    let (peeked, parsed, h2) = need-eq_ok (s.lib.parse_insecure t) _ _ w h1 in
    let (named, h3) = check-eq_ok (not (peeked.issuer == "")) _ _ w h2 in sym (ap (λ r. r.1) h3)

pub verify_assertion-eq_ok :
    (s : OAuthService) (t : String) (i : Identity) (w : World) {v : World}
    → verify_assertion s t i w ≡ (ok tt, v)
    → v ≡ w
unfolding verify_assertion
verify_assertion-eq_ok s t i w h =
    let (registered, h1) = check-eq_ok (not (i.public_key_pem == "")) _ _ w h in
    let (key, decoded, h2) = need-eq_ok (parse_ec_public_key_pem s.lib i.public_key_pem) _ _ w h1 in
    let (t', verified, h3) = need-eq_ok (s.lib.parse_assertion key s.issuer t) _ _ w h2 in
    let (sub, h4) = check-eq_ok (present t'.subject) _ _ w h3 in
    let (exp, h5) = check-eq_ok (present t'.expiration) _ _ w h4 in
    check_last (t'.issuer == i.wimse_uri) _ w h5

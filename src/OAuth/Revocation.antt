-- ===== src/OAuth/Revocation.antt =====
-- internal/service/oauth.go: what `Revoke` leaves for `Introspect`.
use mathlib.Core.Path.{subst}
use mathlib.Core.Bool.{and-eq-true_iff}
use zeroid.Prelude.{
  ℕ, zero, ◌≡◌, ◌≢◌, refl, ap, ◌∙◌, ◌≤◌, ◌<◌, String, true, false, some, List, ◌==◌, ◌||◌, ◌&&◌,
  not, eq_iff, eq_false_of_ne, Memᴰ, ltb, arith,
}
use zeroid.Prelude.Result.{ok}
use zeroid.Prelude.Table.{count_where, find-eq_some, find-Mem, count_where_unique}
use zeroid.Credential.Defs.{IssuedCredential}
use zeroid.Credential.Revoke.{
  live, anchored_by_id, get_by_jti, revoke, revoke_credential, introspect_token,
}
use zeroid.Credential.Cascade.{anchored}
use zeroid.Credential.Revoked.{WithinCascade, cascade-introspect}
use zeroid.OAuth.Defs.{OAuthService, GrantCall, ParsedToken}
use zeroid.OAuth.Lookup.{parse_token}
use zeroid.OAuth.Endpoint.{revoke_live, revoke_parsed, revoke_endpoint}

-- The one row with this `jti`, live for the call that revokes it.
pub record Revocable (call : GrantCall) (jti : String) (rows : List IssuedCredential)
    (c : IssuedCredential) : Type 0 where
  pub stored : Memᴰ c rows
  pub named : c.jti ≡ jti
  pub unique : count_where (λ d. d.jti == c.jti) rows ≤ 1
  pub alive : c.is_revoked ≡ false
  pub in_time : call.introspected_at < c.expires_at
  pub still : call.revoked_at < c.expires_at
  pub reads : call.credential_read ≡ true
  pub runs : call.revoke_runs ≡ true

get_by_jti_unique :
    (call : GrantCall) (jti : String) (rows : List IssuedCredential) (c : IssuedCredential)
    → Revocable call jti rows c
    → get_by_jti jti rows ≡ some c
unfolding get_by_jti
get_by_jti_unique call jti rows c r =
    let hit = (eq_iff c.jti jti).1 r.named in
    let (d, found) = find-Mem (λ e. e.jti == jti) r.stored hit in
    let (same, stored) = find-eq_some (λ e. e.jti == jti) rows found in
    let one : count_where (λ e. e.jti == jti) rows ≤ 1 =
      subst (λ j. count_where (λ e. e.jti == j) rows ≤ 1) r.named r.unique in
    let it : d ≡ c = count_where_unique (λ e. e.jti == jti) one stored r.stored same hit in
    found ∙ ap (λ x. some x) it

get_by_jti_live :
    (call : GrantCall) (jti : String) (rows : List IssuedCredential) (c : IssuedCredential)
    → Revocable call jti rows c
    → revoke_live call (some c) rows
      ≡ ok (revoke call.revoked_at c.id c.account_id c.project_id "oauth2_revocation" rows)
unfolding revoke_live revoke_credential
get_by_jti_live call jti rows c r =
    let dead : (c.is_revoked || ltb c.expires_at call.introspected_at) ≡ false =
      ground (arith, r.alive, r.in_time) in
    simp (dead, r.runs) refl

-- The credential itself is within the cascade of its revocation.
pub itself-WithinCascade :
    (call : GrantCall) (jti : String) (rows : List IssuedCredential) (c : IssuedCredential)
    → Revocable call jti rows c
    → WithinCascade call.revoked_at
        (anchored_by_id call.revoked_at c.id c.account_id c.project_id)
        rows
        c
unfolding anchored_by_id live
itself-WithinCascade call jti rows c r =
    let key : (c.id == c.id && (c.account_id == c.account_id && c.project_id == c.project_id))
        ≡ true =
      (and-eq-true_iff _ _).1 (
        (eq_iff c.id c.id).1 refl,
        (and-eq-true_iff _ _).1
            ((eq_iff c.account_id c.account_id).1 refl, (eq_iff c.project_id c.project_id).1 refl),
      ) in
    let open_row : (not c.is_revoked && ltb call.revoked_at c.expires_at) ≡ true =
      ground (arith, r.alive, r.still) in
    record {
      hops = zero;
      within = omega arith;
      end = c;
      reached = anchored r.stored ((and-eq-true_iff _ _).1 (key, open_row));
      same_id = refl;
    }

-- `Revoke` of a token that the server has signed and whose credential is live succeeds. Afterwards every credential
-- with a unique `jti` within 50 hops of it over `parent_jti`, itself included, is inactive for `IntrospectToken`
-- at any time.
pub revoke-inactive :
    (s : OAuthService) (call : GrantCall) (token : String) (rows : List IssuedCredential)
    (t : ParsedToken) (c d : IssuedCredential) (later : ℕ)
    → parse_token s.lib token false ≡ some t
    → t.jwt_id ≢ ""
    → Revocable call t.jwt_id rows c
    → Memᴰ d rows
    → count_where (λ e. e.jti == d.jti) rows ≤ 1
    → WithinCascade call.revoked_at
        (anchored_by_id call.revoked_at c.id c.account_id c.project_id)
        rows
        d
    → (rows' : List IssuedCredential) × (revoke_endpoint s call token rows ≡ ok rows')
      × ((introspect_token later d.jti rows').1 ≡ false)
unfolding revoke_endpoint revoke_parsed revoke
revoke-inactive s call token rows t c d later parsed named r stored unique w =
    let id = eq_false_of_ne t.jwt_id "" named in
    let found = get_by_jti_unique call t.jwt_id rows c r in
    (
      revoke call.revoked_at c.id c.account_id c.project_id "oauth2_revocation" rows,
      simp (parsed, id, r.reads, found) (get_by_jti_live call t.jwt_id rows c r),
      cascade-introspect call.revoked_at _ rows "oauth2_revocation" d later stored unique w,
    )

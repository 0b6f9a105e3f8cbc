-- ===== src/OAuth/CodeExchange.antt =====
-- internal/service/oauth.go: who gets a token for an authorization code, and which.
use zeroid.Prelude.{
  ◌≡◌, sym, ap, ◌∙◌, String, Bool, true, false, Option, none, some, List, ◌∷◌, eq_iff,
}
use zeroid.Prelude.Result.{ok}
use zeroid.Prelude.Table.{any, any-elim, any-Mem}
use zeroid.Credential.Defs.{AccessToken}
use zeroid.Prelude.Result.{Result}
use zeroid.OAuth.Defs.{
  OAuthError, OAuthService, GrantCall, World, AuthCode, AuthCodeClaims, TokenRequest,
}
use zeroid.OAuth.AuthCode.{code_claims, has_jti, consume, normalize_loopback, verify_code_challenge}
use zeroid.OAuth.CodeGrant.{code_row, after_consume, consume_code, authorization_code}
use zeroid.OAuth.SingleUse.{Passed-Consumed, authorization_code-Passed, consume_code-fresh}
use zeroid.OAuth.CodeIssued.{
  UsedCode, Exchanged, decode-Presented, get_public_client-Entitled, exchange_code-Rest,
}

after_consume-credentials :
    (s : OAuthService) (call : GrantCall) (c : AuthCodeClaims) (w : World)
    (o : Option (Bool × List AuthCode)) {v : World}
    → after_consume s call c w o ≡ (ok tt, v)
    → v.credentials ≡ w.credentials
unfolding after_consume
after_consume-credentials s call c w none h = cc
after_consume-credentials s call c w (some (true, rows)) h =
    sym (ap (λ (r : Result OAuthError (Unit {0}) × World). r.1.credentials) h)
after_consume-credentials s call c w (some (false, rows)) h = cc

consume_code-credentials :
    (s : OAuthService) (call : GrantCall) (c : AuthCodeClaims) (w : World) {v : World}
    → consume_code s call c w ≡ (ok tt, v)
    → v.credentials ≡ w.credentials
unfolding consume_code
consume_code-credentials s call c w h =
    after_consume-credentials s call c w (consume call.consume_runs (code_row c) w.auth_codes) h

any-UsedCode : (id : String) (w : World) → any (has_jti id) w.auth_codes ≡ true → UsedCode id w
unfolding has_jti
any-UsedCode id w h =
    let (c, m, hit) = any-elim (has_jti id) w.auth_codes h in (c, m, (eq_iff _ _).0 hit)

UsedCode-any : (id : String) (w : World) → UsedCode id w → any (has_jti id) w.auth_codes ≡ true
unfolding has_jti
UsedCode-any id w (c, m, e) = any-Mem (has_jti id) m ((eq_iff _ _).1 e)

-- Whenever a code is exchanged for a token, the code verifies as one of this server and was not used before, and
-- is recorded as used after; the client that it names is the request's, and is registered, public, active,
-- and has the grant; the redirect URIs agree once the loopback address is replaced, and the hash of the
-- verifier is the code's challenge. One credential is added: it has the code's scopes and the key that was
-- presented, and the token carries its identifier, and the code's tenant and user.
pub authorization_code-Exchanged :
    (s : OAuthService) (call : GrantCall) (req : TokenRequest) (w : World) {token : AccessToken}
    {v : World}
    → authorization_code s call req w ≡ (ok token, v)
    → Exchanged s req w v token
unfolding normalize_loopback verify_code_challenge code_claims
authorization_code-Exchanged s call req w {v} h =
    let p = authorization_code-Passed s call req w h in
    let (t, presented, e) = decode-Presented s req p.decoded in
    let (unused, used) = consume_code-fresh s call p.code w p.consumed in
    let r = exchange_code-Rest s call req p.code p.client p.middle p.rest in
    let before = consume_code-credentials s call p.code w p.consumed in
    record {
      parsed = t;
      id = p.code.jti;
      presented = presented;
      same_client = ap (λ c. c.client_id) (sym e) ∙ p.same_client;
      client = p.client;
      entitled = get_public_client-Entitled s call req p.registered p.permitted;
      redirect =
          ap (λ c. s.lib.replace_first c.redirect_uri "://127.0.0.1:" "://localhost:") (sym e)
          ∙ p.redirect;
      proof = (eq_iff _ _).0 p.proof ∙ ap (λ c. c.code_challenge) e;
      unused = λ u. let hit = UsedCode-any p.code.jti w u in cc;
      used = any-UsedCode p.code.jti v (Passed-Consumed s call req w p used);
      row = r.row;
      added = r.added ∙ ap (λ rs. r.row ∷ rs) before;
      token_jti = r.token_jti;
      scopes = r.scopes ∙ ap (λ c. c.scopes) e;
      bound = r.bound;
      tenant = ((r.tenant).0 ∙ ap (λ c. c.account_id) e, (r.tenant).1 ∙ ap (λ c. c.project_id) e);
      user = r.user ∙ ap (λ c. c.user_id) e;
    }

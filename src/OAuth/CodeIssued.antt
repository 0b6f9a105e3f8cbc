-- ===== src/OAuth/CodeIssued.antt =====
-- internal/service/oauth.go: what an exchanged code says, and what is issued for it.
use Prim.Native.String
use mathlib.Core.Path.{subst}
use mathlib.Core.Bool.{and-eq-true_iff}
use zeroid.Prelude.{
  ◌≡◌, sym, ap, ◌∙◌, String, true, Option, none, some, List, ◌∷◌, ◌==◌, ◌&&◌, inl, inr, Bool-cases,
  Option-cases, eq_iff, contains, contains-mem, Memᴰ, if◌then◌else◌,
}
use zeroid.Prelude.Result.{ok}
use zeroid.Prelude.Table.{find, find-eq_some}
use zeroid.Identity.Model.{Identity}
use zeroid.Credential.Defs.{IssuedCredential, AccessToken, IssueRequest}
use zeroid.Credential.Issue.{Issued, credential_row}
use zeroid.Refresh.Defs.{RefreshError, RefreshToken, RefreshTokenResult}
use zeroid.Prelude.Result.{Result, err}
use zeroid.OAuth.Defs.{
  OAuthService, GrantCall, World, AuthCode, AuthCodeClaims, OAuthClient, TokenRequest, ParsedToken,
}
use zeroid.OAuth.Step.{done, >>=-eq_ok, need-eq_ok}
use zeroid.OAuth.Lookup.{
  get_public_client, public_by_client_id, only_active, issue, gate, resolve_credential_policy,
  identity_by,
}
use zeroid.OAuth.External.{with_tenant}
use zeroid.OAuth.AuthCode.{decode_auth_code_jwt, decode_parsed, code_claims, code_jti, or_blank}
use zeroid.OAuth.CodeGrant.{
  exchange_code, carrier_identity, linked_identity, session_request, add_refresh, attach_refresh,
  record_tokens, code_ttl,
}
use zeroid.OAuth.Issuance.{gate-eq_ok, resolve-OnlyPolicies, IssuedIn, issue-IssuedIn}

-- The code that is presented: a token that verifies under the server's key, from the server's issuer, with the
-- subject of codes; its identifier is its `jti`, or is derived from the hash of its text.
pub record Presented (s : OAuthService) (req : TokenRequest) (t : ParsedToken) (id : String)
    : Type 0 where
  pub verified : s.lib.parse_code s.hmac_secret req.code ≡ some t
  pub issuer : t.issuer ≡ s.auth_code_issuer
  pub subject : or_blank t.subject ≡ "auth-code"
  pub identifier :
      id ≡ (if t.jwt_id == "" then String.◌++◌ "derived:" (s.lib.sha256_hex req.code) else t.jwt_id)

-- The client that it is exchanged for: a registered public client that is active and has the grant.
pub record Entitled (s : OAuthService) (req : TokenRequest) (client : OAuthClient) : Type 0 where
  pub registered : Memᴰ client s.clients
  pub named : client.client_id ≡ req.client_id
  pub public : client.client_type ≡ "public"
  pub active : client.is_active ≡ true
  pub permitted : Memᴰ "authorization_code" client.grant_types

-- A code with this identifier stands in the table of those that have been consumed.
abbrev pub UsedCode : String → World → Type 0
UsedCode id w = (c : AuthCode) × Memᴰ c w.auth_codes × (c.jti ≡ id)

pub record Exchanged (s : OAuthService) (req : TokenRequest) (w v : World) (token : AccessToken)
    : Type 0 where
  pub parsed : ParsedToken
  pub id : String
  pub presented : Presented s req parsed id
  pub same_client : parsed.cid ≡ req.client_id
  pub client : OAuthClient
  pub entitled : Entitled s req client
  pub redirect :
      s.lib.replace_first parsed.ruri "://127.0.0.1:" "://localhost:"
      ≡ s.lib.replace_first req.redirect_uri "://127.0.0.1:" "://localhost:"
  pub proof : s.lib.sha256_base64 req.code_verifier ≡ parsed.cc
  pub unused : ¬ UsedCode id w
  pub used : UsedCode id v
  pub row : IssuedCredential
  pub added : v.credentials ≡ row ∷ w.credentials
  pub token_jti : token.jti ≡ row.jti
  pub scopes : row.scopes ≡ parsed.scp
  pub bound : row.dpop_key_thumbprint ≡ req.dpop_key_thumbprint
  pub tenant : (token.account_id ≡ parsed.aid) × (token.project_id ≡ parsed.pid)
  pub user : token.user_id ≡ parsed.uid

pub decode-Presented :
    (s : OAuthService) (req : TokenRequest) {c : AuthCodeClaims}
    → decode_auth_code_jwt s req.code ≡ some c
    → (t : ParsedToken) × Presented s req t c.jti × (c ≡ code_claims s.lib req.code t)
unfolding decode_auth_code_jwt decode_parsed code_claims code_jti
decode-Presented s req {c} h = elim (Option-cases (s.lib.parse_code s.hmac_secret req.code)) [
  | inl bad ↦ cc (simp bad at h)
  | inr (t, good) ↦ elim (Bool-cases (t.issuer == s.auth_code_issuer)) [
    | inr other ↦ cc (simp (good, other) at h)
    | inl ours ↦ elim (Bool-cases (or_blank t.subject == "auth-code")) [
      | inr other ↦ cc (simp (good, ours, other) at h)
      | inl code ↦
          let e : code_claims s.lib req.code t ≡ c = cc (simp (good, ours, code) at h) in
          (
            t,
            record {
              verified = good;
              issuer = (eq_iff _ _).0 ours;
              subject = (eq_iff _ _).0 code;
              identifier = ap (λ x. x.jti) (sym e);
            },
            sym e,
          )
    ]
  ]
]

pub get_public_client-Entitled :
    (s : OAuthService) (call : GrantCall) (req : TokenRequest) {client : OAuthClient}
    → get_public_client s call req.client_id ≡ some client
    → contains client.grant_types "authorization_code" ≡ true
    → Entitled s req client
unfolding get_public_client public_by_client_id only_active
get_public_client-Entitled s call req {client} h permitted = elim (Bool-cases call.client_read) [
  | inr down ↦ cc (simp down at h)
  | inl up ↦
      elim (Option-cases
        (find (λ c. c.client_id == req.client_id && c.client_type == "public") s.clients)) [
          | inl missing ↦ cc (simp (up, missing) at h)
          | inr (c, found) ↦ elim (Bool-cases c.is_active) [
            | inr off ↦ cc (simp (up, found, off) at h)
            | inl on ↦
                let (hit, stored) = find-eq_some _ s.clients found in
                let (named, public) = (and-eq-true_iff (c.client_id == req.client_id) _).0 hit in
                let same : c ≡ client = cc (simp (up, found, on) at h) in
                subst (Entitled s req) same (record {
                  registered = stored;
                  named = (eq_iff _ _).0 named;
                  public = (eq_iff _ _).0 public;
                  active = on;
                  permitted = contains-mem c.grant_types "authorization_code" (
                      subst (λ x. contains x.grant_types "authorization_code" ≡ true) (sym same)
                        permitted);
                })
          ]
        ]
]

carrier-credentials :
    (s : OAuthService) (call : GrantCall) (o : Option String) (account project : String) (w : World)
    {a : Identity × String} {v : World}
    → carrier_identity s call o account project w ≡ (ok a, v)
    → v.credentials ≡ w.credentials
unfolding carrier_identity linked_identity
carrier-credentials s call none account project w h = sym (ap (λ r. r.1.credentials) h)
carrier-credentials s call (some id) account project w {a} {v} h = elim (Bool-cases (id == "")) [
  | inl unset ↦ sym (ap (λ r. r.1.credentials) (simp unset at h))
  | inr set ↦
      let h0 = simp set at h in
      let (i, found, h1) =
        need-eq_ok (identity_by s call (λ j. j.id) id account project) _ _ w h0 in
      let (u, w1, k1, h2) = >>=-eq_ok (gate call i) _ w h1 in
      let (x, y, e1) = gate-eq_ok call i w k1 in
      let (p, w2, k2, h3) = >>=-eq_ok (resolve_credential_policy call i) _ w1 h2 in
      sym (ap (λ r. r.1.credentials) h3)
      ∙ ((resolve-OnlyPolicies call i w1 k2).credentials ∙ ap (λ x. x.credentials) e1)
]

-- What the refresh token that is attached leaves of the access token and of the credentials.
record Attached (token : AccessToken) (w : World) (made : AccessToken) (v : World) : Type 0 where
  pub kept : v.credentials ≡ w.credentials
  pub jti : made.jti ≡ token.jti
  pub account_id : made.account_id ≡ token.account_id
  pub project_id : made.project_id ≡ token.project_id
  pub user_id : made.user_id ≡ token.user_id

alone-Attached :
    (token : AccessToken) (w : World) {family : String} {made : AccessToken × String} {v : World}
    → done (token, family) w ≡ (ok made, v)
    → Attached token w made.0 v
alone-Attached token w {family} {made} {v} h =
    let pair : (token, family) ≡ made = cc (ap (λ r. r.0) h) in
    let same : token ≡ made.0 = ap (λ m. m.0) pair in
    record {
      kept = sym (ap (λ r. r.1.credentials) h);
      jti = ap (λ t. t.jti) (sym same);
      account_id = ap (λ t. t.account_id) (sym same);
      project_id = ap (λ t. t.project_id) (sym same);
      user_id = ap (λ t. t.user_id) (sym same);
    }

attach-Attached :
    (token : AccessToken) (w : World)
    (r : Result RefreshError (RefreshTokenResult × List RefreshToken)) {made : AccessToken × String}
    {v : World}
    → attach_refresh token w r ≡ (ok made, v)
    → Attached token w made.0 v
unfolding attach_refresh
attach-Attached token w (ok (t, rows)) h =
    let a =
      alone-Attached (record token { refresh_token = t.raw_token })
        (record w { refresh_tokens = rows }) h in
    record {
      kept = a.kept;
      jti = a.jti;
      account_id = a.account_id;
      project_id = a.project_id;
      user_id = a.user_id;
    }
attach-Attached token w (err e) h = alone-Attached token w h

add_refresh-Attached :
    (s : OAuthService) (call : GrantCall) (req : TokenRequest) (c : AuthCodeClaims)
    (client : OAuthClient) (token : AccessToken) (w : World) {made : AccessToken × String}
    {v : World}
    → add_refresh s call req c client token w ≡ (ok made, v)
    → Attached token w made.0 v
unfolding add_refresh
add_refresh-Attached s call req c client token w {made} {v} h =
    elim (Bool-cases (contains client.grant_types "refresh_token" && s.has_refresh)) [
      | inl with_refresh ↦ attach-Attached token w _ (simp with_refresh at h)
      | inr alone ↦ alone-Attached token w (simp alone at h)
    ]

-- What follows the consumption: one more credential, with the scopes of the code.
pub record Rest (req : TokenRequest) (c : AuthCodeClaims) (w v : World) (token : AccessToken)
    : Type 0 where
  pub row : IssuedCredential
  pub added : v.credentials ≡ row ∷ w.credentials
  pub token_jti : token.jti ≡ row.jti
  pub scopes : row.scopes ≡ c.scopes
  pub bound : row.dpop_key_thumbprint ≡ req.dpop_key_thumbprint
  pub tenant : (token.account_id ≡ c.account_id) × (token.project_id ≡ c.project_id)
  pub user : token.user_id ≡ c.user_id

pub exchange_code-Rest :
    (s : OAuthService) (call : GrantCall) (req : TokenRequest) (c : AuthCodeClaims)
    (client : OAuthClient) (w : World) {token : AccessToken} {v : World}
    → exchange_code s call req c client w ≡ (ok token, v)
    → Rest req c w v token
unfolding exchange_code session_request credential_row with_tenant record_tokens
exchange_code-Rest s call req c client w {token} {v} h =
    let (carrier, w1, k1, h1) =
      >>=-eq_ok (carrier_identity s call client.identity_id c.account_id c.project_id) _ w h in
    let (out, w2, k2, h2) = >>=-eq_ok (issue s call (asked carrier)) _ w1 h1 in
    let (made, w3, k3, h3) =
      >>=-eq_ok (add_refresh s call req c client (under out.token)) _ w2 h2 in
    let (u, w4, k4, h4) = >>=-eq_ok (record_tokens call c.jti out.token.jti made.1) _ w3 h3 in
    joined carrier out made w1 w2 w3 w4
      (carrier-credentials s call client.identity_id c.account_id c.project_id w k1)
      (issue-IssuedIn s call (asked carrier) w1 k2)
      (add_refresh-Attached s call req c client (under out.token) w2 k3)
      (sym (ap (λ r. r.1.credentials) k4)) (cc (ap (λ r. r.0) h4)) (ap (λ r. r.1) h4)
  where
    asked : Identity × String → IssueRequest
    asked carrier =
        session_request "authorization_code" req carrier c.user_id c.client_id (code_ttl client)
          c.scopes

    under : AccessToken → AccessToken
    under t = with_tenant c.account_id c.project_id c.user_id t

    joined :
        (carrier : Identity × String) (out : Issued) (made : AccessToken × String)
        (w1 w2 w3 w4 : World)
        → w1.credentials ≡ w.credentials
        → IssuedIn s call (asked carrier) w1 out w2
        → Attached (under out.token) w2 made.0 w3
        → w4.credentials ≡ w3.credentials
        → made.0 ≡ token
        → w4 ≡ v
        → Rest req c w v token
    joined carrier out made w1 w2 w3 w4 e1 issued att e4 same last = record {
      row = out.credential;
      added =
          ap (λ x. x.credentials) (sym last)
          ∙ (e4 ∙ (att.kept ∙ (issued.added ∙ ap (λ rs. out.credential ∷ rs) e1)));
      token_jti = ap (λ t. t.jti) (sym same) ∙ (att.jti ∙ issued.token_jti);
      scopes = ap (λ x. x.scopes) issued.row;
      bound = ap (λ x. x.dpop_key_thumbprint) issued.row;
      tenant = (
        ap (λ t. t.account_id) (sym same) ∙ att.account_id,
        ap (λ t. t.project_id) (sym same) ∙ att.project_id,
      );
      user = ap (λ t. t.user_id) (sym same) ∙ att.user_id;
    }

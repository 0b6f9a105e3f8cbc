-- ===== src/OAuth/AuthCode.antt =====
-- internal/service/authcode.go and internal/store/postgres/auth_code.go: the codes and the table of those that
-- have been consumed.
use Prim.Native.String
use zeroid.Prelude.{
  ℕ, String, Bool, true, false, Option, none, some, List, ◌∷◌, ◌==◌, if◌then◌else◌,
}
use zeroid.Prelude.Table.{find, any, update_where}
use zeroid.OAuth.Defs.{AuthCode, AuthCodeClaims, ParsedToken, Libraries, OAuthService}

-- the identifier of the code: its `jti`, or one derived from the hash of its text
unfoldable pub code_jti : Libraries → String → ParsedToken → String
code_jti lib code t =
    if t.jwt_id == "" then String.◌++◌ "derived:" (lib.sha256_hex code) else t.jwt_id

abbrev pub or_zero : Option ℕ → ℕ
or_zero none = 0
or_zero (some n) = n

abbrev pub or_blank : Option String → String
or_blank none = ""
or_blank (some t) = t

unfoldable pub code_claims : Libraries → String → ParsedToken → AuthCodeClaims
code_claims lib code t = record {
  jti = code_jti lib code t;
  expires_at = or_zero t.expiration;
  client_id = t.cid;
  code_challenge = t.cc;
  redirect_uri = t.ruri;
  scopes = t.scp;
  user_id = t.uid;
  org_id = t.oid;
  account_id = t.aid;
  project_id = t.pid;
}

-- the issuer and the subject of a verified code
unfoldable pub decode_parsed : OAuthService → String → Option ParsedToken → Option AuthCodeClaims
decode_parsed s code none = none
decode_parsed s code (some t) =
    if t.issuer == s.auth_code_issuer
    then if or_blank t.subject == "auth-code" then some (code_claims s.lib code t) else none
    else none

-- `decodeAuthCodeJWT`
unfoldable pub decode_auth_code_jwt : OAuthService → String → Option AuthCodeClaims
decode_auth_code_jwt s code = decode_parsed s code (s.lib.parse_code s.hmac_secret code)

-- `verifyCodeChallenge`
unfoldable pub verify_code_challenge : Libraries → String → String → Bool
verify_code_challenge lib verifier challenge = lib.sha256_base64 verifier == challenge

-- `normalizeLoopback`
unfoldable pub normalize_loopback : Libraries → String → String
normalize_loopback lib uri = lib.replace_first uri "://127.0.0.1:" "://localhost:"

unfoldable pub has_jti : String → AuthCode → Bool
has_jti jti c = c.jti == jti

-- `Consume`: whether the insert added a row; `none` is an error
unfoldable pub consume : Bool → AuthCode → List AuthCode → Option (Bool × List AuthCode)
consume runs c rows =
    if runs
    then some (if any (has_jti c.jti) rows then (false, rows) else (true, c ∷ rows))
    else none

-- `GetByJTI`
unfoldable pub get_code : Bool → String → List AuthCode → Option AuthCode
get_code runs jti rows = if runs then find (has_jti jti) rows else none

unfoldable pub set_token_info : String → String → AuthCode → AuthCode
set_token_info credential family c = record c {
  credential_jti = some credential;
  refresh_family_id = if family == "" then c.refresh_family_id else some family;
}

-- `UpdateTokenInfo`
unfoldable pub update_token_info : Bool → String → String → String → List AuthCode → List AuthCode
update_token_info runs jti credential family rows =
    if runs then update_where (has_jti jti) (set_token_info credential family) rows else rows

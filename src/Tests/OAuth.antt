-- ===== src/Tests/OAuth.antt =====
-- The grants: one client, one agent, one code and one refresh token.
use Prim.Native.String as Str
use zeroid.Prelude.{
  String, Bool, true, false, none, some, Option, [], ◌∷◌, ◌++◌, if◌then◌else◌, ◌==◌,
}
use zeroid.Prelude.Int.{pos}
use zeroid.Identity.Model.{Identity}
use zeroid.Credential.Defs.{IssuedCredential}
use zeroid.OAuth.Defs.{
  TokenRequest, OAuthClient, ParsedToken, PublicKey, Libraries, World, GrantCall, OAuthService,
}
use zeroid.Identity.Class.{TrustLevel}
use zeroid.Identity.Spiffe.{Text, scheme, eqb}
use zeroid.Policy.Defs.{AttestationLevel, CredentialPolicy}
use zeroid.Credential.Defs.{IssueRequest}
use zeroid.Credential.Issue.{credential_row}
use zeroid.OAuth.Lookup.{issue}
use zeroid.OAuth.Exchange.{delegation_request}
use zeroid.OAuth.Delegated.{Delegated}
use zeroid.Tests.Credential.{bot, service, call}
use zeroid.Tests.Refresh.{bound, call_at}
use zeroid.Tests.Backchannel.{at_once}
use zeroid.Refresh.Rotate.{IssueCall}

-- the token of the root credential, the assertion of the agent, and the code
abbrev pub parsed : ParsedToken
parsed = record {
  issuer = "";
  subject = some "";
  jwt_id = "";
  expiration = some 1;
  delegation_depth = none;
  mission_id = none;
  cid = "";
  cc = "";
  ruri = "";
  scp = [];
  uid = "";
  oid = "";
  aid = "";
  pid = "";
}

abbrev of_token : String → Option ParsedToken
of_token t =
    if t == "h.root"
    then some (record parsed { issuer = "https://issuer"; subject = some "root"; jwt_id = "root" })
    else if t == "h.code"
    then some (record parsed {
      issuer = "codes";
      subject = some "auth-code";
      jwt_id = "code-1";
      cid = "cli";
      cc = "v";
      ruri = "app";
      scp = "read" ∷ [];
      uid = "user";
      aid = "acct";
      pid = "proj";
    })
    else some (record parsed { issuer = "spiffe://d/acct/proj/agent/bot"; subject = some "bot" })

-- spiffe://d/a/p/g/b
abbrev uri_bytes : Text
uri_bytes = scheme ++ (b'd' ∷ b'/' ∷ b'a' ∷ b'/' ∷ b'p' ∷ b'/' ∷ b'g' ∷ b'/' ∷ b'b' ∷ [])

abbrev starts_with_a : Text → Bool
starts_with_a [] = false
starts_with_a (c ∷ more) = eqb c b'a'

abbrev pub libraries : Libraries
libraries = record {
  header_alg = λ h. some "ES256";
  parse_insecure = of_token;
  parse_signed = λ validate t. of_token t;
  parse_assertion = λ key audience t. of_token t;
  parse_code = λ secret t. of_token t;
  decode_pem = λ pem. some pem;
  parse_public_key = λ der. some (PublicKey.ecdsa "P-256" der);
  sha256_hex = λ t. Str.◌++◌ "h:" t;
  sha256_base64 = λ t. t;
  compare_secret = λ hash secret. hash == secret;
  replace_first = λ text old new. text;
  bytes = λ t. if t == "d" then b'd' ∷ [] else uri_bytes;
  of_bytes = λ t. if starts_with_a t then "acct" else "proj";
}

abbrev pub agent : Identity
agent = record bot { public_key_pem = "pem"; expires_at = none }

abbrev pub client : OAuthClient
client = record {
  client_id = "cli";
  client_secret = "s";
  client_type = "public";
  grant_types = "authorization_code" ∷ [];
  scopes = [];
  access_token_ttl = pos 600;
  refresh_token_ttl = pos 0;
  identity_id = none;
  is_active = true;
}

abbrev pub oauth : OAuthService
oauth = record {
  credential = service;
  lib = libraries;
  identities = agent ∷ [];
  clients = client ∷ [];
  api_keys = [];
  issuer = "https://issuer";
  wimse_domain = "d";
  hmac_secret = "secret";
  auth_code_issuer = "codes";
  trusted = none;
  has_refresh = true;
  min_poll = none;
  custom_grants = λ name. none;
}

abbrev pub issue_call : IssueCall
issue_call = record { random = some "c"; family_id = "fam-2"; now = 10; stored = true }

abbrev pub grant_call : GrantCall
grant_call = record {
  client_read = true;
  identity_read = true;
  policy_read = true;
  policy_id = "new";
  policy_now = 0;
  policy_stored = true;
  policy_reread = true;
  identity_now = 100000000000;
  key_read = true;
  key_now = 100000000000;
  key_policy_read = true;
  credential_read = true;
  introspected_at = 100000000000;
  consume_runs = true;
  code_read = true;
  revoke_runs = true;
  revoked_at = 100000000000;
  family_runs = true;
  family_at = 100000000000;
  update_runs = true;
  issue = call;
  refresh = issue_call;
  rotate = call_at 30;
  resolve = at_once;
}

abbrev pub request : TokenRequest
request = record {
  grant_type = "authorization_code";
  client_id = "cli";
  client_secret = "";
  scope = "read";
  account_id = "";
  project_id = "";
  subject = "";
  api_key = "";
  subject_token = "h.root";
  subject_token_type = "";
  actor_token = "h.bot";
  user_id = "";
  user_email = "";
  user_name = "";
  application_id = "";
  additional_claims = [];
  code = "h.code";
  code_verifier = "v";
  redirect_uri = "app";
  refresh_token_str = "zid_rt_a";
  auth_req_id = "";
  dpop_key_thumbprint = "";
}

abbrev pub root : IssuedCredential
root = record {
  id = "cred-0";
  identity_id = some "id-0";
  account_id = "acct";
  project_id = "proj";
  jti = "root";
  subject = "spiffe://d/acct/proj/agent/root";
  issued_at = 0;
  expires_at = 900000000000;
  ttl_seconds = pos 900;
  scopes = "read" ∷ "write" ∷ [];
  is_revoked = false;
  revoked_at = none;
  revoke_reason = "";
  grant_type = "client_credentials";
  delegation_depth = pos 0;
  parent_jti = "";
  delegated_by_wimse_uri = "";
  mission_id = "root";
  dpop_key_thumbprint = "";
}

abbrev pub exchange_policy : CredentialPolicy
exchange_policy = record {
  id = "pol";
  account_id = "acct";
  project_id = "proj";
  name = "default";
  description = "";
  max_ttl_seconds = pos 3600;
  allowed_grant_types = "token_exchange" ∷ [];
  allowed_scopes = "read" ∷ [];
  required_trust_level = TrustLevel.unset;
  required_attestation = AttestationLevel.unset;
  max_delegation_depth = pos 1;
  is_active = true;
  expires_at = none;
  created_at = 0;
  updated_at = 0;
}

abbrev pub world : World
world = record {
  policies = some (exchange_policy ∷ []);
  credentials = root ∷ [];
  refresh_tokens = record bound { client_id = "other"; dpop_key_thumbprint = "" } ∷ [];
  auth_codes = [];
  requests = [];
}

-- the delegation from the root's token to the agent
abbrev subject_token : ParsedToken
subject_token = record parsed { issuer = "https://issuer"; subject = some "root"; jwt_id = "root" }

abbrev delegated : IssueRequest
delegated = delegation_request request subject_token agent exchange_policy ("read" ∷ [])

abbrev child : IssuedCredential
child = credential_row call agent delegated (pos 900) "token_exchange"

abbrev after_delegation : World
after_delegation = record world { credentials = child ∷ root ∷ [] }

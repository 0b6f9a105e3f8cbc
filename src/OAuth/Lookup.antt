-- ===== src/OAuth/Lookup.antt =====
-- What the grants look up: policies, identities, clients and keys, and the checks of a token's algorithm.
use Prim.Native.String as Str
use Prim.Native.Char.{code}
use zeroid.Prelude.{
  ℕ, String, Bool, false, Option, none, some, List, [], ◌∷◌, ◌==◌, ◌&&◌, not, contains,
  if◌then◌else◌, ltb, leb,
}
use zeroid.Prelude.Result.{Result, ok, err}
use zeroid.Prelude.Table.{find}
use zeroid.Identity.Status.{is_usable}
use zeroid.Identity.Model.{Identity}
use zeroid.Identity.Spiffe.{parse_wimse_uri}
use zeroid.Policy.Defs.{CredentialPolicy, is_expired}
use zeroid.Policy.Default.{Ensured, ensure_default_policy}
use zeroid.Credential.Defs.{IssuedCredential, IssueRequest, IssueError, CredentialService}
use zeroid.Credential.Issue.{Issued, get_policy, issue_credential}
use zeroid.Credential.Revoke.{introspect_token}
use zeroid.OAuth.Defs.{
  OAuthError, invalid_grant, server_error, issuance, OAuthClient, ApiKey, PublicKey, Libraries,
  World, GrantCall, OAuthService, ParsedToken,
}
use zeroid.OAuth.Step.{Step, check, need, ◌>>◌}

-- `strings.Cut` at the first dot: the text before it, if there is one
unfoldable pub cut_header : String → Option String
cut_header Str.[] = none
cut_header (Str.◌∷◌ c s) =
    let rest = cut_header s in
    if leb (code c) 46 && leb 46 (code c)
    then some ""
    else elim rest [ none ↦ none | some before ↦ some (Str.◌∷◌ c before) ]

abbrev pub allowed_algs : List String
allowed_algs =
    "ES256" ∷ "ES384" ∷ "ES512" ∷ "RS256" ∷ "RS384" ∷ "RS512" ∷ "PS256" ∷ "PS384" ∷ "PS512" ∷ []

unfoldable pub alg_allowed : Option String → Bool
alg_allowed none = false
alg_allowed (some alg) = not (alg == "") && contains allowed_algs alg

unfoldable pub header_allowed : Libraries → Option String → Bool
header_allowed lib none = false
header_allowed lib (some header) = not (header == "") && alg_allowed (lib.header_alg header)

-- `jwtalg.Validate` returns nil
unfoldable pub validate_alg : Libraries → String → Bool
validate_alg lib token = header_allowed lib (cut_header token)

-- `parseToken`
unfoldable pub parse_token : Libraries → String → Bool → Option ParsedToken
parse_token lib token validate =
    if validate_alg lib token then lib.parse_signed validate token else none

unfoldable pub p256_key : Option PublicKey → Option PublicKey
p256_key (some (PublicKey.ecdsa curve key)) =
    if curve == "P-256" then some (PublicKey.ecdsa curve key) else none
p256_key (some PublicKey.other) = none
p256_key none = none

-- `parseECPublicKeyPEM`
unfoldable pub parse_ec_public_key_pem : Libraries → String → Option PublicKey
parse_ec_public_key_pem lib pem = elim (lib.decode_pem pem) [
  | none ↦ none
  | some der ↦ p256_key (lib.parse_public_key der)
]

-- `parseWIMSEURI` on texts
unfoldable pub tenant_of_uri : OAuthService → String → Option (String × String)
tenant_of_uri s uri = elim (parse_wimse_uri (s.lib.bytes s.wimse_domain) (s.lib.bytes uri)) [
  | none ↦ none
  | some (account, project) ↦ some (s.lib.of_bytes account, s.lib.of_bytes project)
]

-- `GetByID`, `GetByExternalID` and `GetByWIMSEURI` of the identities
unfoldable pub identity_by :
    OAuthService → GrantCall → (Identity → String) → String → String → String → Option Identity
identity_by s call key value account project =
    if call.identity_read
    then find (λ i. key i == value && (i.account_id == account && i.project_id == project))
        s.identities
    else none

-- the status and the expiry of an identity, in this order, with the same error code
unfoldable pub gate : GrantCall → Identity → Step (Unit {0})
gate call i = do
  check (is_usable i.status) invalid_grant
  check (not (is_expired call.identity_now i.expires_at)) invalid_grant

-- `GetByClientID` and `GetPublicByClientID`
unfoldable pub client_by_client_id : OAuthService → GrantCall → String → Option OAuthClient
client_by_client_id s call id =
    if call.client_read then find (λ c. c.client_id == id) s.clients else none

unfoldable pub public_by_client_id : OAuthService → GrantCall → String → Option OAuthClient
public_by_client_id s call id =
    if call.client_read
    then find (λ c. c.client_id == id && c.client_type == "public") s.clients
    else none

unfoldable pub only_active : Option OAuthClient → Option OAuthClient
only_active none = none
only_active (some c) = if c.is_active then some c else none

-- `VerifyClientSecret`
unfoldable pub verify_client_secret :
    OAuthService → GrantCall → String → String → Option OAuthClient
verify_client_secret s call id secret = elim (only_active (client_by_client_id s call id)) [
  | none ↦ none
  | some c ↦ if s.lib.compare_secret c.client_secret secret then some c else none
]

-- `GetPublicClient`
unfoldable pub get_public_client : OAuthService → GrantCall → String → Option OAuthClient
get_public_client s call id = only_active (public_by_client_id s call id)

unfoldable pub unexpired_key : ℕ → Option ApiKey → Option ApiKey
unexpired_key now none = none
unexpired_key now (some k) = elim k.expires_at [
  | none ↦ some k
  | some t ↦ if ltb t now then none else some k
]

-- `GetByKeyHash`
unfoldable pub get_by_key_hash : OAuthService → GrantCall → String → Option ApiKey
get_by_key_hash s call hash =
    if call.key_read
    then unexpired_key call.key_now
        (find (λ k. k.key_hash == hash && k.state == "active") s.api_keys)
    else none

-- the policy that the identity names, or the tenant's default, which may be created
unfoldable pub ensured : World → Ensured → Result OAuthError CredentialPolicy × World
ensured w (ok (p, rows)) = (ok p, record w { policies = some rows })
ensured w (err e) = (err server_error, w)

unfoldable pub resolve_in :
    GrantCall → Identity → Option (List CredentialPolicy) → Step CredentialPolicy
resolve_in call i none w = (err server_error, w)
resolve_in call i (some rows) w =
    if not (i.credential_policy_id == "")
    then need (if call.policy_read then get_policy rows i.credential_policy_id i else none)
        server_error w
    else ensured w (
        ensure_default_policy call.policy_read call.policy_id call.policy_now call.policy_stored
          call.policy_reread i.account_id i.project_id rows)

-- `ResolveCredentialPolicy`, with the error that the grants give
unfoldable pub resolve_credential_policy : GrantCall → Identity → Step CredentialPolicy
resolve_credential_policy call i w = resolve_in call i w.policies w

unfoldable pub issued : World → Result IssueError Issued → Result OAuthError Issued × World
issued w (ok out) = (ok out, record w { credentials = out.rows })
issued w (err e) = (err (issuance e), w)

-- the credential service over the table of policies as it is now
unfoldable pub with_policies : OAuthService → World → CredentialService
with_policies s w = record s.credential { policies = w.policies }

-- `IssueCredential` within a grant
unfoldable pub issue : OAuthService → GrantCall → IssueRequest → Step Issued
issue s call r w = issued w (issue_credential (with_policies s w) call.issue w.credentials r)

-- `IntrospectToken` within a grant
unfoldable pub introspect :
    GrantCall → String → List IssuedCredential → Option IssuedCredential × Bool
introspect call jti rows =
    if call.credential_read then introspect_token call.introspected_at jti rows else (none, false)

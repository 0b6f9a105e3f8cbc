-- ===== src/Credential/Claims.antt =====
-- The JWT that `IssueCredential` builds: `token.Set` overwrites, so a claim has its last value.
use zeroid.Prelude.{
  ℕ, String, Bool, Option, none, some, [], ◌∷◌, ◌==◌, not, ◌&&◌, is_empty, if◌then◌else◌,
}
use zeroid.Prelude.Int.{ℤ, pos, lt_int}
use zeroid.Identity.Model.{Identity}
use zeroid.Identity.Class.{IdentityType, SubType, TrustLevel}
use zeroid.Identity.Status.{IdentityStatus}
use zeroid.Credential.Defs.{Claim, text, texts, time, number, entry, json, Claims, IssueRequest}

-- `token.Set`
unfoldable pub set_claim : String → Claim → Claims → Claims
set_claim k v [] = (k, v) ∷ []
set_claim k v ((j, w) ∷ cs) = if j == k then (k, v) ∷ cs else (j, w) ∷ set_claim k v cs

unfoldable pub get_claim : String → Claims → Option Claim
get_claim k [] = none
get_claim k ((j, w) ∷ cs) = if j == k then some w else get_claim k cs

-- `if test { token.Set(…) }`
abbrev pub set_if : Bool → String → Claim → Claims → Claims
set_if b k v cs = if b then set_claim k v cs else cs

-- `if s != "" { token.Set(k, s) }`
abbrev pub set_text : String → String → Claims → Claims
set_text k s cs = if s == "" then cs else set_claim k (text s) cs

-- `for k, v := range req.CustomClaims`
unfoldable pub set_all : Claims → Claims → Claims
set_all [] cs = cs
set_all ((k, v) ∷ more) cs = set_all more (set_claim k v cs)

-- The strings of the typed constants, as they stand in the token.
abbrev pub type_text : IdentityType → String
type_text IdentityType.agent = "agent"
type_text IdentityType.application = "application"
type_text IdentityType.mcp_server = "mcp_server"
type_text IdentityType.service = "service"
type_text IdentityType.unset = ""
type_text (IdentityType.other s) = s

abbrev pub sub_type_text : SubType → String
sub_type_text SubType.orchestrator = "orchestrator"
sub_type_text SubType.autonomous = "autonomous"
sub_type_text SubType.tool_agent = "tool_agent"
sub_type_text SubType.human_proxy = "human_proxy"
sub_type_text SubType.evaluator = "evaluator"
sub_type_text SubType.chatbot = "chatbot"
sub_type_text SubType.assistant = "assistant"
sub_type_text SubType.api_service = "api_service"
sub_type_text SubType.custom = "custom"
sub_type_text SubType.code_agent = "code_agent"
sub_type_text SubType.llm_provider = "llm_provider"
sub_type_text SubType.unset = ""
sub_type_text (SubType.other s) = s

abbrev pub trust_text : TrustLevel → String
trust_text TrustLevel.first_party = "first_party"
trust_text TrustLevel.verified_third_party = "verified_third_party"
trust_text TrustLevel.unverified = "unverified"
trust_text TrustLevel.unset = ""
trust_text (TrustLevel.other s) = s

abbrev pub status_text : IdentityStatus → String
status_text IdentityStatus.pending = "pending"
status_text IdentityStatus.active = "active"
status_text IdentityStatus.suspended = "suspended"
status_text IdentityStatus.deactivated = "deactivated"
status_text (IdentityStatus.other s) = s

-- the claims that are always set
unfoldable pub registered_claims :
    String → String → String → ℕ → ℕ → String → String → Identity → Claims
registered_claims issuer sub jti now exp mission grant i =
    ("iss", text issuer)
    ∷ ("sub", text sub)
    ∷ ("iat", time now)
    ∷ ("exp", time exp)
    ∷ ("jti", text jti)
    ∷ ("account_id", text i.account_id)
    ∷ ("project_id", text i.project_id)
    ∷ ("grant_type", text grant)
    ∷ ("mission_id", text mission)
    ∷ ("external_id", text i.external_id)
    ∷ ("identity_type", text (type_text i.identity_type))
    ∷ ("sub_type", text (sub_type_text i.sub_type))
    ∷ ("trust_level", text (trust_text i.trust_level))
    ∷ ("status", text (status_text i.status))
    ∷ []

-- the claims of the identity that are set where they are not empty
unfoldable pub identity_claims : ℤ → Identity → Claims → Claims
identity_claims depth i cs =
    set_if (not (i.capabilities == "") && not (i.capabilities == "[]")) "capabilities"
      (json i.capabilities)
      (set_text "publisher" i.publisher (
        set_text "version" i.version (
          set_text "framework" i.framework (
            set_text "name" i.name (
              set_if (lt_int (pos 0) depth) "delegation_depth" (number depth)
                (set_text "owner_user_id" i.owner_user_id cs))))))

-- audience, scopes and user claims
unfoldable pub request_claims : String → IssueRequest → Claims → Claims
request_claims issuer r cs = set_text "user_name" r.user_name (
    set_text "user_email" r.user_email (
      set_text "application_id" r.application_id (
        set_if (not (is_empty r.scopes)) "scopes" (texts r.scopes)
          (set_claim "aud" (texts (if is_empty r.audience then issuer ∷ [] else r.audience)) cs))))

-- "act" names the delegating identity, or else the user acted for; "cnf" binds the DPoP key
unfoldable pub binding_claims : IssueRequest → Claims → Claims
binding_claims r cs =
    set_if (not (r.dpop_key_thumbprint == "")) "cnf" (entry "jkt" r.dpop_key_thumbprint) (
      if not (r.delegated_by == "")
      then set_claim "act" (entry "sub" r.delegated_by) cs
      else set_if (not (r.acting_user_id == "")) "act" (entry "sub" r.acting_user_id) cs)

unfoldable pub build_claims :
    String → String → ℕ → ℕ → String → String → Identity → IssueRequest → Claims
build_claims issuer jti now exp mission grant i r = binding_claims r (
    set_all r.custom_claims (
      request_claims issuer r (
        identity_claims r.delegation_depth i (
          registered_claims issuer
            (if r.subject_override == "" then i.wimse_uri else r.subject_override) jti now exp
            mission grant i))))

-- ===== src/Policy/Defs.antt =====
-- domain/credential_policy.go, domain/attestation.go and the grant types of domain/credential.go.
-- A time is a number of nanoseconds, and a nil `*time.Time` is `none`.
use zeroid.Prelude.{
  ℕ, String, Bool, true, false, Option, none, some, List, [], ◌∷◌, leb, ◌==◌, contains,
  if◌then◌else◌,
}
use zeroid.Prelude.Int.{ℤ, pos}
use zeroid.Identity.Class.{TrustLevel}

-- `AttestationLevel`: `unset` is "", `other` any string that no constant names
pub data AttestationLevel : Type 0 where
  software platform hardware unset : AttestationLevel
  other : String → AttestationLevel

-- `AttestationLevel.Valid`
unfoldable pub valid_attestation : AttestationLevel → Bool
valid_attestation software = true
valid_attestation platform = true
valid_attestation hardware = true
valid_attestation _ = false

-- `attestationLevelRank`
abbrev pub attestation_level_rank : AttestationLevel → ℤ
attestation_level_rank software = pos 1
attestation_level_rank platform = pos 2
attestation_level_rank hardware = pos 3
attestation_level_rank _ = pos 0

-- `CredentialPolicy`
pub record CredentialPolicy : Type 0 where
  pub id : String
  pub account_id : String
  pub project_id : String
  pub name : String
  pub description : String
  pub max_ttl_seconds : ℤ
  pub allowed_grant_types : List String
  pub allowed_scopes : List String
  pub required_trust_level : TrustLevel
  pub required_attestation : AttestationLevel
  pub max_delegation_depth : ℤ
  pub is_active : Bool
  pub expires_at : Option ℕ
  pub created_at : ℕ
  pub updated_at : ℕ

-- `!time.Now().Before(*expires_at)`, and false for nil: `IsExpired` of a policy and of an identity
abbrev pub is_expired : ℕ → Option ℕ → Bool
is_expired now none = false
is_expired now (some t) = leb t now

-- `NormalizeGrantType`: the map `urnToShortGrantType`
unfoldable pub normalize_grant_type : String → String
normalize_grant_type gt =
    if gt == "urn:ietf:params:oauth:grant-type:jwt-bearer"
    then "jwt_bearer"
    else if gt == "urn:ietf:params:oauth:grant-type:token-exchange"
    then "token_exchange"
    else gt

-- the keys of `allValidGrantTypes`
abbrev pub all_valid_grant_types : List String
all_valid_grant_types =
    "client_credentials" ∷ "jwt_bearer" ∷ "token_exchange" ∷ "api_key" ∷ "authorization_code"
    ∷ "refresh_token" ∷ "urn:openid:params:grant-type:ciba" ∷ []

-- `IsValidGrantType`
unfoldable pub is_valid_grant_type : String → Bool
is_valid_grant_type gt = contains all_valid_grant_types (normalize_grant_type gt)

-- `DefaultAllowedGrantTypes`
abbrev pub default_allowed_grant_types : List String
default_allowed_grant_types =
    "client_credentials" ∷ "api_key" ∷ "jwt_bearer" ∷ "token_exchange" ∷ []

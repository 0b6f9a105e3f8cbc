-- ===== src/Policy/Admin.antt =====
-- `CreatePolicy` and `UpdatePolicy` of internal/service/credential_policy.go. `time.Parse` is the parameter
-- `parse_time`; a nil pointer or slice in an update is `none`.
pub mod Stored
use zeroid.Prelude.{
  ℕ, String, Bool, true, false, Option, none, some, List, [], ◌∷◌, ◌==◌, ◌&&◌, ◌||◌, not, all, map,
  is_empty, ltb, if◌then◌else◌,
}
use zeroid.Prelude.Int.{ℤ, pos, lt_int}
use zeroid.Prelude.Result.{Result, ok, err, ◌>>=◌, ◌>>◌, require, or_fail}
use zeroid.Prelude.Table.{find, any, update_where}
use zeroid.Identity.Class.{TrustLevel, trust_level_rank}
use zeroid.Policy.Defs.{
  AttestationLevel, valid_attestation, CredentialPolicy, normalize_grant_type, is_valid_grant_type,
}

pub data PolicyError : Type 0 where
  name_required invalid_grant_type invalid_trust_level invalid_attestation : PolicyError
  name_conflict store_failed not_found ttl_not_positive invalid_expires_at : PolicyError

-- `CreatePolicyRequest`
pub record CreatePolicyRequest : Type 0 where
  pub account_id : String
  pub project_id : String
  pub name : String
  pub description : String
  pub max_ttl_seconds : ℤ
  pub allowed_grant_types : List String
  pub allowed_scopes : List String
  pub required_trust_level : TrustLevel
  pub required_attestation : AttestationLevel
  pub max_delegation_depth : ℤ
  pub expires_at : Option ℕ

-- `UpdatePolicyRequest`
pub record UpdatePolicyRequest : Type 0 where
  pub name : String
  pub description : Option String
  pub max_ttl_seconds : Option ℤ
  pub allowed_grant_types : Option (List String)
  pub allowed_scopes : Option (List String)
  pub required_trust_level : Option TrustLevel
  pub required_attestation : Option AttestationLevel
  pub max_delegation_depth : Option ℤ
  pub is_active : Option Bool
  pub expires_at : Option String

-- `level == "" || TrustLevelRank(level) >= 0`
unfoldable pub trust_allowed : TrustLevel → Bool
trust_allowed TrustLevel.unset = true
trust_allowed level = not (lt_int (trust_level_rank level) (pos 0))

-- `level == "" || level.Valid()`
unfoldable pub attestation_allowed : AttestationLevel → Bool
attestation_allowed AttestationLevel.unset = true
attestation_allowed level = valid_attestation level

-- `normalizeGrantTypes`
abbrev pub normalize_grant_types : List String → List String
normalize_grant_types gts = map normalize_grant_type gts

-- the grant types that `CreatePolicy` stores
unfoldable pub create_grants : List String → List String
create_grants gts = normalize_grant_types (if is_empty gts then "client_credentials" ∷ [] else gts)

abbrev pub clashes : CredentialPolicy → CredentialPolicy → Bool
clashes p q =
    q.id == p.id
    || (q.account_id == p.account_id && (q.project_id == p.project_id && q.name == p.name))

-- the repository's insert: the id, and the name within a tenant, are unique
unfoldable pub insert_policy :
    Bool → CredentialPolicy → List CredentialPolicy → Result PolicyError (List CredentialPolicy)
insert_policy stored p rows = do
  require stored store_failed
  require (not (any (clashes p) rows)) name_conflict
  ok (p ∷ rows)

-- the row that `CreatePolicy` stores
unfoldable pub new_policy : String → ℕ → CreatePolicyRequest → CredentialPolicy
new_policy id now r = record {
  id = id;
  account_id = r.account_id;
  project_id = r.project_id;
  name = r.name;
  description = r.description;
  max_ttl_seconds = if lt_int (pos 0) r.max_ttl_seconds then r.max_ttl_seconds else pos 3600;
  allowed_grant_types = create_grants r.allowed_grant_types;
  allowed_scopes = r.allowed_scopes;
  required_trust_level = r.required_trust_level;
  required_attestation = r.required_attestation;
  max_delegation_depth = r.max_delegation_depth;
  is_active = true;
  expires_at = r.expires_at;
  created_at = now;
  updated_at = now;
}

-- `CreatePolicy`
unfoldable pub create_policy :
    String
    → ℕ
    → Bool
    → CreatePolicyRequest
    → List CredentialPolicy
    → Result PolicyError (CredentialPolicy × List CredentialPolicy)
create_policy id now stored r rows = do
  require (not (r.name == "")) name_required
  require (all is_valid_grant_type (create_grants r.allowed_grant_types)) invalid_grant_type
  require (trust_allowed r.required_trust_level) invalid_trust_level
  require (attestation_allowed r.required_attestation) invalid_attestation
  rows' ← insert_policy stored (new_policy id now r) rows
  ok (new_policy id now r, rows')

abbrev pub or_else : {A : Type 0} → Option A → A → A
or_else none a = a
or_else (some b) a = b

-- a patch that must pass a test where it is given
abbrev pub allowed : {A : Type 0} → (A → Bool) → Option A → Bool
allowed test none = true
allowed test (some a) = test a

-- `parseExpiresAtPatch` on a value that is given; `none` is an error
unfoldable pub parse_expires_at_patch : (String → Option ℕ) → ℕ → String → Option (Option ℕ)
parse_expires_at_patch parse_time now text =
    if text == ""
    then some none
    else elim (parse_time text) [ none ↦ none | some t ↦ if ltb now t then some (some t) else none ]

unfoldable pub patch_expires_at :
    (String → Option ℕ) → ℕ → Option String → Option ℕ → Result PolicyError (Option ℕ)
patch_expires_at parse_time now none current = ok current
patch_expires_at parse_time now (some text) current =
    or_fail (parse_expires_at_patch parse_time now text) invalid_expires_at

-- the fields that `UpdatePolicy` sets on the row it has read
unfoldable pub apply_patch :
    ℕ → UpdatePolicyRequest → Option ℕ → CredentialPolicy → CredentialPolicy
apply_patch now r expires_at p = record p {
  name = if r.name == "" then p.name else r.name;
  description = or_else r.description p.description;
  max_ttl_seconds = or_else r.max_ttl_seconds p.max_ttl_seconds;
  allowed_grant_types = elim r.allowed_grant_types [
    | none ↦ p.allowed_grant_types
    | some gts ↦ normalize_grant_types gts
  ];
  allowed_scopes = or_else r.allowed_scopes p.allowed_scopes;
  required_trust_level = or_else r.required_trust_level p.required_trust_level;
  required_attestation = or_else r.required_attestation p.required_attestation;
  max_delegation_depth = or_else r.max_delegation_depth p.max_delegation_depth;
  is_active = or_else r.is_active p.is_active;
  expires_at = expires_at;
  updated_at = now;
}

-- the checks of `UpdatePolicy`, and the row that it writes
unfoldable pub patch_policy :
    (String → Option ℕ)
    → ℕ
    → ℕ
    → UpdatePolicyRequest
    → CredentialPolicy
    → Result PolicyError CredentialPolicy
patch_policy parse_time parsed_at now r p = do
  require (allowed (lt_int (pos 0)) r.max_ttl_seconds) ttl_not_positive
  require
      (allowed (λ gts. all is_valid_grant_type (normalize_grant_types gts)) r.allowed_grant_types)
      invalid_grant_type
  require (allowed trust_allowed r.required_trust_level) invalid_trust_level
  require (allowed attestation_allowed r.required_attestation) invalid_attestation
  expires_at ← patch_expires_at parse_time parsed_at r.expires_at p.expires_at
  ok (apply_patch now r expires_at p)

-- another policy of the tenant has the name
abbrev pub name_clashes : CredentialPolicy → CredentialPolicy → Bool
name_clashes q o =
    not (o.id == q.id)
    && (o.account_id == q.account_id && (o.project_id == q.project_id && o.name == q.name))

abbrev pub in_tenant : String → String → String → CredentialPolicy → Bool
in_tenant id account project p = p.id == id && (p.account_id == account && p.project_id == project)

-- `UpdatePolicy`; a name that another policy of the tenant has fails the update
unfoldable pub update_policy :
    (String → Option ℕ)
    → ℕ
    → ℕ
    → Bool
    → String
    → String
    → String
    → UpdatePolicyRequest
    → List CredentialPolicy
    → Result PolicyError (CredentialPolicy × List CredentialPolicy)
update_policy parse_time parsed_at now stored id account project r rows = do
  p ← or_fail (find (in_tenant id account project) rows) not_found
  q ← patch_policy parse_time parsed_at now r p
  require (stored && not (any (name_clashes q) rows)) store_failed
  ok (q, update_where (in_tenant id account project) (λ old. q) rows)

-- ===== src/Policy/Default.antt =====
-- `EnsureDefaultPolicy` of internal/service/credential_policy.go, with `GetDefaultByTenant` of
-- internal/store/postgres/credential_policy.go and the defaults of domain/credential_policy.go.
use zeroid.Prelude.{ℕ, String, Bool, Option, none, some, List, [], ◌==◌, ◌&&◌, if◌then◌else◌}
use zeroid.Prelude.Int.{pos}
use zeroid.Prelude.Result.{Result, ok, err}
use zeroid.Prelude.Table.{find}
use zeroid.Identity.Class.{TrustLevel}
use zeroid.Policy.Defs.{AttestationLevel, CredentialPolicy, default_allowed_grant_types}
use zeroid.Policy.Admin.{PolicyError, name_conflict, CreatePolicyRequest, create_policy}

unfoldable pub is_default : String → String → CredentialPolicy → Bool
is_default account project p =
    (p.account_id == account && (p.project_id == project && p.name == "default")) && p.is_active

-- `GetDefaultByTenant`; a failing query is nil as well
unfoldable pub get_default_by_tenant :
    Bool → String → String → List CredentialPolicy → Option CredentialPolicy
get_default_by_tenant runs account project rows =
    if runs then find (is_default account project) rows else none

unfoldable pub default_policy_request : String → String → CreatePolicyRequest
default_policy_request account project = record {
  account_id = account;
  project_id = project;
  name = "default";
  description =
      "System default credential policy — applied to agents when no explicit policy is specified";
  max_ttl_seconds = pos 3600;
  allowed_grant_types = default_allowed_grant_types;
  allowed_scopes = [];
  required_trust_level = TrustLevel.unset;
  required_attestation = AttestationLevel.unset;
  max_delegation_depth = pos 5;
  expires_at = none;
}

abbrev pub Ensured : Type 0
Ensured = Result PolicyError (CredentialPolicy × List CredentialPolicy)

-- the second look-up, after another request has created the policy
unfoldable pub retry_default : Option CredentialPolicy → List CredentialPolicy → Ensured
retry_default none rows = err name_conflict
retry_default (some p) rows = ok (p, rows)

unfoldable pub after_create : Bool → String → String → List CredentialPolicy → Ensured → Ensured
after_create reread account project rows (ok made) = ok made
after_create reread account project rows (err name_conflict) =
    retry_default (get_default_by_tenant reread account project rows) rows
after_create reread account project rows (err e) = err e

unfoldable pub create_if_missing :
    String
    → ℕ
    → Bool
    → Bool
    → String
    → String
    → List CredentialPolicy
    → Option CredentialPolicy
    → Ensured
create_if_missing id now stored reread account project rows (some p) = ok (p, rows)
create_if_missing id now stored reread account project rows none =
    after_create reread account project rows
      (create_policy id now stored (default_policy_request account project) rows)

-- `EnsureDefaultPolicy`
unfoldable pub ensure_default_policy :
    Bool → String → ℕ → Bool → Bool → String → String → List CredentialPolicy → Ensured
ensure_default_policy read id now stored reread account project rows =
    create_if_missing id now stored reread account project rows
      (get_default_by_tenant read account project rows)

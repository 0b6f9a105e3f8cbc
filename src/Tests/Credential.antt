-- ===== src/Tests/Credential.antt =====
-- Credentials: one issuance with a DPoP key, under an identity policy and a clamp by the identity's expiry.
use zeroid.Prelude.{
  ℕ, ◌<◌, ◌≡◌, ◌≢◌, refl, String, true, false, ◌||◌, none, some, List, [], ◌∷◌, ◌==◌, Memᴰ, Subset,
}
use zeroid.Prelude.Int.{pos, lt_int, ◌≤ℤ◌}
use zeroid.Prelude.Result.{ok}
use zeroid.Prelude.Table.{find, any}
use zeroid.Identity.Status.{IdentityStatus, active, is_usable}
use zeroid.Identity.Class.{IdentityType, SubType, TrustLevel}
use zeroid.Identity.Model.{Identity}
use zeroid.Policy.Defs.{AttestationLevel, CredentialPolicy, normalize_grant_type}
use zeroid.Policy.Enforce.{scopes_permitted, trust_met, attestation_met, enforce, enforce_policy}
use zeroid.Credential.Defs.{
  IssuedCredential, Claim, text, entry, IssueRequest, CredentialService, Call, add_seconds,
  highest_verified_level,
}
use zeroid.Credential.Claims.{get_claim, build_claims}
use zeroid.Credential.Issue.{
  check_identity, effective_ttl, remaining_seconds, clamp_ttl, get_policy, violation_error,
  enforce_layer, enforce_request, enforce_policies, credential_row, join_scopes, access_token,
  insert_credential, Issued, mint, issue_credential,
}
use zeroid.Credential.Grant.Stages.{grant_of}
use zeroid.Credential.Grant.Authority.{Layers, issue-authority}
use zeroid.Credential.Grant.Bounds.{Within, issue-bounds}
use zeroid.Credential.Grant.Token.{Agrees, registered, issue-Agrees, issue-bound}

abbrev pub bot : Identity
bot = record {
  id = "id-1";
  account_id = "acct";
  project_id = "proj";
  external_id = "bot";
  name = "bot";
  wimse_uri = "spiffe://d/acct/proj/agent/bot";
  identity_type = IdentityType.agent;
  sub_type = SubType.tool_agent;
  trust_level = TrustLevel.first_party;
  status = IdentityStatus.active;
  owner_user_id = "owner";
  credential_policy_id = "pol";
  allowed_scopes = "read" ∷ "write" ∷ [];
  public_key_pem = "";
  framework = "";
  version = "";
  publisher = "";
  description = "";
  capabilities = "[]";
  labels = "{}";
  metadata = "{}";
  capability_tier = "";
  risk_tier = "";
  ial = "";
  expires_at = some 500000000000;
  created_by = "";
  modified_by = "";
  created_at = 0;
  updated_at = 0;
}

abbrev policy : CredentialPolicy
policy = record {
  id = "pol";
  account_id = "acct";
  project_id = "proj";
  name = "default";
  description = "";
  max_ttl_seconds = pos 3600;
  allowed_grant_types = "client_credentials" ∷ [];
  allowed_scopes = "read" ∷ [];
  required_trust_level = TrustLevel.verified_third_party;
  required_attestation = AttestationLevel.unset;
  max_delegation_depth = pos 1;
  is_active = true;
  expires_at = none;
  created_at = 0;
  updated_at = 0;
}

abbrev pub service : CredentialService
service = record {
  issuer = "https://issuer";
  default_ttl = pos 900;
  max_ttl = pos 7200;
  has_rsa_keys = true;
  sign = λ rs256 claims. some "signed";
  policies = some (policy ∷ []);
  attestations = none;
}

abbrev request : IssueRequest
request = record {
  identity = some bot;
  identity_policy_id = "pol";
  credential_policy_id = "";
  scopes = "read" ∷ [];
  ttl = pos 1000;
  grant_type = "";
  audience = [];
  delegated_by = "";
  parent_jti = "";
  delegation_depth = pos 0;
  use_rs256 = false;
  application_id = "";
  subject_override = "";
  acting_user_id = "";
  user_email = "";
  user_name = "";
  custom_claims = ("team", text "red") ∷ ("cnf", text "forged") ∷ [];
  credential_expires_at = none;
  mission_id = "";
  dpop_key_thumbprint = "key";
}

-- the clock reads 100 s, then 101 s at the issuance
abbrev pub call : Call
call = record {
  checked_at = 100000000000;
  clamped_at = 100000000000;
  enforced_at = 100000000000;
  key_enforced_at = 100000000000;
  issued_at = 101000000000;
  credential_id = "cred-1";
  jti = "jti-1";
  stored = true;
}

abbrev issued : Issued
issued =
    let row = credential_row call bot request (pos 400) "client_credentials" in
    record {
      token = access_token call request (pos 400) "signed";
      credential = row;
      claims =
          build_claims "https://issuer" "jti-1" 101000000000 501000000000 "jti-1"
            "client_credentials" bot request;
      rows = row ∷ [];
    }

run : issue_credential service call [] request ≡ ok issued
unfolding issue_credential check_identity is_usable effective_ttl clamp_ttl remaining_seconds
    scopes_permitted enforce_policies enforce_layer enforce_request get_policy violation_error
    enforce_policy enforce trust_met attestation_met normalize_grant_type highest_verified_level
    find any mint insert_credential credential_row access_token join_scopes build_claims
run = refl

issue-bound_example :
    (get_claim "cnf" issued.claims ≡ some (entry "jkt" "key"))
    × (issued.credential.dpop_key_thumbprint ≡ "key")
    × (issued.token.token_type ≡ "DPoP")
issue-bound_example = issue-bound service call [] request issued run (λ e. cc e)

free :
    (k : String)
    → Memᴰ k registered
    → any (λ (c : String × Claim). c.0 == k) request.custom_claims ≡ false
unfolding any
free k (Memᴰ.head e) = rw e refl
free k (Memᴰ.tail (Memᴰ.head e)) = rw e refl
free k (Memᴰ.tail (Memᴰ.tail (Memᴰ.head e))) = rw e refl
free k (Memᴰ.tail (Memᴰ.tail (Memᴰ.tail (Memᴰ.head e)))) = rw e refl
free k (Memᴰ.tail (Memᴰ.tail (Memᴰ.tail (Memᴰ.tail (Memᴰ.head e))))) = rw e refl
free k (Memᴰ.tail (Memᴰ.tail (Memᴰ.tail (Memᴰ.tail (Memᴰ.tail (Memᴰ.head e)))))) = rw e refl
free k (Memᴰ.tail (Memᴰ.tail (Memᴰ.tail (Memᴰ.tail (Memᴰ.tail (Memᴰ.tail (Memᴰ.head e))))))) =
    rw e refl
free k
      (Memᴰ.tail
        (Memᴰ.tail (Memᴰ.tail (Memᴰ.tail (Memᴰ.tail (Memᴰ.tail (Memᴰ.tail (Memᴰ.head e)))))))) =
    rw e refl
free k
      (Memᴰ.tail (
        Memᴰ.tail
          (Memᴰ.tail (Memᴰ.tail (Memᴰ.tail (Memᴰ.tail (Memᴰ.tail (Memᴰ.tail (Memᴰ.head e))))))))) =
    rw e refl
free k
      (Memᴰ.tail (
        Memᴰ.tail
          (Memᴰ.tail (Memᴰ.tail (Memᴰ.tail (Memᴰ.tail (Memᴰ.tail (Memᴰ.tail (Memᴰ.tail m))))))))) =
    elim m [ ]

issue-Agrees_example :
    (i : Identity) × (some bot ≡ some i)
    × (Agrees "https://issuer" i.wimse_uri issued.credential issued.claims)
    × (some "signed" ≡ some issued.token.access_token)
    × (issued.rows ≡ (issued.credential ∷ []))
    × (any
          (λ (d : IssuedCredential). d.id == issued.credential.id || d.jti == issued.credential.jti)
          []
        ≡ false)
issue-Agrees_example = issue-Agrees service call [] request issued run free

issue-bounds_example :
    (i : Identity) × (some bot ≡ some i)
    × (issued.credential.ttl_seconds ≤ℤ pos 7200)
    × (lt_int (pos 0) (pos 1000) ≡ true → issued.credential.ttl_seconds ≤ℤ pos 1000)
    × Within call i.expires_at issued
    × Within call none issued
    × (issued.credential.expires_at ≡ add_seconds 101000000000 issued.credential.ttl_seconds)
    × (issued.token.expires_in ≡ issued.credential.ttl_seconds)
issue-bounds_example = issue-bounds service call [] request issued run

issue-authority_example :
    (i : Identity) × (some bot ≡ some i)
    × (i.status ≡ active)
    × ((t : ℕ) → i.expires_at ≡ some t → 100000000000 < t)
    × (i.allowed_scopes ≢ [] → Subset ("read" ∷ []) i.allowed_scopes)
    × ((policies : List CredentialPolicy)
        → some (policy ∷ []) ≡ some policies
        → Layers call policies i request
            (enforce_request service i request issued.credential.ttl_seconds (grant_of request)))
issue-authority_example = issue-authority service call [] request issued run

-- ===== src/Tests/Keys.antt =====
-- The grant of an API key: a key for "read" that is asked for "write".
use zeroid.Prelude.{none, some, [], ◌∷◌}
use zeroid.Prelude.Int.{pos}
use zeroid.Identity.Model.{Identity}
use zeroid.Policy.Defs.{CredentialPolicy}
use zeroid.Credential.Defs.{IssuedCredential, IssueRequest, AccessToken}
use zeroid.Credential.Issue.{credential_row, access_token}
use zeroid.OAuth.Defs.{TokenRequest, World, OAuthService, ApiKey}
use zeroid.OAuth.External.{with_tenant}
use zeroid.OAuth.Key.{key_request}
use zeroid.Tests.Credential.{call}
use zeroid.Tests.OAuth.{oauth, request, world, root, agent, exchange_policy}

abbrev read_key : ApiKey
read_key = record {
  id = "key-1";
  key_hash = "h:secret";
  account_id = "acct";
  project_id = "proj";
  identity_id = agent.id;
  created_by = "user";
  scopes = "read" ∷ [];
  expires_at = none;
  state = "active";
  credential_policy_id = "";
}

abbrev holder : Identity
holder = record agent { allowed_scopes = []; credential_policy_id = "pol" }

abbrev api_key_policy : CredentialPolicy
api_key_policy = record exchange_policy {
  allowed_grant_types = "api_key" ∷ [];
  allowed_scopes = "read" ∷ "write" ∷ [];
}

abbrev served : OAuthService
served = record oauth { api_keys = read_key ∷ []; identities = holder ∷ [] }

abbrev before : World
before = record world { policies = some (api_key_policy ∷ []) }

abbrev for_write : TokenRequest
for_write = record request { grant_type = "api_key"; api_key = "secret"; scope = "write" }

abbrev asked : IssueRequest
asked = key_request for_write read_key holder "pol" ("read" ∷ "write" ∷ [])

abbrev made : IssuedCredential
made = credential_row call holder asked (pos 900) "api_key"

abbrev key_token : AccessToken
key_token = record (with_tenant "acct" "proj" "user" (access_token call asked (pos 900) "signed")) {
  external_id = holder.external_id;
}

abbrev after : World
after = record before { credentials = made ∷ root ∷ [] }

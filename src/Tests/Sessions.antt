-- ===== src/Tests/Sessions.antt =====
-- The grants of sessions, and the revocation of tokens, on the data of the grants' tests.
use zeroid.Prelude.{List, Memᴰ, arith, eq_iff, ◌≡◌, ◌≢◌, refl, some, [], ◌∷◌}
use zeroid.Prelude.Int.{pos}
use zeroid.Prelude.Result.{ok, err}
use zeroid.Prelude.Table.{find, any, update_where}
use zeroid.Identity.Status.{is_usable}
use zeroid.Identity.Class.{IdentityType}
use zeroid.Policy.Enforce.{scopes_permitted}
use zeroid.Credential.Defs.{IssuedCredential, IssueRequest, AccessToken}
use zeroid.Credential.Claims.{build_claims}
use zeroid.Credential.Issue.{
  check_identity, effective_ttl, clamp_ttl, enforce_request, enforce_policies, credential_row,
  join_scopes, access_token, insert_credential, mint, issue_credential,
}
use zeroid.Refresh.Defs.{
  generate_refresh_token, refresh_expiry, is_active, RefreshTokenState, RefreshToken,
  RefreshTokenResult,
}
use zeroid.Refresh.Store.{create, set_revoked, claimable, claim_by_token_hash}
use zeroid.Refresh.Rotate.{rotate_refresh_token, rotate_in_tx, after_tx, binding_ok, successor}
use zeroid.OAuth.Defs.{AuthCode, AuthCodeClaims, World, invalid_grant}
use zeroid.OAuth.Step.{◌>>=◌}
use zeroid.OAuth.Lookup.{
  public_by_client_id, only_active, get_public_client, client_by_client_id, issued, with_policies,
  issue,
}
use zeroid.OAuth.External.{synthetic_identity, with_tenant}
use zeroid.OAuth.AuthCode.{
  code_jti, code_claims, decode_parsed, decode_auth_code_jwt, verify_code_challenge,
  normalize_loopback, has_jti, consume, set_token_info, update_token_info,
}
use zeroid.OAuth.CodeGrant.{
  or_default_ttl, code_row, after_consume, consume_code, carrier_identity, session_request,
  code_ttl, add_refresh, record_tokens, exchange_code, authorization_code,
}
use zeroid.OAuth.RefreshGrant.{
  client_ttls, rotation_error, rotation_result, rotate, refresh_session, refresh_grant,
}
use zeroid.OAuth.SingleUse.{now, code-single_use}
use zeroid.OAuth.CodeIssued.{Exchanged}
use zeroid.OAuth.CodeExchange.{authorization_code-Exchanged}
use zeroid.OAuth.Renewal.{Rotatable, Stranded, refresh-mismatch}
use zeroid.Tests.Credential.{call}
use zeroid.Tests.Refresh.{bound, single}
use zeroid.Tests.OAuth.{oauth, grant_call, request, world, root}

abbrev code : AuthCodeClaims
code = record {
  jti = "code-1";
  expires_at = 1;
  client_id = "cli";
  code_challenge = "v";
  redirect_uri = "app";
  scopes = "read" ∷ [];
  user_id = "user";
  org_id = "";
  account_id = "acct";
  project_id = "proj";
}

abbrev session : IssueRequest
session =
    session_request "authorization_code" request
      (synthetic_identity IdentityType.unset "acct" "proj", "") "user" "cli" (pos 600) ("read" ∷ [])

abbrev session_row : IssuedCredential
session_row =
    credential_row call (synthetic_identity IdentityType.unset "acct" "proj") session (pos 600)
      "authorization_code"

abbrev session_token : AccessToken
session_token = with_tenant "acct" "proj" "user" (access_token call session (pos 600) "signed")

abbrev used_code : AuthCode
used_code = set_token_info "jti-1" "" (code_row code)

abbrev exchanged : World
exchanged = record world { credentials = session_row ∷ root ∷ []; auth_codes = used_code ∷ [] }

code_run : authorization_code oauth grant_call request world ≡ (ok session_token, exchanged)
unfolding authorization_code ◌>>=◌ decode_auth_code_jwt decode_parsed code_claims code_jti
    get_public_client public_by_client_id only_active normalize_loopback verify_code_challenge
    consume_code after_consume consume code_row exchange_code carrier_identity session_request
    code_ttl or_default_ttl add_refresh record_tokens update_token_info set_token_info has_jti
    update_where find any issue issued with_policies issue_credential check_identity is_usable
    effective_ttl clamp_ttl scopes_permitted enforce_policies enforce_request mint insert_credential
    credential_row access_token join_scopes build_claims synthetic_identity with_tenant
code_run = refl

decoded : decode_auth_code_jwt oauth "h.code" ≡ some code
unfolding decode_auth_code_jwt decode_parsed code_claims code_jti
decoded = refl

authorization_code-Exchanged_example : Exchanged oauth request world exchanged session_token
authorization_code-Exchanged_example =
    authorization_code-Exchanged oauth grant_call request world code_run

code-single_use_example :
    authorization_code oauth grant_call request exchanged ≢ (ok session_token, exchanged)
code-single_use_example =
    code-single_use oauth grant_call request world code_run now oauth grant_call request
      session_token exchanged code code decoded decoded refl

abbrev foreign : RefreshToken
foreign = record bound { client_id = "other"; dpop_key_thumbprint = "" }

abbrev claimed : RefreshToken
claimed = record foreign { state = RefreshTokenState.revoked; revoked_at = some 20 }

abbrev next : RefreshToken
next = record foreign { token_hash = "h:zid_rt_b"; expires_at = 7776000000000010 }

abbrev renewed : RefreshTokenResult
renewed = record { raw_token = "zid_rt_b"; family_id = "fam"; expires_at = 7776000000000010 }

rotatable : Rotatable oauth grant_call request world.refresh_tokens foreign "zid_rt_b"
unfolding binding_ok generate_refresh_token any
rotatable = record {
  unique = single foreign;
  stored = Memᴰ.head refl;
  named = refl;
  alive = refl;
  current = omega arith;
  bound = refl;
  made = refl;
  fresh = refl;
  runs = refl;
  takes = refl;
  commits = refl;
}

refresh-mismatch_example :
    (rows : List RefreshToken) × (refresh_grant oauth grant_call request world
      ≡ (err invalid_grant, record world { refresh_tokens = rows }))
    × Stranded oauth grant_call foreign "zid_rt_b" rows
refresh-mismatch_example =
    refresh-mismatch oauth grant_call request world foreign "zid_rt_b" refl refl rotatable
      (λ e. cc ((eq_iff "other" "cli").1 e))

left_after :
    refresh_grant oauth grant_call request world
    ≡ (err invalid_grant, record world { refresh_tokens = next ∷ claimed ∷ [] })
unfolding refresh_grant refresh_session rotate rotation_result rotation_error ◌>>=◌ client_ttls
    client_by_client_id rotate_refresh_token after_tx rotate_in_tx generate_refresh_token
    refresh_expiry claim_by_token_hash claimable find update_where set_revoked is_active binding_ok
    create any successor
left_after = refl

-- ===== src/Backchannel/Issue.antt =====
-- `issueTokenForApprovedRow` and `Redeem` of internal/service/backchannel.go. The row is read from the table
-- `seen`, the update runs on the tables `w` of a later moment: between the two statements other calls may
-- have changed them.
use zeroid.Prelude.{
  ℕ, ◌-◌, String, Bool, true, false, Option, none, some, [], ◌∷◌, ◌==◌, ◌&&◌, not, if◌then◌else◌,
  ltb,
}
use zeroid.Prelude.Int.{pos}
use zeroid.Prelude.Result.{Result, ok, err}
use zeroid.Identity.Status.{IdentityStatus}
use zeroid.Identity.Class.{IdentityType, SubType, TrustLevel}
use zeroid.Identity.Model.{Identity}
use zeroid.Credential.Defs.{
  IssueRequest, AccessToken, CredentialService, IssueError, Claims, text, json,
}
use zeroid.Credential.Issue.{Issued, issue_credential}
use zeroid.Scope.{parse_scope_string}
use zeroid.Backchannel.Defs.{
  BackchannelStatus, is_push, is_pending, BackchannelAuthRequest, Requests, World, BackchannelError,
  invalid_grant, access_denied, expired_token, slow_down, authorization_pending, server_error,
  RedeemInput, ResolveCall,
}
use zeroid.Backchannel.Store.{get_by_auth_req_id, mark_issued, touch_poll}

-- the identity that stands for the approved user; every field that the source leaves out is empty
abbrev pub ciba_identity : BackchannelAuthRequest → Identity
ciba_identity row = record {
  id = "";
  account_id = row.account_id;
  project_id = row.project_id;
  external_id = "";
  name = "";
  wimse_uri = "";
  identity_type = IdentityType.service;
  sub_type = SubType.unset;
  trust_level = TrustLevel.unset;
  status = IdentityStatus.active;
  owner_user_id = "";
  credential_policy_id = "";
  allowed_scopes = [];
  public_key_pem = "";
  framework = "";
  version = "";
  publisher = "";
  description = "";
  capabilities = "";
  labels = "";
  metadata = "";
  capability_tier = "";
  risk_tier = "";
  ial = "";
  expires_at = none;
  created_by = "";
  modified_by = "";
  created_at = 0;
  updated_at = 0;
}

abbrev pub ciba_claims : BackchannelAuthRequest → Claims
ciba_claims row =
    ("token_exchange", text "ciba")
    ∷ ("backchannel_client_id", text row.client_id)
    ∷ ("authorization_details", json row.authorization_details)
    ∷ (if row.binding_message == "" then [] else ("binding_message", text row.binding_message) ∷ [])

unfoldable pub ciba_request : BackchannelAuthRequest → String → IssueRequest
ciba_request row thumbprint = record {
  identity = some (ciba_identity row);
  identity_policy_id = "";
  credential_policy_id = "";
  scopes = parse_scope_string row.scope;
  ttl = pos 900;
  grant_type = "urn:openid:params:grant-type:ciba";
  audience = [];
  delegated_by = "";
  parent_jti = "";
  delegation_depth = pos 0;
  use_rs256 = true;
  application_id = "";
  subject_override = row.approved_subject_id;
  acting_user_id = "";
  user_email = row.approved_subject_email;
  user_name = row.approved_subject_name;
  custom_claims = ciba_claims row;
  credential_expires_at = none;
  mission_id = "";
  dpop_key_thumbprint = thumbprint;
}

abbrev pub Redeemed : Type 0
Redeemed = Result BackchannelError AccessToken × World

-- what follows the claim: the outcome of `IssueCredential`
unfoldable pub deliver : BackchannelAuthRequest → World → Result IssueError Issued → Redeemed
deliver row w (ok out) = (
  ok (record out.token {
    account_id = row.account_id;
    project_id = row.project_id;
    authorization_details = row.authorization_details;
  }),
  record w { credentials = out.rows },
)
deliver row w (err e) = (err server_error, w)

-- `issueTokenForApprovedRow`: the claim comes first
unfoldable pub issue_token_for_approved_row :
    CredentialService → ResolveCall → BackchannelAuthRequest → String → World → Redeemed
issue_token_for_approved_row s call row thumbprint w =
    let (affected, requests) = mark_issued row.auth_req_id w.requests in
    if not call.marks
    then (err server_error, w)
    else if ltb 0 affected
    then deliver row (record w { requests = requests })
        (issue_credential s call.issue w.credentials (ciba_request row thumbprint))
    else (err access_denied, w)

-- `row.LastPolledAt != nil && now.Sub(*row.LastPolledAt) < s.cfg.MinPollInterval`
unfoldable pub too_fast : ℕ → ℕ → Option ℕ → Bool
too_fast min_poll_interval now none = false
too_fast min_poll_interval now (some at) = ltb (now - at) min_poll_interval

-- the switch of `Redeem` on the status
unfoldable pub redeem_status :
    CredentialService
    → ℕ
    → ResolveCall
    → RedeemInput
    → BackchannelAuthRequest
    → World
    → BackchannelStatus
    → Redeemed
redeem_status s min_poll call input row w BackchannelStatus.pending =
    if too_fast min_poll call.checked_at row.last_polled_at then (err slow_down, w) else (
      err authorization_pending,
      if call.updates
          then record w { requests = touch_poll call.checked_at input.auth_req_id w.requests }
          else w,
    )
redeem_status s min_poll call input row w BackchannelStatus.denied = (err access_denied, w)
redeem_status s min_poll call input row w BackchannelStatus.expired = (err expired_token, w)
redeem_status s min_poll call input row w BackchannelStatus.issued = (err access_denied, w)
redeem_status s min_poll call input row w BackchannelStatus.approved =
    issue_token_for_approved_row s call row input.dpop_key_thumbprint w
redeem_status s min_poll call input row w (BackchannelStatus.other t) = (err invalid_grant, w)

-- the checks of `Redeem` on the row that it has read
unfoldable pub redeem_row :
    CredentialService
    → ℕ
    → ResolveCall
    → RedeemInput
    → World
    → Option BackchannelAuthRequest
    → Redeemed
redeem_row s min_poll call input w none = (err invalid_grant, w)
redeem_row s min_poll call input w (some row) =
    if not (input.client_id == "") && not (row.client_id == input.client_id)
    then (err invalid_grant, w)
    else if is_push row.notification_mode
    then (err access_denied, w)
    else if ltb row.expires_at call.checked_at && is_pending row.status
    then (err expired_token, w)
    else redeem_status s min_poll call input row w row.status

-- `Redeem`
unfoldable pub redeem :
    CredentialService → ℕ → ResolveCall → RedeemInput → Requests → World → Redeemed
redeem s min_poll call input seen w =
    if input.auth_req_id == ""
    then (err invalid_grant, w)
    else if not call.loads
    then (err server_error, w)
    else redeem_row s min_poll call input w (get_by_auth_req_id input.auth_req_id seen)

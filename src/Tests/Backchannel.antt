-- ===== src/Tests/Backchannel.antt =====
-- CIBA: one request, approved by its tenant and redeemed once.
use zeroid.Prelude.{◌≤◌, ◌↔◌, ℕ, ◌≡◌, ◌≢◌, refl, true, none, some, [], ◌∷◌, Memᴰ, arith}
use zeroid.Prelude.Int.{pos}
use zeroid.Prelude.Result.{ok}
use zeroid.Prelude.Table.{find, any, update_where, count_where}
use zeroid.Identity.Status.{is_usable}
use zeroid.Policy.Enforce.{scopes_permitted}
use zeroid.Credential.Defs.{AccessToken}
use zeroid.Credential.Claims.{build_claims}
use zeroid.Credential.Issue.{
  check_identity, effective_ttl, clamp_ttl, enforce_policies, enforce_request, credential_row,
  access_token, insert_credential, mint, issue_credential, join_scopes,
}
use zeroid.Scope.{parse_scope_string, words, is_space}
use zeroid.Backchannel.Defs.{
  BackchannelStatus, NotificationMode, is_push, is_pending, is_approved, BackchannelAuthRequest,
  World, ApproveInput, RedeemInput, ResolveCall,
}
use zeroid.Backchannel.Notify.{Callback, Reply, Ending, deliver_callback}
use zeroid.Backchannel.Attempts.{FirstAnswer}
use zeroid.Backchannel.Retry.{deliver-attempts}
use zeroid.Backchannel.Store.{
  get_by_auth_req_id, open_at, set_approved, mark_approved, approved_as, set_issued, mark_issued,
}
use zeroid.Backchannel.Issue.{
  ciba_identity, ciba_request, deliver, issue_token_for_approved_row, redeem_status, redeem_row,
  redeem,
}
use zeroid.Backchannel.Resolve.{
  approve, approve_row, settle_update, dispatch_reloaded, dispatch_mode,
}
use zeroid.Backchannel.Statements.{start}
use zeroid.Backchannel.Claim.{UniqueId, Minted}
use zeroid.Backchannel.Stamped.{Stamped}
use zeroid.Backchannel.Guards.{Redeemable, redeem-approved, Approvable, approve-guarded}
use zeroid.Backchannel.Once.{redeem-once, redeem-once_push}
use zeroid.Backchannel.Defs.{DenyInput}
use zeroid.Tests.Credential.{service, call}

abbrev waiting : BackchannelAuthRequest
waiting = record {
  auth_req_id = "req";
  account_id = "acct";
  project_id = "proj";
  client_id = "cli";
  login_hint = "user";
  group_hint = "";
  scope = "";
  binding_message = "";
  authorization_details = "[]";
  notification_mode = NotificationMode.poll;
  client_notification_endpoint = "";
  client_notification_token = "";
  status = BackchannelStatus.pending;
  approved_subject_id = "";
  approved_subject_email = "";
  approved_subject_name = "";
  interval_seconds = pos 5;
  last_polled_at = none;
  last_notify_error = "";
  expires_at = 300000000000;
  created_at = 0;
  approved_at = none;
}

abbrev agreed : BackchannelAuthRequest
agreed = record waiting {
  status = BackchannelStatus.approved;
  approved_subject_id = "alice";
  approved_at = some 50;
}

abbrev pub answered : Callback
answered = record {
  running = true;
  marshals = true;
  max_retries = pos 3;
  attempts = λ k. record { cancelled = none; reply = Reply.http 204 };
  status_text = λ n. "refused";
  recorded = true;
}

abbrev pub at_once : ResolveCall
at_once = record {
  loads = true;
  checked_at = 60;
  updates = true;
  updated_at = 70;
  reloads = true;
  marks = true;
  callback = answered;
  mint_error = "";
  issue = call;
}

abbrev world : World
world = record { requests = agreed ∷ []; credentials = [] }

abbrev poll_input : RedeemInput
poll_input = record { auth_req_id = "req"; client_id = "cli"; dpop_key_thumbprint = "" }

abbrev token : AccessToken
token = record (access_token call (ciba_request agreed "") (pos 900) "signed") {
  account_id = "acct";
  project_id = "proj";
  authorization_details = "[]";
}

abbrev redeemed : World
redeemed = record {
  requests = record agreed { status = BackchannelStatus.issued } ∷ [];
  credentials =
      credential_row call (ciba_identity agreed) (ciba_request agreed "") (pos 900)
        "urn:openid:params:grant-type:ciba"
      ∷ [];
}

run : redeem service 2000000000 at_once poll_input world.requests world ≡ (ok token, redeemed)
unfolding redeem redeem_row redeem_status get_by_auth_req_id find is_push is_pending
    issue_token_for_approved_row mark_issued approved_as is_approved count_where update_where
    set_issued deliver issue_credential check_identity is_usable effective_ttl clamp_ttl
    scopes_permitted enforce_policies enforce_request mint insert_credential any ciba_request
    credential_row access_token parse_scope_string words is_space join_scopes build_claims
run = refl

single : (r : BackchannelAuthRequest) → UniqueId (r ∷ [])
unfolding count_where
single r = record { one = λ k. grind arith }

redeem-approved_example :
    (row : BackchannelAuthRequest) × Redeemable poll_input world.requests row
    × ((m : Minted service at_once row "" world token redeemed) × Stamped row "" world.credentials
          m.out)
redeem-approved_example =
    redeem-approved service 2000000000 at_once poll_input world.requests world run

redeem-once_example :
    redeem service 2000000000 at_once poll_input world.requests redeemed ≢ (ok token, redeemed)
redeem-once_example =
    redeem-once service 2000000000 at_once poll_input world.requests world redeemed (single agreed)
      run start at_once poll_input world.requests token redeemed refl

abbrev approval : ApproveInput
approval = record {
  auth_req_id = "req";
  account_id = "acct";
  project_id = "proj";
  subject_id = "alice";
  subject_email = "";
  subject_name = "";
}

redeem-once_push_example :
    (approve service at_once approval (waiting ∷ []) redeemed).delivered ≡ none
redeem-once_push_example =
    redeem-once_push service 2000000000 at_once poll_input world.requests world redeemed
      (single agreed) run start at_once approval (waiting ∷ []) refl

abbrev open_world : World
open_world = record { requests = waiting ∷ []; credentials = [] }

approve_run : (approve service at_once approval (waiting ∷ []) open_world).answer ≡ ok tt
unfolding approve approve_row get_by_auth_req_id find is_pending settle_update mark_approved open_at
    count_where update_where set_approved dispatch_reloaded dispatch_mode
approve_run = refl

approve-guarded_example :
    ((row : BackchannelAuthRequest) × Approvable at_once approval (waiting ∷ []) row)
    × ((row : BackchannelAuthRequest) × Memᴰ row (waiting ∷ []) × (open_at 70 "req" row ≡ true))
approve-guarded_example =
    approve-guarded service at_once approval (waiting ∷ []) open_world approve_run

abbrev denial : DenyInput
denial = record { auth_req_id = "req"; account_id = "acct"; project_id = "proj" }

deliver-attempts_example :
    ((deliver_callback answered).sent ≤ 4)
    × ((deliver_callback answered).ending ≡ Ending.accepted
        ↔ ((n : ℕ) × (n ≤ 3) × FirstAnswer answered n))
deliver-attempts_example = deliver-attempts answered

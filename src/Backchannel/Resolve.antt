-- ===== src/Backchannel/Resolve.antt =====
-- `Approve`, `Deny` and `dispatchResolution` of internal/service/backchannel.go. As in the redemption, the row
-- is read from the table `seen` and the updates run on the later tables `w`; the callback runs after the
-- approval has been stored.
use zeroid.Prelude.{
  ℕ, String, Bool, true, false, Option, none, some, ◌==◌, ◌&&◌, ◌||◌, not, if◌then◌else◌, ltb,
}
use zeroid.Prelude.Result.{Result, ok, err}
use zeroid.Credential.Defs.{AccessToken, CredentialService}
use zeroid.Backchannel.Defs.{
  NotificationMode, is_push, is_pending, BackchannelAuthRequest, Requests, World, BackchannelError,
  invalid_request, access_denied, server_error, ApproveInput, DenyInput, ResolveCall,
}
use zeroid.Backchannel.Store.{get_by_auth_req_id, mark_approved, mark_denied, set_last_notify_error}
use zeroid.Backchannel.Notify.{Callback, Ending, deliver_callback}
use zeroid.Backchannel.Issue.{Redeemed, issue_token_for_approved_row}

-- What a resolution leaves: the answer, the tables, and the token that a push callback delivers.
pub record Resolved : Type 0 where
  pub answer : Result BackchannelError (Unit {0})
  pub world : World
  pub delivered : Option AccessToken

abbrev pub refused : BackchannelError → World → Resolved
refused e w = record { answer = err e; world = w; delivered = none }

-- what the loop's ending writes: success clears the error, a failure records the last one
unfoldable pub record_ending : Callback → BackchannelAuthRequest → World → Ending → World
record_ending c row w Ending.accepted =
    if c.recorded
    then record w { requests = set_last_notify_error row.auth_req_id "" w.requests }
    else w
record_ending c row w (Ending.gave_up none) = w
record_ending c row w (Ending.gave_up (some msg)) =
    if c.recorded
    then record w { requests = set_last_notify_error row.auth_req_id msg w.requests }
    else w

-- the callback: nothing after `Stop` or for a payload that cannot be encoded
unfoldable pub callback : ResolveCall → BackchannelAuthRequest → World → World
callback call row w =
    if call.callback.running && call.callback.marshals
    then record_ending call.callback row w (deliver_callback call.callback).ending
    else w

unfoldable pub has_callback : BackchannelAuthRequest → Bool
has_callback row =
    not (row.client_notification_endpoint == "") && not (row.client_notification_token == "")

unfoldable pub push_outcome :
    ResolveCall → BackchannelAuthRequest → Redeemed → World × Option AccessToken
push_outcome call row (ok token, w) = (callback call row w, some token)
push_outcome call row (err e, w) =
    (record w { requests = set_last_notify_error row.auth_req_id call.mint_error w.requests }, none)

-- `dispatchPushApproval`: mint, then deliver
unfoldable pub dispatch_push_approval :
    CredentialService → ResolveCall → BackchannelAuthRequest → World → World × Option AccessToken
dispatch_push_approval s call row w =
    if is_push row.notification_mode && has_callback row
    then push_outcome call row (issue_token_for_approved_row s call row "" w)
    else (w, none)

-- `dispatchResolution` by mode: `approval` tells an approval from a denial
unfoldable pub dispatch_mode :
    CredentialService
    → ResolveCall
    → Bool
    → BackchannelAuthRequest
    → World
    → NotificationMode
    → World × Option AccessToken
dispatch_mode s call approval row w NotificationMode.ping =
    (if has_callback row then callback call row w else w, none)
dispatch_mode s call true row w NotificationMode.push = dispatch_push_approval s call row w
dispatch_mode s call false row w NotificationMode.push =
    (if has_callback row then callback call row w else w, none)
dispatch_mode s call approval row w NotificationMode.poll = (w, none)
dispatch_mode s call approval row w (NotificationMode.other t) = (w, none)

-- the look-up after the update, and the dispatch where it finds the row
unfoldable pub dispatch_reloaded :
    CredentialService
    → ResolveCall
    → Bool
    → World
    → Option BackchannelAuthRequest
    → World × Option AccessToken
dispatch_reloaded s call approval w none = (w, none)
dispatch_reloaded s call approval w (some row) =
    dispatch_mode s call approval row w row.notification_mode

abbrev settle : World × Option AccessToken → Resolved
settle d = record { answer = ok tt; world = d.0; delivered = d.1 }

-- the conditional update's answer, and what follows it
unfoldable pub settle_update :
    CredentialService → ResolveCall → Bool → String → World → ℕ × Requests → Resolved
settle_update s call approval id w (affected, requests) =
    if not call.updates
    then refused server_error w
    else if ltb 0 affected
    then settle (
        dispatch_reloaded s call approval (record w { requests = requests })
          (if call.reloads then get_by_auth_req_id id requests else none))
    else refused access_denied w

-- the checks of `Approve` on the row that it has read
unfoldable pub approve_row :
    CredentialService
    → ResolveCall
    → ApproveInput
    → World
    → Option BackchannelAuthRequest
    → Resolved
approve_row s call input w none = refused invalid_request w
approve_row s call input w (some row) =
    if not (row.account_id == input.account_id) || not (row.project_id == input.project_id)
    then refused invalid_request w
    else if not (is_pending row.status)
    then refused access_denied w
    else if ltb row.expires_at call.checked_at
    then refused access_denied w
    else settle_update s call true input.auth_req_id w (
        mark_approved call.updated_at input.auth_req_id input.subject_id input.subject_email
          input.subject_name w.requests)

-- `Approve`
unfoldable pub approve :
    CredentialService → ResolveCall → ApproveInput → Requests → World → Resolved
approve s call input seen w =
    if (input.auth_req_id == "" || input.account_id == "")
      || (input.project_id == "" || input.subject_id == "")
    then refused invalid_request w
    else if not call.loads
    then refused server_error w
    else approve_row s call input w (get_by_auth_req_id input.auth_req_id seen)

-- the checks of `Deny` on the row that it has read; it does not look at the expiry
unfoldable pub deny_row :
    CredentialService → ResolveCall → DenyInput → World → Option BackchannelAuthRequest → Resolved
deny_row s call input w none = refused invalid_request w
deny_row s call input w (some row) =
    if not (row.account_id == input.account_id) || not (row.project_id == input.project_id)
    then refused invalid_request w
    else if not (is_pending row.status)
    then refused access_denied w
    else settle_update s call false input.auth_req_id w
        (mark_denied call.updated_at input.auth_req_id w.requests)

-- `Deny`
unfoldable pub deny : CredentialService → ResolveCall → DenyInput → Requests → World → Resolved
deny s call input seen w =
    if input.auth_req_id == "" || (input.account_id == "" || input.project_id == "")
    then refused invalid_request w
    else if not call.loads
    then refused server_error w
    else deny_row s call input w (get_by_auth_req_id input.auth_req_id seen)

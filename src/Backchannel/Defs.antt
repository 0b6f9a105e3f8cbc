-- ===== src/Backchannel/Defs.antt =====
-- The data of domain/backchannel_auth.go and internal/service/backchannel.go. A time is a number of
-- nanoseconds, a JSON document is its text.
use zeroid.Backchannel.Notify.{Callback}
use zeroid.Prelude.{ℕ, String, Bool, true, false, Option, List}
use zeroid.Prelude.Int.{ℤ}
use zeroid.Credential.Defs.{IssuedCredential, Call}

-- `BackchannelStatus`; the column may hold another text
pub data BackchannelStatus : Type 0 where
  pending approved issued denied expired : BackchannelStatus
  other : String → BackchannelStatus

unfoldable pub is_pending : BackchannelStatus → Bool
is_pending BackchannelStatus.pending = true
is_pending _ = false

unfoldable pub is_approved : BackchannelStatus → Bool
is_approved BackchannelStatus.approved = true
is_approved _ = false

-- the statuses that `DeleteExpired` lists
unfoldable pub is_resolved : BackchannelStatus → Bool
is_resolved BackchannelStatus.expired = true
is_resolved BackchannelStatus.denied = true
is_resolved BackchannelStatus.issued = true
is_resolved _ = false

-- `BackchannelNotificationMode`
pub data NotificationMode : Type 0 where
  poll ping push : NotificationMode
  other : String → NotificationMode

unfoldable pub is_push : NotificationMode → Bool
is_push NotificationMode.push = true
is_push _ = false

-- `BackchannelAuthRequest`
pub record BackchannelAuthRequest : Type 0 where
  pub auth_req_id : String
  pub account_id : String
  pub project_id : String
  pub client_id : String
  pub login_hint : String
  pub group_hint : String
  pub scope : String
  pub binding_message : String
  pub authorization_details : String
  pub notification_mode : NotificationMode
  pub client_notification_endpoint : String
  pub client_notification_token : String
  pub status : BackchannelStatus
  pub approved_subject_id : String
  pub approved_subject_email : String
  pub approved_subject_name : String
  pub interval_seconds : ℤ
  pub last_polled_at : Option ℕ
  pub last_notify_error : String
  pub expires_at : ℕ
  pub created_at : ℕ
  pub approved_at : Option ℕ

abbrev pub Requests : Type 0
Requests = List BackchannelAuthRequest

-- The tables that the service reads and writes.
pub record World : Type 0 where
  pub requests : Requests
  pub credentials : List IssuedCredential

-- The OAuth errors of the service.
pub data BackchannelError : Type 0 where
  invalid_request invalid_grant access_denied : BackchannelError
  expired_token slow_down authorization_pending server_error : BackchannelError

-- `ApproveInput`
pub record ApproveInput : Type 0 where
  pub auth_req_id : String
  pub account_id : String
  pub project_id : String
  pub subject_id : String
  pub subject_email : String
  pub subject_name : String

-- `DenyInput`
pub record DenyInput : Type 0 where
  pub auth_req_id : String
  pub account_id : String
  pub project_id : String

-- `RedeemInput`
pub record RedeemInput : Type 0 where
  pub auth_req_id : String
  pub client_id : String
  pub dpop_key_thumbprint : String

-- What a call reads of the clock and of the database's answers: `loads`, `updates` and `reloads` say that
-- the look-up, the conditional update and the look-up after it run without an error, `marks` the same of
-- `MarkIssued`; `callback` is the delivery of the callback, and `mint_error` the text of
-- the error that a failed push approval records.
pub record ResolveCall : Type 0 where
  pub loads : Bool
  pub checked_at : ℕ
  pub updates : Bool
  pub updated_at : ℕ
  pub reloads : Bool
  pub marks : Bool
  pub callback : Callback
  pub mint_error : String
  pub issue : Call

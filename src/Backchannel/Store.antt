-- ===== src/Backchannel/Store.antt =====
-- The statements of internal/store/postgres/backchannel_request.go: each is one conditional update of the
-- table, and returns the number of rows that it affects.
use zeroid.Prelude.{
  ℕ, String, Bool, Option, none, some, ◌∷◌, ◌==◌, ◌&&◌, ◌||◌, not, if◌then◌else◌, ltb,
}
use zeroid.Prelude.Table.{find, any, update_where, delete_where, count_where}
use zeroid.Backchannel.Defs.{
  BackchannelStatus, is_pending, is_approved, is_resolved, BackchannelAuthRequest, Requests,
}

-- `Create`: the primary key must be new
unfoldable pub create : Bool → BackchannelAuthRequest → Requests → Option Requests
create stored r rows =
    if not stored || any (λ q. q.auth_req_id == r.auth_req_id) rows then none else some (r ∷ rows)

-- `GetByAuthReqID`
unfoldable pub get_by_auth_req_id : String → Requests → Option BackchannelAuthRequest
get_by_auth_req_id id rows = find (λ r. r.auth_req_id == id) rows

-- the rows that `MarkApproved` and `MarkDenied` select
unfoldable pub open_at : ℕ → String → BackchannelAuthRequest → Bool
open_at now id r = r.auth_req_id == id && (is_pending r.status && ltb now r.expires_at)

unfoldable pub set_approved :
    ℕ → String → String → String → BackchannelAuthRequest → BackchannelAuthRequest
set_approved now subject email name r = record r {
  status = BackchannelStatus.approved;
  approved_subject_id = subject;
  approved_subject_email = email;
  approved_subject_name = name;
  approved_at = some now;
}

-- `MarkApproved`
unfoldable pub mark_approved : ℕ → String → String → String → String → Requests → ℕ × Requests
mark_approved now id subject email name rows = (
  count_where (open_at now id) rows,
  update_where (open_at now id) (set_approved now subject email name) rows,
)

unfoldable pub set_denied : BackchannelAuthRequest → BackchannelAuthRequest
set_denied r = record r { status = BackchannelStatus.denied }

-- `MarkDenied`
unfoldable pub mark_denied : ℕ → String → Requests → ℕ × Requests
mark_denied now id rows =
    (count_where (open_at now id) rows, update_where (open_at now id) set_denied rows)

unfoldable pub approved_as : String → BackchannelAuthRequest → Bool
approved_as id r = r.auth_req_id == id && is_approved r.status

unfoldable pub set_issued : BackchannelAuthRequest → BackchannelAuthRequest
set_issued r = record r { status = BackchannelStatus.issued }

-- `MarkIssued`
unfoldable pub mark_issued : String → Requests → ℕ × Requests
mark_issued id rows =
    (count_where (approved_as id) rows, update_where (approved_as id) set_issued rows)

unfoldable pub set_polled : ℕ → BackchannelAuthRequest → BackchannelAuthRequest
set_polled at r = record r { last_polled_at = some at }

-- `TouchPoll`
unfoldable pub touch_poll : ℕ → String → Requests → Requests
touch_poll at id rows = update_where (λ r. r.auth_req_id == id) (set_polled at) rows

unfoldable pub set_error : String → BackchannelAuthRequest → BackchannelAuthRequest
set_error msg r = record r { last_notify_error = msg }

-- `SetLastNotifyError`
unfoldable pub set_last_notify_error : String → String → Requests → Requests
set_last_notify_error id msg rows = update_where (λ r. r.auth_req_id == id) (set_error msg) rows

unfoldable pub overdue : ℕ → BackchannelAuthRequest → Bool
overdue now r = is_pending r.status && ltb r.expires_at now

unfoldable pub set_expired : BackchannelAuthRequest → BackchannelAuthRequest
set_expired r = record r { status = BackchannelStatus.expired }

-- `SweepExpired`
unfoldable pub sweep_expired : ℕ → Requests → ℕ × Requests
sweep_expired now rows =
    (count_where (overdue now) rows, update_where (overdue now) set_expired rows)

unfoldable pub reapable : ℕ → BackchannelAuthRequest → Bool
reapable now r = ltb r.expires_at now && is_resolved r.status

-- `DeleteExpired`
unfoldable pub delete_expired : ℕ → Requests → ℕ × Requests
delete_expired now rows = (count_where (reapable now) rows, delete_where (reapable now) rows)

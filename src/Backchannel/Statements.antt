-- ===== src/Backchannel/Statements.antt =====
-- internal/store/postgres/backchannel_request.go: the statements as steps on the table of requests, and
-- their sequences.
use zeroid.Prelude.{ℕ, ◌≡◌, String, true, false, some, ◌==◌}
use zeroid.Backchannel.Defs.{BackchannelAuthRequest, Requests}
use zeroid.Backchannel.Store.{
  create, mark_approved, mark_denied, mark_issued, touch_poll, set_last_notify_error, sweep_expired,
  delete_expired,
}

-- One statement; a new request has another identifier than `k`.
pub data Statement (k : String) : Requests → Requests → Type 0 where
  creates :
      (r : BackchannelAuthRequest) {rows rows' : Requests}
      → (r.auth_req_id == k) ≡ false
      → create true r rows ≡ some rows'
      → Statement k rows rows'
  approves :
      (now : ℕ) (id subject email name : String) {rows : Requests}
      → Statement k rows (mark_approved now id subject email name rows).1
  denies : (now : ℕ) (id : String) {rows : Requests} → Statement k rows (mark_denied now id rows).1
  issues : (id : String) {rows : Requests} → Statement k rows (mark_issued id rows).1
  polls : (at : ℕ) (id : String) {rows : Requests} → Statement k rows (touch_poll at id rows)
  notes : (id msg : String) {rows : Requests} → Statement k rows (set_last_notify_error id msg rows)
  sweeps : (now : ℕ) {rows : Requests} → Statement k rows (sweep_expired now rows).1
  deletes : (now : ℕ) {rows : Requests} → Statement k rows (delete_expired now rows).1

pub data Trace (k : String) (rows : Requests) : Requests → Type 0 where
  start : Trace k rows rows
  then_statement :
      {middle rows' : Requests}
      → Trace k rows middle
      → Statement k middle rows'
      → Trace k rows rows'

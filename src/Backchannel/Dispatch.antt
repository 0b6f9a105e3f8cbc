-- ===== src/Backchannel/Dispatch.antt =====
-- internal/service/backchannel.go: what an issuance and a resolution do to the table of requests.
use mathlib.Core.Path.{subst}
use zeroid.Prelude.{
  ◌≡◌, refl, ℕ, String, Bool, true, false, Option, none, some, ◌==◌, ◌&&◌, if◌then◌else◌,
  Bool-cases, inl, inr, ltb, eq_iff,
}
use zeroid.Prelude.Result.{Result, ok, err}
use zeroid.Prelude.Table.{find-eq_some}
use zeroid.Credential.Defs.{CredentialService, IssueError}
use zeroid.Credential.Issue.{Issued, issue_credential}
use zeroid.Backchannel.Defs.{
  BackchannelStatus, NotificationMode, is_push, BackchannelAuthRequest, Requests, World,
  ResolveCall,
}
use zeroid.Backchannel.Store.{get_by_auth_req_id, mark_issued}
use zeroid.Backchannel.Notify.{Callback, Ending}
use zeroid.Backchannel.Issue.{Redeemed, deliver, ciba_request, issue_token_for_approved_row}
use zeroid.Backchannel.Resolve.{
  record_ending, callback, has_callback, push_outcome, dispatch_push_approval, dispatch_mode,
  dispatch_reloaded, settle_update,
}
use zeroid.Backchannel.Moves.{
  CallKind, approving, denying, Move, pushes, Changes, Changes-refl, Changes-trans,
  mark_issued-Changes, set_last_notify_error-Changes,
}

deliver-requests :
    (row : BackchannelAuthRequest) (w : World) (r : Result IssueError Issued)
    → (deliver row w r).1.requests ≡ w.requests
unfolding deliver
deliver-requests row w (ok out) = refl
deliver-requests row w (err e) = refl

pub issue_token-Changes :
    (k : CallKind) (s : CredentialService) (call : ResolveCall) (row : BackchannelAuthRequest)
    (thumbprint : String) (w : World)
    → Move k BackchannelStatus.approved BackchannelStatus.issued
    → Changes k row.auth_req_id w.requests
        ((issue_token_for_approved_row s call row thumbprint w).1).requests
unfolding issue_token_for_approved_row
issue_token-Changes k s call row thumbprint w issues = elim (Bool-cases call.marks) [
  | inr b ↦ rw b (Changes-refl k row.auth_req_id w.requests)
  | inl b ↦ elim (Bool-cases (ltb 0 (mark_issued row.auth_req_id w.requests).0)) [
    | inr miss ↦ rw b (rw miss (Changes-refl k row.auth_req_id w.requests))
    | inl hit ↦ rw b (
        rw hit (
          rw
            (deliver-requests row
              (record w { requests = (mark_issued row.auth_req_id w.requests).1 })
              (issue_credential s call.issue w.credentials (ciba_request row thumbprint)))
            (mark_issued-Changes k row.auth_req_id w.requests issues)))
  ]
]

record_ending-Changes :
    (k : CallKind) (c : Callback) (row : BackchannelAuthRequest) (w : World) (e : Ending)
    → Changes k row.auth_req_id w.requests (record_ending c row w e).requests
unfolding record_ending
record_ending-Changes k c row w Ending.accepted = elim (Bool-cases c.recorded) [
  | inl b ↦ rw b (set_last_notify_error-Changes k row.auth_req_id "" w.requests)
  | inr b ↦ rw b (Changes-refl k row.auth_req_id w.requests)
]
record_ending-Changes k c row w (Ending.gave_up none) = Changes-refl k row.auth_req_id w.requests
record_ending-Changes k c row w (Ending.gave_up (some msg)) = elim (Bool-cases c.recorded) [
  | inl b ↦ rw b (set_last_notify_error-Changes k row.auth_req_id msg w.requests)
  | inr b ↦ rw b (Changes-refl k row.auth_req_id w.requests)
]

callback-Changes :
    (k : CallKind) (call : ResolveCall) (row : BackchannelAuthRequest) (w : World)
    → Changes k row.auth_req_id w.requests (callback call row w).requests
unfolding callback
callback-Changes k call row w =
    elim (Bool-cases (call.callback.running && call.callback.marshals)) [
      | inl runs ↦ rw runs (record_ending-Changes k call.callback row w _)
      | inr stops ↦ rw stops (Changes-refl k row.auth_req_id w.requests)
    ]

push_outcome-Changes :
    (k : CallKind) (call : ResolveCall) (row : BackchannelAuthRequest) (r : Redeemed)
    → Changes k row.auth_req_id (r.1).requests ((push_outcome call row r).0).requests
unfolding push_outcome
push_outcome-Changes k call row (ok token, w) = callback-Changes k call row w
push_outcome-Changes k call row (err e, w) =
    set_last_notify_error-Changes k row.auth_req_id call.mint_error w.requests

called-Changes :
    (k : CallKind) (call : ResolveCall) (row : BackchannelAuthRequest) (w : World)
    → Changes k row.auth_req_id w.requests
        (if has_callback row then callback call row w else w).requests
called-Changes k call row w = elim (Bool-cases (has_callback row)) [
  | inl b ↦ rw b (callback-Changes k call row w)
  | inr b ↦ rw b (Changes-refl k row.auth_req_id w.requests)
]

-- The kind of a resolution.
abbrev kind_of : Bool → CallKind
kind_of true = approving
kind_of false = denying

dispatch_mode-Changes :
    (s : CredentialService) (call : ResolveCall) (approval : Bool) (row : BackchannelAuthRequest)
    (w : World) (mode : NotificationMode)
    → Changes
        (kind_of approval)
        row.auth_req_id
        w.requests
        ((dispatch_mode s call approval row w mode).0).requests
unfolding dispatch_mode dispatch_push_approval
dispatch_mode-Changes s call approval row w NotificationMode.ping =
    called-Changes (kind_of approval) call row w
dispatch_mode-Changes s call approval row w NotificationMode.poll =
    Changes-refl (kind_of approval) row.auth_req_id w.requests
dispatch_mode-Changes s call approval row w (NotificationMode.other m) =
    Changes-refl (kind_of approval) row.auth_req_id w.requests
dispatch_mode-Changes s call false row w NotificationMode.push = called-Changes denying call row w
dispatch_mode-Changes s call true row w NotificationMode.push =
    elim (Bool-cases (is_push row.notification_mode && has_callback row)) [
      | inl b ↦ rw b (
          Changes-trans (issue_token-Changes approving s call row "" w pushes)
            (push_outcome-Changes approving call row _))
      | inr b ↦ rw b (Changes-refl approving row.auth_req_id w.requests)
    ]

dispatch_reloaded-Changes :
    (s : CredentialService) (call : ResolveCall) (approval : Bool) (id : String) (w : World)
    (o : Option BackchannelAuthRequest)
    → ((row : BackchannelAuthRequest) → o ≡ some row → row.auth_req_id ≡ id)
    → Changes (kind_of approval) id w.requests ((dispatch_reloaded s call approval w o).0).requests
unfolding dispatch_reloaded
dispatch_reloaded-Changes s call approval id w none same =
    Changes-refl (kind_of approval) id w.requests
dispatch_reloaded-Changes s call approval id w (some row) same =
    subst
      (λ i.
        Changes (kind_of approval) i w.requests
          ((dispatch_mode s call approval row w row.notification_mode).0).requests)
      (same row refl) (dispatch_mode-Changes s call approval row w row.notification_mode)

pub get_by_auth_req_id-id :
    (id : String) (rows : Requests) (row : BackchannelAuthRequest)
    → get_by_auth_req_id id rows ≡ some row
    → row.auth_req_id ≡ id
unfolding get_by_auth_req_id
get_by_auth_req_id-id id rows row h =
    (eq_iff _ _).0 (find-eq_some (λ r. r.auth_req_id == id) rows h).0

reloaded-id :
    (loads : Bool) (id : String) (rows : Requests) (row : BackchannelAuthRequest)
    → (if loads then get_by_auth_req_id id rows else none) ≡ some row
    → row.auth_req_id ≡ id
reloaded-id true id rows row h = get_by_auth_req_id-id id rows row h
reloaded-id false id rows row h = cc

pub settle_update-Changes :
    (s : CredentialService) (call : ResolveCall) (approval : Bool) (id : String) (w : World) (n : ℕ)
    (rows : Requests)
    → Changes (kind_of approval) id w.requests rows
    → Changes
        (kind_of approval)
        id
        w.requests
        (settle_update s call approval id w (n, rows)).world.requests
unfolding settle_update
settle_update-Changes s call approval id w n rows t = elim (Bool-cases call.updates) [
  | inr u ↦ simp u (Changes-refl (kind_of approval) id w.requests)
  | inl u ↦ elim (Bool-cases (ltb 0 n)) [
    | inr miss ↦ simp (u, miss) (Changes-refl (kind_of approval) id w.requests)
    | inl hit ↦
        simp (u, hit)
          (Changes-trans t (
            dispatch_reloaded-Changes s call approval id (record w { requests = rows })
              (if call.reloads then get_by_auth_req_id id rows else none)
              (reloaded-id call.reloads id rows)))
  ]
]

-- ===== src/Backchannel/Once.antt =====
-- internal/service/backchannel.go: the calls that come after a redemption, in whatever order their
-- statements follow.
use zeroid.Prelude.{
  ℕ, ◌≡◌, ◌≢◌, inl, inr, refl, sym, ◌∙◌, String, Bool, true, false, none, ◌==◌, ◌&&◌, ◌||◌, not,
  Bool-cases, Option-cases, ltb, eq_iff,
}
use mathlib.Core.Path.{subst}
use zeroid.Prelude.Result.{ok, err}
use zeroid.Prelude.Table.{find-eq_some}
use zeroid.Credential.Defs.{CredentialService, AccessToken}
use zeroid.Backchannel.Defs.{
  NotificationMode, is_push, is_pending, BackchannelAuthRequest, Requests, World, ApproveInput,
  RedeemInput, ResolveCall,
}
use zeroid.Backchannel.Store.{get_by_auth_req_id}
use zeroid.Backchannel.Issue.{Redeemed, redeem}
use zeroid.Backchannel.Resolve.{
  has_callback, push_outcome, dispatch_push_approval, dispatch_mode, dispatch_reloaded,
  settle_update, approve_row, approve,
}
use zeroid.Backchannel.Statements.{Trace, approves}
use zeroid.Backchannel.Claim.{
  UniqueId, Spent, claim-Spent, Statement-Spent, Trace-Spent, issue_token-Spent, Minted-not_Spent,
}
use zeroid.Backchannel.Guards.{redeem-approved}

push_outcome-none :
    (call : ResolveCall) (row : BackchannelAuthRequest) (r : Redeemed)
    → ((token : AccessToken) (w : World) → r ≢ (ok token, w))
    → (push_outcome call row r).1 ≡ none
unfolding push_outcome
push_outcome-none call row (ok token, w) n = absurd (n token w refl)
push_outcome-none call row (err e, w) n = refl

dispatch_mode-none :
    (s : CredentialService) (call : ResolveCall) (approval : Bool) (row : BackchannelAuthRequest)
    (w : World) (mode : NotificationMode)
    → Spent row.auth_req_id w.requests
    → (dispatch_mode s call approval row w mode).1 ≡ none
unfolding dispatch_mode dispatch_push_approval
dispatch_mode-none s call approval row w NotificationMode.ping spent = refl
dispatch_mode-none s call approval row w NotificationMode.poll spent = refl
dispatch_mode-none s call approval row w (NotificationMode.other t) spent = refl
dispatch_mode-none s call false row w NotificationMode.push spent = refl
dispatch_mode-none s call true row w NotificationMode.push spent =
    elim (Bool-cases (is_push row.notification_mode && has_callback row)) [
      | inl b ↦ rw b (push_outcome-none call row _ (issue_token-Spent s call row "" w spent))
      | inr b ↦ rw b refl
    ]

settle_update-none :
    (s : CredentialService) (call : ResolveCall) (id : String) (w : World) (n : ℕ) (rows : Requests)
    → Spent id rows
    → (settle_update s call true id w (n, rows)).delivered ≡ none
unfolding settle_update dispatch_reloaded get_by_auth_req_id
settle_update-none s call id w n rows spent = elim (Bool-cases call.updates) [
  | inr u ↦ simp u refl
  | inl u ↦ elim (Bool-cases (ltb 0 n)) [
    | inr miss ↦ simp (u, miss) refl
    | inl hit ↦ elim (Bool-cases call.reloads) [
      | inr l ↦ simp (u, hit, l) refl
      | inl l ↦ elim (Option-cases (get_by_auth_req_id id rows)) [
        | inl gone ↦ simp (u, hit, l, gone) refl
        | inr (row, found) ↦
            let (named, m) = find-eq_some (λ r. r.auth_req_id == id) rows found in
            let same : id ≡ row.auth_req_id = sym ((eq_iff _ _).0 named) in
            let none_left =
              dispatch_mode-none s call true row (record w { requests = rows })
                row.notification_mode (subst (λ k. Spent k rows) same spent) in
            simp (u, hit, l, found, none_left) refl
      ]
    ]
  ]
]

-- An approval delivers no token under an identifier that is spent.
pub approve-Spent :
    (s : CredentialService) (call : ResolveCall) (input : ApproveInput) (seen : Requests)
    (w : World)
    → Spent input.auth_req_id w.requests
    → (approve s call input seen w).delivered ≡ none
unfolding approve approve_row
approve-Spent s call input seen w spent =
    let after = settle_update-none s call input.auth_req_id w _ _ (
      Statement-Spent input.auth_req_id spent (
        approves call.updated_at input.auth_req_id input.subject_id input.subject_email
          input.subject_name)) in
    elim (Bool-cases (
      (input.auth_req_id == "" || input.account_id == "")
      || (input.project_id == "" || input.subject_id == ""))) [
        | inl b ↦ simp b refl
        | inr b ↦ elim (Bool-cases call.loads) [
          | inr l ↦ simp (b, l) refl
          | inl l ↦ elim (Option-cases (get_by_auth_req_id input.auth_req_id seen)) [
            | inl gone ↦ simp (b, l, gone) refl
            | inr (row, found) ↦
                elim (Bool-cases (
                  not (row.account_id == input.account_id)
                  || not (row.project_id == input.project_id))) [
                    | inl t ↦ simp (b, l, found, t) refl
                    | inr t ↦ elim (Bool-cases (is_pending row.status)) [
                      | inr p ↦ simp (b, l, found, t, p) refl
                      | inl p ↦ elim (Bool-cases (ltb row.expires_at call.checked_at)) [
                        | inl e ↦ simp (b, l, found, t, p, e) refl
                        | inr e ↦ simp (b, l, found, t, p, e) after
                      ]
                    ]
                  ]
          ]
        ]
      ]

redeemed-Spent :
    (s : CredentialService) (min_poll : ℕ) (call : ResolveCall) (input : RedeemInput)
    (seen : Requests) (w : World) {token : AccessToken} {w' : World} (later : World)
    → UniqueId w.requests
    → redeem s min_poll call input seen w ≡ (ok token, w')
    → Trace input.auth_req_id w'.requests later.requests
    → Spent input.auth_req_id later.requests
redeemed-Spent s min_poll call input seen w {token} {w'} later unique h trace =
    let (row, r, (m, stamp)) = redeem-approved s min_poll call input seen w h in
    let left : Spent row.auth_req_id w'.requests =
      subst (Spent row.auth_req_id) (sym m.claimed)
        (claim-Spent row.auth_req_id w.requests unique m.present m.approved) in
    Trace-Spent input.auth_req_id (subst (λ k. Spent k w'.requests) r.auth_req_id left) trace

-- After a redemption that returns a token, on a table whose identifiers are unique, no later redemption of the
-- same request returns a token, whatever the row that it had read, and whichever statements ran between,
-- unless one creates the identifier anew.
pub redeem-once :
    (s : CredentialService) (min_poll : ℕ) (call : ResolveCall) (input : RedeemInput)
    (seen : Requests) (w : World) {token : AccessToken} {w' : World} (later : World)
    → UniqueId w.requests
    → redeem s min_poll call input seen w ≡ (ok token, w')
    → Trace input.auth_req_id w'.requests later.requests
    → (call' : ResolveCall) (again : RedeemInput) (seen' : Requests) (token' : AccessToken)
      (w'' : World)
    → again.auth_req_id ≡ input.auth_req_id
    → redeem s min_poll call' again seen' later ≢ (ok token', w'')
redeem-once s min_poll call input seen w later unique h trace call' again seen' token' w'' same k =
    let spent = redeemed-Spent s min_poll call input seen w later unique h trace in
    let (row', r', (m', stamp')) = redeem-approved s min_poll call' again seen' later k in
    Minted-not_Spent m' (subst (λ i. Spent i later.requests) (sym (r'.auth_req_id ∙ same)) spent)

-- After a redemption that returns a token, on a table whose identifiers are unique, no later approval of the same
-- request delivers a token by push, whatever the row that it had read, and whichever statements ran
-- between, unless one creates the identifier anew.
pub redeem-once_push :
    (s : CredentialService) (min_poll : ℕ) (call : ResolveCall) (input : RedeemInput)
    (seen : Requests) (w : World) {token : AccessToken} {w' : World} (later : World)
    → UniqueId w.requests
    → redeem s min_poll call input seen w ≡ (ok token, w')
    → Trace input.auth_req_id w'.requests later.requests
    → (call' : ResolveCall) (approval : ApproveInput) (seen' : Requests)
    → approval.auth_req_id ≡ input.auth_req_id
    → (approve s call' approval seen' later).delivered ≡ none
redeem-once_push s min_poll call input seen w later unique h trace call' approval seen' same =
    approve-Spent s call' approval seen' later (
      subst (λ i. Spent i later.requests) (sym same)
        (redeemed-Spent s min_poll call input seen w later unique h trace))

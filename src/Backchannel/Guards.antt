-- ===== src/Backchannel/Guards.antt =====
-- The guards of `Redeem` and `Approve`.
use zeroid.Prelude.{
  ℕ, ◌<◌, ◌≡◌, ◌≢◌, ◌⊎◌, inl, inr, refl, ap, String, Bool, true, false, some, ◌==◌, ◌&&◌, ◌||◌, not,
  Bool-cases, Option-cases, Memᴰ, ltb, ltb→lt, eq_iff, arith,
}
use zeroid.Prelude.Result.{ok}
use zeroid.Prelude.Table.{find-eq_some, count_where-pos}
use zeroid.Credential.Defs.{CredentialService, AccessToken}
use zeroid.Backchannel.Defs.{
  BackchannelStatus, is_push, is_pending, BackchannelAuthRequest, Requests, World, ApproveInput,
  RedeemInput, ResolveCall,
}
use zeroid.Backchannel.Store.{get_by_auth_req_id, open_at, mark_approved}
use zeroid.Backchannel.Issue.{
  Redeemed, issue_token_for_approved_row, too_fast, redeem_status, redeem_row, redeem,
}
use zeroid.Backchannel.Resolve.{settle_update, approve_row, approve}
use zeroid.Backchannel.Claim.{Minted, issue_token-Minted}
use zeroid.Backchannel.Stamped.{Stamped, ciba-Stamped}

-- The row that `Redeem` goes by when it issues a token.
pub record Redeemable (input : RedeemInput) (seen : Requests) (row : BackchannelAuthRequest)
    : Type 0 where
  pub read : Memᴰ row seen
  pub auth_req_id : row.auth_req_id ≡ input.auth_req_id
  pub client : (input.client_id ≡ "") ⊎ (row.client_id ≡ input.client_id)
  pub pulled : is_push row.notification_mode ≡ false
  pub status : row.status ≡ BackchannelStatus.approved

client_cases :
    (asked held : String)
    → (not (asked == "") && not (held == asked)) ≡ false
    → (asked ≡ "") ⊎ (held ≡ asked)
client_cases asked held h = elim (Bool-cases (asked == "")) [
  | inl b ↦ inl ((eq_iff _ _).0 b)
  | inr b ↦ inr ((eq_iff _ _).0 (ground arith))
]

redeem_status-eq_ok :
    (s : CredentialService) (min_poll : ℕ) (call : ResolveCall) (input : RedeemInput)
    (row : BackchannelAuthRequest) (w : World) (st : BackchannelStatus) {token : AccessToken}
    {w' : World}
    → redeem_status s min_poll call input row w st ≡ (ok token, w')
    → (st ≡ BackchannelStatus.approved)
      × (issue_token_for_approved_row s call row input.dpop_key_thumbprint w ≡ (ok token, w'))
unfolding redeem_status
redeem_status-eq_ok s min_poll call input row w BackchannelStatus.pending h =
    elim (Bool-cases (too_fast min_poll call.checked_at row.last_polled_at)) [
      | inl b ↦ cc (ap (λ (x : Redeemed). x.0) (simp b at h))
      | inr b ↦ cc (ap (λ (x : Redeemed). x.0) (simp b at h))
    ]
redeem_status-eq_ok s min_poll call input row w BackchannelStatus.denied h =
    cc (ap (λ (x : Redeemed). x.0) h)
redeem_status-eq_ok s min_poll call input row w BackchannelStatus.expired h =
    cc (ap (λ (x : Redeemed). x.0) h)
redeem_status-eq_ok s min_poll call input row w BackchannelStatus.issued h =
    cc (ap (λ (x : Redeemed). x.0) h)
redeem_status-eq_ok s min_poll call input row w BackchannelStatus.approved h = (refl, h)
redeem_status-eq_ok s min_poll call input row w (BackchannelStatus.other t) h =
    cc (ap (λ (x : Redeemed). x.0) h)

redeem_row-eq_ok :
    (s : CredentialService) (min_poll : ℕ) (call : ResolveCall) (input : RedeemInput) (w : World)
    (row : BackchannelAuthRequest) {token : AccessToken} {w' : World}
    → redeem_row s min_poll call input w (some row) ≡ (ok token, w')
    → ((input.client_id ≡ "") ⊎ (row.client_id ≡ input.client_id))
      × (is_push row.notification_mode ≡ false)
      × (row.status ≡ BackchannelStatus.approved)
      × (issue_token_for_approved_row s call row input.dpop_key_thumbprint w ≡ (ok token, w'))
unfolding redeem_row
redeem_row-eq_ok s min_poll call input w row h =
    elim (Bool-cases (not (input.client_id == "") && not (row.client_id == input.client_id))) [
      | inl b ↦ cc (ap (λ (x : Redeemed). x.0) (simp b at h))
      | inr b ↦ elim (Bool-cases (is_push row.notification_mode)) [
        | inl p ↦ cc (ap (λ (x : Redeemed). x.0) (simp (b, p) at h))
        | inr p ↦ elim (Bool-cases (ltb row.expires_at call.checked_at && is_pending row.status)) [
          | inl e ↦ cc (ap (λ (x : Redeemed). x.0) (simp (b, p, e) at h))
          | inr e ↦
              let (st, tok) =
                redeem_status-eq_ok s min_poll call input row w row.status (simp (b, p, e) at h) in
              (client_cases input.client_id row.client_id b, p, st, tok)
        ]
      ]
    ]

-- Whenever `Redeem` returns a token, it had read a row of that identifier that is approved, not delivered by
-- push, and of the polling client, if the call names one; at the claim an approved row of that
-- identifier stood in the table, and the token is the one that `IssueCredential` makes for the row read,
-- with the row's tenant and authorization details: its one new credential has the scopes and the tenant of
-- that row and the key that was presented.
pub redeem-approved :
    (s : CredentialService) (min_poll : ℕ) (call : ResolveCall) (input : RedeemInput)
    (seen : Requests) (w : World) {token : AccessToken} {w' : World}
    → redeem s min_poll call input seen w ≡ (ok token, w')
    → (row : BackchannelAuthRequest) × Redeemable input seen row
      × ((m : Minted s call row input.dpop_key_thumbprint w token w') × Stamped row
            input.dpop_key_thumbprint w.credentials m.out)
unfolding redeem get_by_auth_req_id redeem_row
redeem-approved s min_poll call input seen w {token} {w'} h =
    elim (Bool-cases (input.auth_req_id == "")) [
      | inl b ↦ cc (ap (λ (x : Redeemed). x.0) (simp b at h))
      | inr b ↦ elim (Bool-cases call.loads) [
        | inr l ↦ cc (ap (λ (x : Redeemed). x.0) (simp (b, l) at h))
        | inl l ↦ elim (Option-cases (get_by_auth_req_id input.auth_req_id seen)) [
          | inl gone ↦ cc (ap (λ (x : Redeemed). x.0) (simp (b, l, gone) at h))
          | inr (row, found) ↦
              let (hit, m) = find-eq_some (λ r. r.auth_req_id == input.auth_req_id) seen found in
              let (client, pulled, st, tok) =
                redeem_row-eq_ok s min_poll call input w row (simp (b, l, found) at h) in
              let minted = issue_token-Minted s call row input.dpop_key_thumbprint w tok in
              (
                row,
                record {
                  read = m;
                  auth_req_id = (eq_iff _ _).0 hit;
                  client = client;
                  pulled = pulled;
                  status = st;
                },
                (
                  minted,
                  ciba-Stamped s call.issue w.credentials row input.dpop_key_thumbprint
                      minted.issued,
                ),
              )
        ]
      ]
    ]

-- The row that `Approve` goes by when it answers without an error.
pub record Approvable (call : ResolveCall) (input : ApproveInput) (seen : Requests)
    (row : BackchannelAuthRequest) : Type 0 where
  pub read : Memᴰ row seen
  pub auth_req_id : row.auth_req_id ≡ input.auth_req_id
  pub account_id : row.account_id ≡ input.account_id
  pub project_id : row.project_id ≡ input.project_id
  pub subject : input.subject_id ≢ ""
  pub status : is_pending row.status ≡ true
  pub current : ltb row.expires_at call.checked_at ≡ false

approve_row-eq_ok :
    (s : CredentialService) (call : ResolveCall) (input : ApproveInput) (w : World)
    (row : BackchannelAuthRequest)
    → (approve_row s call input w (some row)).answer ≡ ok tt
    → (row.account_id ≡ input.account_id)
      × (row.project_id ≡ input.project_id)
      × (is_pending row.status ≡ true)
      × (ltb row.expires_at call.checked_at ≡ false)
      × ((settle_update s call true input.auth_req_id w (
            mark_approved call.updated_at input.auth_req_id input.subject_id input.subject_email
              input.subject_name w.requests)).answer
          ≡ ok tt)
unfolding approve_row
approve_row-eq_ok s call input w row h =
    elim (Bool-cases
      (not (row.account_id == input.account_id) || not (row.project_id == input.project_id))) [
        | inl b ↦ cc (simp b at h)
        | inr b ↦ elim (Bool-cases (is_pending row.status)) [
          | inr p ↦ cc (simp (b, p) at h)
          | inl p ↦ elim (Bool-cases (ltb row.expires_at call.checked_at)) [
            | inl e ↦ cc (simp (b, p, e) at h)
            | inr e ↦ (
              (eq_iff _ _).0 (ground arith),
              (eq_iff _ _).0 (ground arith),
              p,
              e,
              simp (b, p, e) at h,
            )
          ]
        ]
      ]

settle-open :
    (s : CredentialService) (call : ResolveCall) (approval : Bool) (id : String) (w : World) (n : ℕ)
    (rows : Requests)
    → (settle_update s call approval id w (n, rows)).answer ≡ ok tt
    → 0 < n
unfolding settle_update
settle-open s call approval id w n rows h = elim (Bool-cases call.updates) [
  | inr u ↦ cc (simp u at h)
  | inl u ↦ elim (Bool-cases (ltb 0 n)) [
    | inl hit ↦ ltb→lt 0 n hit
    | inr miss ↦ cc (simp (u, miss) at h)
  ]
]

-- Whenever `Approve` answers without an error, the call names a subject, and the row that it had read has the
-- call's identifier and tenant, was pending, and had not expired when it was checked; and when the update
-- ran, a row of that identifier was still pending and not expired.
pub approve-guarded :
    (s : CredentialService) (call : ResolveCall) (input : ApproveInput) (seen : Requests)
    (w : World)
    → (approve s call input seen w).answer ≡ ok tt
    → ((row : BackchannelAuthRequest) × Approvable call input seen row)
      × ((row : BackchannelAuthRequest) × Memᴰ row w.requests
          × (open_at call.updated_at input.auth_req_id row ≡ true))
unfolding approve get_by_auth_req_id approve_row mark_approved
approve-guarded s call input seen w h =
    elim (Bool-cases (
      (input.auth_req_id == "" || input.account_id == "")
      || (input.project_id == "" || input.subject_id == ""))) [
        | inl b ↦ cc (simp b at h)
        | inr b ↦ elim (Bool-cases call.loads) [
          | inr l ↦ cc (simp (b, l) at h)
          | inl l ↦ elim (Option-cases (get_by_auth_req_id input.auth_req_id seen)) [
            | inl gone ↦ cc (simp (b, l, gone) at h)
            | inr (row, found) ↦
                let (hit, m) = find-eq_some (λ r. r.auth_req_id == input.auth_req_id) seen found in
                let (account, project, pending, current, settled) =
                  approve_row-eq_ok s call input w row (simp (b, l, found) at h) in
                let named : (input.subject_id == "") ≡ false = ground arith in
                (
                  (
                    row,
                    record {
                      read = m;
                      auth_req_id = (eq_iff _ _).0 hit;
                      account_id = account;
                      project_id = project;
                      subject = λ e. cc (named, (eq_iff _ _).1 e);
                      status = pending;
                      current = current;
                    },
                  ),
                  count_where-pos (open_at call.updated_at input.auth_req_id) w.requests
                      (settle-open s call true input.auth_req_id w _ _ settled),
                )
          ]
        ]
      ]

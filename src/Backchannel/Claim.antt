-- ===== src/Backchannel/Claim.antt =====
-- The claim of an approved request: what a delivered token says of the tables, and what the claim leaves.
use zeroid.Prelude.{
  ◌≤◌, ◌≡◌, ◌≢◌, inl, inr, refl, sym, ap, String, Bool, true, false, some, ◌∷◌, ◌==◌, ◌&&◌, ◌||◌,
  Bool-cases, Memᴰ, ltb, ltb→lt, arith,
}
use mathlib.Core.Path.{subst}
use zeroid.Prelude.Result.{Result, ok, err}
use zeroid.Prelude.Table.{
  any, update_where, count_where, count_where-Mem, count_where-pos, count_where-narrower,
  count_where-update_where_drop, count_where-update_where_le, count_where-delete_where,
}
use zeroid.Credential.Defs.{CredentialService, AccessToken, IssueError}
use zeroid.Credential.Issue.{Issued, issue_credential}
use zeroid.Backchannel.Defs.{
  is_pending, is_approved, BackchannelAuthRequest, Requests, World, ResolveCall,
}
use zeroid.Backchannel.Store.{
  create, approved_as, set_issued, mark_issued, mark_approved, mark_denied, touch_poll,
  set_last_notify_error, sweep_expired, delete_expired, open_at, set_approved, set_denied,
  set_polled, set_error, set_expired, reapable,
}
use zeroid.Backchannel.Issue.{Redeemed, ciba_request, deliver, issue_token_for_approved_row}
use zeroid.Backchannel.Statements.{
  Statement, Trace, creates, approves, denies, issues, polls, notes, sweeps, deletes, start,
  then_statement,
}

-- The primary key: an identifier stands in the table once at most.
abbrev pub named : String → BackchannelAuthRequest → Bool
named k r = r.auth_req_id == k

pub record UniqueId (rows : Requests) : Type 0 where
  pub one : (k : String) → count_where (named k) rows ≤ 1

-- A row whose request may still be redeemed.
unfoldable pub usable : String → BackchannelAuthRequest → Bool
usable k r = r.auth_req_id == k && (is_pending r.status || is_approved r.status)

-- No request `k` can be redeemed any more.
pub record Spent (k : String) (rows : Requests) : Type 0 where
  pub none_usable : count_where (usable k) rows ≡ 0

-- A token was minted: the claim found an approved row, and `IssueCredential` succeeded for the request that is
-- made from the row read; the token is the one it made, under the tenant and with the authorization
-- details of that row.
pub record Minted (s : CredentialService) (call : ResolveCall) (row : BackchannelAuthRequest)
    (thumbprint : String) (w : World) (token : AccessToken) (w' : World) : Type 0 where
  pub stood : BackchannelAuthRequest
  pub present : Memᴰ stood w.requests
  pub approved : approved_as row.auth_req_id stood ≡ true
  pub out : Issued
  pub issued : issue_credential s call.issue w.credentials (ciba_request row thumbprint) ≡ ok out
  pub claimed : w'.requests ≡ update_where (approved_as row.auth_req_id) set_issued w.requests
  pub stored : w'.credentials ≡ out.rows
  pub account_id : token.account_id ≡ row.account_id
  pub project_id : token.project_id ≡ row.project_id
  pub authorization_details : token.authorization_details ≡ row.authorization_details
  pub same_token :
      (token.access_token ≡ out.token.access_token)
      × (token.jti ≡ out.token.jti)
      × (token.token_type ≡ out.token.token_type)
      × (token.expires_in ≡ out.token.expires_in)
      × (token.scope ≡ out.token.scope)
      × (token.issued_at ≡ out.token.issued_at)

deliver-eq_ok :
    (row : BackchannelAuthRequest) (w : World) (r : Result IssueError Issued) {token : AccessToken}
    {w' : World}
    → deliver row w r ≡ (ok token, w')
    → (out : Issued) × (r ≡ ok out)
      × (token ≡ record out.token {
        account_id = row.account_id;
        project_id = row.project_id;
        authorization_details = row.authorization_details;
      })
      × (w' ≡ record w { credentials = out.rows })
unfolding deliver
deliver-eq_ok row w (err e) h = cc (ap (λ (x : Redeemed). x.0) h)
deliver-eq_ok row w (ok out) {token} {w'} h =
    let e = ap (λ (x : Redeemed). x.0) h in (out, refl, cc e, sym (ap (λ (x : Redeemed). x.1) h))

pub issue_token-Minted :
    (s : CredentialService) (call : ResolveCall) (row : BackchannelAuthRequest)
    (thumbprint : String) (w : World) {token : AccessToken} {w' : World}
    → issue_token_for_approved_row s call row thumbprint w ≡ (ok token, w')
    → Minted s call row thumbprint w token w'
unfolding issue_token_for_approved_row mark_issued
issue_token-Minted s call row thumbprint w {token} {w'} h = elim (Bool-cases call.marks) [
  | inl b ↦ elim (Bool-cases (ltb 0 (count_where (approved_as row.auth_req_id) w.requests))) [
    | inl hit ↦
        let (x, m, a) = count_where-pos (approved_as row.auth_req_id) w.requests (ltb→lt _ _ hit) in
        let (out, made, et, ew) = deliver-eq_ok row _ _ (simp (b, hit) at h) in
        record {
          stood = x;
          present = m;
          approved = a;
          out = out;
          issued = made;
          claimed = ap (λ (v : World). v.requests) ew;
          stored = ap (λ (v : World). v.credentials) ew;
          account_id = ap (λ (t : AccessToken). t.account_id) et;
          project_id = ap (λ (t : AccessToken). t.project_id) et;
          authorization_details = ap (λ (t : AccessToken). t.authorization_details) et;
          same_token = (
            ap (λ (t : AccessToken). t.access_token) et,
            ap (λ (t : AccessToken). t.jti) et,
            ap (λ (t : AccessToken). t.token_type) et,
            ap (λ (t : AccessToken). t.expires_in) et,
            ap (λ (t : AccessToken). t.scope) et,
            ap (λ (t : AccessToken). t.issued_at) et,
          );
        }
    | inr miss ↦ cc (ap (λ (x : Redeemed). x.0) (simp (b, miss) at h))
  ]
  | inr b ↦ cc (ap (λ (x : Redeemed). x.0) (simp b at h))
]

approved-usable :
    (k : String) (r : BackchannelAuthRequest) → approved_as k r ≡ true → usable k r ≡ true
unfolding approved_as usable
approved-usable k r h = ground arith

usable-named : (k : String) (r : BackchannelAuthRequest) → usable k r ≡ true → named k r ≡ true
unfolding usable
usable-named k r h = ground arith

issued-off : (k : String) (r : BackchannelAuthRequest) → usable k (set_issued r) ≡ false
unfolding usable set_issued is_pending is_approved
issued-off k r = elim (Bool-cases (r.auth_req_id == k)) [ inl b ↦ rw b refl | inr b ↦ rw b refl ]

-- The claim of an approved row leaves nothing to redeem under its identifier.
pub claim-Spent :
    (k : String) (rows : Requests) {r : BackchannelAuthRequest}
    → UniqueId rows
    → Memᴰ r rows
    → approved_as k r ≡ true
    → Spent k (update_where (approved_as k) set_issued rows)
claim-Spent k rows {r} u m a =
    let drop =
      count_where-update_where_drop (approved_as k) (usable k) set_issued rows
        (λ x hit. issued-off k x) m a (approved-usable k r a) in
    let narrow = count_where-narrower (usable k) (named k) rows (usable-named k) in
    let one = u.one k in record { none_usable = omega arith }

update-Spent :
    (k : String) (p : BackchannelAuthRequest → Bool)
    (f : BackchannelAuthRequest → BackchannelAuthRequest) (rows : Requests)
    → ((x : BackchannelAuthRequest) → p x ≡ true → usable k (f x) ≡ true → usable k x ≡ true)
    → Spent k rows
    → Spent k (update_where p f rows)
update-Spent k p f rows back s =
    let less = count_where-update_where_le p (usable k) f rows back in
    let zero = s.none_usable in record { none_usable = omega arith }

insert-Spent :
    (k : String) (r : BackchannelAuthRequest) (rows : Requests) {rows' : Requests}
    → (r.auth_req_id == k) ≡ false
    → create true r rows ≡ some rows'
    → Spent k rows
    → Spent k rows'
unfolding create count_where usable
insert-Spent k r rows {rows'} other h s =
    elim (Bool-cases (any (λ q. q.auth_req_id == r.auth_req_id) rows)) [
      | inl taken ↦ cc (rw taken at h)
      | inr free ↦
          let e : (r ∷ rows) ≡ rows' = cc (rw free at h) in
          subst (Spent k) e (record { none_usable = rw other s.none_usable })
    ]

pub Statement-Spent :
    (k : String) {rows rows' : Requests} → Spent k rows → Statement k rows rows' → Spent k rows'
unfolding mark_approved mark_denied mark_issued touch_poll set_last_notify_error sweep_expired
    delete_expired set_approved set_denied set_issued set_polled set_error set_expired usable
    is_pending is_approved open_at approved_as
Statement-Spent k {rows} s (creates r other h) = insert-Spent k r rows other h s
Statement-Spent k {rows} s (approves now id subject email name) =
    update-Spent k _ _ rows (λ x hit here. ground arith) s
Statement-Spent k {rows} s (denies now id) = update-Spent k _ _ rows (λ x hit here. ground arith) s
Statement-Spent k {rows} s (issues id) = update-Spent k _ _ rows (λ x hit here. ground arith) s
Statement-Spent k {rows} s (polls at id) = update-Spent k _ _ rows (λ x hit here. here) s
Statement-Spent k {rows} s (notes id msg) = update-Spent k _ _ rows (λ x hit here. here) s
Statement-Spent k {rows} s (sweeps now) = update-Spent k _ _ rows (λ x hit here. ground arith) s
Statement-Spent k {rows} s (deletes now) =
    let less = count_where-delete_where (reapable now) (usable k) rows in
    let zero = s.none_usable in record { none_usable = omega arith }

pub Trace-Spent :
    (k : String) {rows rows' : Requests} → Spent k rows → Trace k rows rows' → Spent k rows'
Trace-Spent k s start = s
Trace-Spent k s (then_statement before step) = Statement-Spent k (Trace-Spent k s before) step

-- A token is not minted where nothing can be redeemed under the row's identifier.
pub Minted-not_Spent :
    {s : CredentialService} {call : ResolveCall} {row : BackchannelAuthRequest}
    {thumbprint : String} {w w' : World} {token : AccessToken}
    → Minted s call row thumbprint w token w'
    → Spent row.auth_req_id w.requests
    → ⊥
Minted-not_Spent {row = row} m spent =
    let more =
      count_where-Mem (usable row.auth_req_id) m.present
        (approved-usable row.auth_req_id m.stood m.approved) in
    let zero = spent.none_usable in omega arith

pub issue_token-Spent :
    (s : CredentialService) (call : ResolveCall) (row : BackchannelAuthRequest)
    (thumbprint : String) (w : World)
    → Spent row.auth_req_id w.requests
    → (token : AccessToken) (w' : World)
    → (issue_token_for_approved_row s call row thumbprint w ≢ (ok token, w'))
issue_token-Spent s call row thumbprint w spent token w' h =
    Minted-not_Spent (issue_token-Minted s call row thumbprint w h) spent

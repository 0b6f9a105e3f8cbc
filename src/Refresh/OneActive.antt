-- ===== src/Refresh/OneActive.antt =====
-- The invariant of the table of refresh tokens, over any sequence of the service's operations.
use zeroid.Prelude.{
  ℕ, ◌≤◌, ◌≡◌, refl, sym, ◌∙◌, ap, inl, inr, String, Bool, true, false, List, ◌∷◌, ◌==◌, Bool-cases,
  if◌then◌else◌, eq_iff, arith,
}
use mathlib.Core.Path.{subst}
use zeroid.Prelude.Int.{ℤ}
use zeroid.Prelude.Result.{Result, ok, err, or_fail, >>=-eq_ok, or_fail-eq_ok}
use zeroid.Prelude.Table.{
  any, update_where, count_where, count_where-update_where, count_where-update_where_drop,
  count_where-update_where_eq, any-count_where, any-narrower,
}
use zeroid.Refresh.Defs.{
  RefreshToken, generate_refresh_token, generate_failed, store_failed, RefreshTokenParams,
  RefreshTokenResult, RefreshError, is_active,
}
use zeroid.Refresh.Store.{create, set_revoked, claimable, active_in, revoke_family}
use zeroid.Refresh.Rotate.{
  IssueCall, issue_refresh_token, RotateCall, successor, rotate_refresh_token,
}
use zeroid.Refresh.Transaction.{Committed, create-eq_some, rotate-Committed}
use zeroid.Refresh.Reuse.{rotate-error}

-- A hash stands in the table once at most, and a family has one active token at most.
pub record WellFormed (rows : List RefreshToken) : Type 0 where
  pub one_hash : (h : String) → count_where (λ t. t.token_hash == h) rows ≤ 1
  pub one_active : (f : String) → count_where (active_in f) rows ≤ 1

-- One operation of the service: a new family, a rotation whatever its outcome, or a revoked family.
pub data Step (hash : String → String) : List RefreshToken → List RefreshToken → Type 0 where
  issue :
      (call : IssueCall) (params : RefreshTokenParams) {rows rows' : List RefreshToken}
      {out : RefreshTokenResult}
      → any (λ t. t.family_id == call.family_id) rows ≡ false
      → issue_refresh_token hash call params rows ≡ ok (out, rows')
      → Step hash rows rows'
  rotate :
      (call : RotateCall) (raw : String) (ttl : ℤ) (presented : String)
      {rows rows' : List RefreshToken}
      {res : Result RefreshError (RefreshToken × RefreshTokenResult)}
      → rotate_refresh_token hash call raw ttl presented rows ≡ (res, rows')
      → Step hash rows rows'
  revoke :
      (now : ℕ) (family : String) {rows rows' : List RefreshToken}
      → (revoke_family now family rows).1 ≡ rows'
      → Step hash rows rows'

pub data Steps (hash : String → String) (rows : List RefreshToken)
    : List RefreshToken → Type 0 where
  start : Steps hash rows rows
  then_step :
      {middle rows' : List RefreshToken}
      → Steps hash rows middle
      → Step hash middle rows'
      → Steps hash rows rows'

set_revoked-off :
    (now : ℕ) (f : String) (t : RefreshToken) → active_in f (set_revoked now t) ≡ false
unfolding active_in set_revoked is_active
set_revoked-off now f t = elim (Bool-cases (t.family_id == f)) [
  | inl b ↦ rw b refl
  | inr b ↦ rw b refl
]

-- Revoking rows, by any query, keeps the invariant.
pub revoke-WellFormed :
    (now : ℕ) (p : RefreshToken → Bool) (rows : List RefreshToken)
    → WellFormed rows
    → WellFormed (update_where p (set_revoked now) rows)
unfolding set_revoked
revoke-WellFormed now p rows w = record {
  one_hash = λ h.
      let same =
        count_where-update_where_eq p (λ t. t.token_hash == h) (set_revoked now) rows (λ t. refl) in
      let one = w.one_hash h in omega arith;
  one_active = λ f.
      let less =
        count_where-update_where p (active_in f) (set_revoked now) rows
          (λ t hit. set_revoked-off now f t) in
      let one = w.one_active f in omega arith;
}

same_family : (t : RefreshToken) (f : String) → active_in f t ≡ true → (t.family_id == f) ≡ true
unfolding active_in
same_family t f h = ground arith

other_family : (t : RefreshToken) (f : String) → (t.family_id == f) ≡ false → active_in f t ≡ false
unfolding active_in
other_family t f h = ground arith

claimable-active :
    (now : ℕ) (h : String) (t : RefreshToken)
    → claimable now h t ≡ true
    → active_in t.family_id t ≡ true
unfolding claimable active_in
claimable-active now h t k =
    let same : (t.family_id == t.family_id) ≡ true = (eq_iff _ _).1 refl in ground arith

swept-WellFormed :
    (runs : Bool) (now : ℕ) (f : String) (rows : List RefreshToken)
    → WellFormed rows
    → WellFormed (if runs then (revoke_family now f rows).1 else rows)
unfolding revoke_family
swept-WellFormed true now f rows w = revoke-WellFormed now (active_in f) rows w
swept-WellFormed false now f rows w = w

-- So does a new row whose hash is new and whose family has no active token.
pub insert-WellFormed :
    (t : RefreshToken) (rows : List RefreshToken)
    → WellFormed rows
    → any (λ u. u.token_hash == t.token_hash) rows ≡ false
    → count_where (active_in t.family_id) rows ≡ 0
    → WellFormed (t ∷ rows)
unfolding count_where active_in
insert-WellFormed t rows w new free = record {
  one_hash = λ h.
      let one = w.one_hash h in
      let none = any-count_where (λ u. u.token_hash == t.token_hash) rows new in
      elim (Bool-cases (t.token_hash == h)) [
        | inl b ↦
            let zero =
              subst (λ k. count_where (λ u. u.token_hash == k) rows ≡ 0) ((eq_iff _ _).0 b) none in
            rw b (omega arith)
        | inr b ↦ rw b one
      ];
  one_active = λ f.
      let one = w.one_active f in
      elim (Bool-cases (active_in f t)) [
        | inl b ↦
            let zero =
              subst (λ k. count_where (active_in k) rows ≡ 0) ((eq_iff _ _).0 (same_family t f b))
                free in
            rw b (omega arith)
        | inr b ↦ rw b one
      ];
}

pub issue-eq_ok :
    (hash : String → String) (call : IssueCall) (params : RefreshTokenParams)
    (rows : List RefreshToken) {out : RefreshTokenResult} {rows' : List RefreshToken}
    → issue_refresh_token hash call params rows ≡ ok (out, rows')
    → (t : RefreshToken) × (rows' ≡ (t ∷ rows))
      × (t.family_id ≡ call.family_id)
      × (any (λ u. u.token_hash == t.token_hash) rows ≡ false)
unfolding issue_refresh_token
issue-eq_ok hash call params rows {out} {rows'} h =
    let (raw, made, h1) =
      >>=-eq_ok (or_fail (generate_refresh_token call.random) generate_failed) _ h in
    let (rs, put, h2) = >>=-eq_ok (or_fail (create call.stored _ rows) store_failed) _ h1 in
    let (fresh, e) = create-eq_some call.stored _ rows (or_fail-eq_ok _ _ put) in
    let same : rs ≡ rows' = cc h2 in (_, sym same ∙ e, refl, fresh)

-- No active token of the family is left once one is claimed, and its successor is then the only one.
rotated-WellFormed :
    (call : RotateCall) (h new_hash : String) (expires_at : ℕ) (presented : String)
    (rows : List RefreshToken) {claimed : RefreshToken} {rows' : List RefreshToken}
    → WellFormed rows
    → Committed call h new_hash expires_at presented rows (claimed, rows')
    → WellFormed rows'
rotated-WellFormed call h new_hash expires_at presented rows {claimed} {rows'} w c =
    let p = claimable call.claimed_at h in
    let f = set_revoked call.claimed_at in
    let next = successor (f c.old) new_hash expires_at in
    let less =
      count_where-update_where_drop p (active_in c.old.family_id) f rows
        (λ t hit. set_revoked-off call.claimed_at c.old.family_id t) c.stood c.live
        (claimable-active call.claimed_at h c.old c.live) in
    let one = w.one_active c.old.family_id in
    subst WellFormed (sym (ap (λ (x : RefreshToken × List RefreshToken). x.1) c.result)) (
      insert-WellFormed next (update_where p f rows) (revoke-WellFormed call.claimed_at p rows w)
        (unfold successor in c.fresh) (unfold successor set_revoked in omega arith))

Step-WellFormed :
    (hash : String → String) {rows rows' : List RefreshToken}
    → WellFormed rows
    → Step hash rows rows'
    → WellFormed rows'
Step-WellFormed hash {rows} w (issue call params unused done) =
    let (t, e, family, fresh) = issue-eq_ok hash call params rows done in
    let none =
      any-narrower (active_in t.family_id) (λ u. u.family_id == call.family_id) rows
        (λ u miss.
          other_family u t.family_id (subst (λ k. (u.family_id == k) ≡ false) (sym family) miss))
        unused in
    subst WellFormed (sym e) (insert-WellFormed t rows w fresh (any-count_where _ rows none))
Step-WellFormed hash {rows} {rows'} w
      (rotate call raw ttl presented {res = ok (claimed, out)} done) =
    let (new_raw, made, o, c) = rotate-Committed hash call raw ttl presented rows done in
    rotated-WellFormed call (hash raw) (hash new_raw) _ presented rows w c
Step-WellFormed hash {rows} w (rotate call raw ttl presented {res = err e} done) =
    elim (rotate-error hash call raw ttl presented rows done) [
      | inl kept ↦ subst WellFormed (sym kept) w
      | inr d ↦
          subst WellFormed (sym d.swept)
            (swept-WellFormed call.revoke_runs call.revoked_at d.existing.family_id rows w)
    ]
Step-WellFormed hash {rows} w (revoke now family done) =
    subst WellFormed done (swept-WellFormed true now family rows w)

-- Over any sequence of issued families, rotations (whatever their outcome) and family revocations, a
-- table in which no hash stands twice and no family has two active tokens stays such a table, provided
-- that each new family has an identifier that no row has.
pub Steps-WellFormed :
    (hash : String → String) {rows rows' : List RefreshToken}
    → WellFormed rows
    → Steps hash rows rows'
    → WellFormed rows'
Steps-WellFormed hash w start = w
Steps-WellFormed hash w (then_step before step) =
    Step-WellFormed hash (Steps-WellFormed hash w before) step

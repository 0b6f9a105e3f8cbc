-- ===== src/Refresh/Reuse.antt =====
-- What `handleFailedClaim` does, and with it every rotation that returns an error.
use mathlib.Core.Path.{subst}
use zeroid.Prelude.{
  ℕ, ◌≡◌, ◌⊎◌, refl, sym, ◌∙◌, ap, inl, inr, String, Bool, true, false, none, List, ◌==◌, Memᴰ,
  Bool-cases, Option-cases, if◌then◌else◌, ltb, eq_iff,
}
use zeroid.Prelude.Int.{ℤ}
use zeroid.Prelude.Result.{Result, ok, err}
use zeroid.Prelude.Table.{find-eq_some}
use zeroid.Refresh.Defs.{
  RefreshTokenState, RefreshToken, RefreshError, reuse_detected, generate_refresh_token,
}
use zeroid.Refresh.Store.{get_including_revoked, revoke_family}
use zeroid.Refresh.Rotate.{
  RotateCall, in_grace, reject, reject_found, TxError, handle_failed_claim, after_tx, Rotation,
  rotate_refresh_token, no_rows, binding_mismatch, database_error,
}

-- Reuse was detected: the presented token was revoked, not in the grace window, and its family is
-- revoked, if the database runs the update.
pub record Detected (call : RotateCall) (h : String) (rows : List RefreshToken) (e : RefreshError)
    (rows' : List RefreshToken) : Type 0 where
  pub existing : RefreshToken
  pub stood : Memᴰ existing rows
  pub presented : existing.token_hash ≡ h
  pub revoked : existing.state ≡ RefreshTokenState.revoked
  pub late : in_grace call.since existing.revoked_at ≡ false
  pub error : e ≡ reuse_detected
  pub swept : rows' ≡ (
      if call.revoke_runs then (revoke_family call.revoked_at existing.family_id rows).1 else rows)

-- The answer to the row `existing`, in state `st`.
reject-cases :
    (call : RotateCall) (existing : RefreshToken) (h : String) (st : RefreshTokenState)
    (rows : List RefreshToken)
    → Memᴰ existing rows
    → existing.token_hash ≡ h
    → existing.state ≡ st
    → ((reject call existing st rows).1 ≡ rows)
      ⊎ Detected call h rows ((reject call existing st rows).0) ((reject call existing st rows).1)
unfolding reject
reject-cases call t h RefreshTokenState.active rows m e s =
    elim (Bool-cases (ltb t.expires_at call.after)) [
      | inl b ↦ rw b (inl refl)
      | inr b ↦ rw b (inl refl)
    ]
reject-cases call t h RefreshTokenState.revoked rows m e s =
    elim (Bool-cases (in_grace call.since t.revoked_at)) [
      | inl b ↦ rw b (inl refl)
      | inr b ↦ rw b (
          inr (record {
            existing = t;
            stood = m;
            presented = e;
            revoked = s;
            late = b;
            error = refl;
            swept = refl;
          }))
    ]

pub handle_failed_claim-cases :
    (call : RotateCall) (h : String) (rows : List RefreshToken)
    → ((handle_failed_claim call h rows).1 ≡ rows)
      ⊎ Detected call h rows
          ((handle_failed_claim call h rows).0)
          ((handle_failed_claim call h rows).1)
unfolding handle_failed_claim reject_found get_including_revoked
handle_failed_claim-cases call h rows = go call.found
  where
    go :
        (b : Bool)
        → (let out = reject_found call (if b then get_including_revoked h rows else none) rows in
            (out.1 ≡ rows) ⊎ Detected call h rows (out.0) (out.1))
    go false = inl refl
    go true = elim (Option-cases (get_including_revoked h rows)) [
      | inl gone ↦ rw gone (inl refl)
      | inr (t, got) ↦
          let (named, m) = find-eq_some (λ u. u.token_hash == h) rows got in
          rw got (reject-cases call t h t.state rows m ((eq_iff _ _).0 named) refl)
    ]

-- Whenever `RotateRefreshToken` returns an error, the table is as it was, unless the error reports
-- reuse: then the presented token stood in the table, revoked and outside the grace window, and the update
-- that revokes its family was run, if the database ran it.
pub rotate-error :
    (hash : String → String) (call : RotateCall) (raw : String) (ttl : ℤ) (presented : String)
    (rows : List RefreshToken) {e : RefreshError} {rows' : List RefreshToken}
    → rotate_refresh_token hash call raw ttl presented rows ≡ (err e, rows')
    → (rows' ≡ rows) ⊎ Detected call (hash raw) rows e rows'
unfolding rotate_refresh_token after_tx
rotate-error hash call raw ttl presented rows {e} {rows'} h =
    elim (Option-cases (generate_refresh_token call.random)) [
      | inl failed ↦ inl (sym (ap (λ (x : Rotation). x.1) (rw (failed, rotate_refresh_token) at h)))
      | inr (new_raw, made) ↦ settled new_raw _ _ (rw (made, rotate_refresh_token) at h)
    ]
  where
    settled :
        (new_raw : String) (expires_at : ℕ) (r : Result TxError (RefreshToken × List RefreshToken))
        → after_tx call (hash raw) new_raw expires_at rows r ≡ (err e, rows')
        → (rows' ≡ rows) ⊎ Detected call (hash raw) rows e rows'
    settled new_raw expires_at (ok (c, rs)) k = cc (ap (λ (x : Rotation). x.0) k)
    settled new_raw expires_at (err binding_mismatch) k = inl (sym (ap (λ (x : Rotation). x.1) k))
    settled new_raw expires_at (err database_error) k = inl (sym (ap (λ (x : Rotation). x.1) k))
    settled new_raw expires_at (err no_rows) k =
        let same : (handle_failed_claim call (hash raw) rows).0 ≡ e =
          cc (ap (λ (x : Rotation). x.0) k) in
        let left : (handle_failed_claim call (hash raw) rows).1 ≡ rows' =
          ap (λ (x : Rotation). x.1) k in
        elim (handle_failed_claim-cases call (hash raw) rows) [
          | inl kept ↦ inl (sym left ∙ kept)
          | inr found ↦ inr (
              subst (λ x. Detected call (hash raw) rows e x) left
                (subst
                  (λ x.
                    Detected call (hash raw) rows x (handle_failed_claim call (hash raw) rows).1)
                  same found))
        ]

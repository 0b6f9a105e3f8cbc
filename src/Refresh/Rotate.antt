-- ===== src/Refresh/Rotate.antt =====
-- `IssueRefreshToken`, `RotateRefreshToken` and `handleFailedClaim` of
-- internal/service/refresh_token.go. SHA-256 is the parameter `hash`; the readings of the clock, the
-- random bytes and the outcomes of the database are arguments of the call.
use zeroid.Prelude.{
  ℕ, ◌-◌, String, Bool, false, Option, none, some, List, ◌==◌, ◌||◌, if◌then◌else◌, ltb,
}
use zeroid.Prelude.Int.{ℤ}
use zeroid.Prelude.Result.{Result, ok, err, ◌>>=◌, ◌>>◌, require, or_fail}
use zeroid.Refresh.Defs.{
  RefreshTokenState, RefreshToken, reuse_grace_window, RefreshTokenParams, RefreshTokenResult,
  RefreshError, generate_failed, store_failed, rotation_failed, dpop_binding_mismatch, not_found,
  already_rotated, reuse_detected, token_expired, unexpected_state, refresh_expiry,
  generate_refresh_token,
}
use zeroid.Refresh.Store.{create, get_including_revoked, claim_by_token_hash, revoke_family}

-- What a call to `IssueRefreshToken` reads.
pub record IssueCall : Type 0 where
  pub random : Option String
  pub family_id : String
  pub now : ℕ
  pub stored : Bool

unfoldable pub issue_refresh_token :
    (String → String)
    → IssueCall
    → RefreshTokenParams
    → List RefreshToken
    → Result RefreshError (RefreshTokenResult × List RefreshToken)
issue_refresh_token hash call params rows = do
  raw ← or_fail (generate_refresh_token call.random) generate_failed
  let expires_at = refresh_expiry call.now params.ttl
  rows' ←
      or_fail
        (create call.stored
          (record {
            token_hash = hash raw;
            client_id = params.client_id;
            account_id = params.account_id;
            project_id = params.project_id;
            user_id = params.user_id;
            identity_id = params.identity_id;
            scopes = params.scopes;
            family_id = call.family_id;
            state = RefreshTokenState.active;
            expires_at = expires_at;
            revoked_at = none;
            dpop_key_thumbprint = params.dpop_key_thumbprint;
          })
          rows)
        store_failed
  ok (record { raw_token = raw; family_id = call.family_id; expires_at = expires_at }, rows')

-- What a call to `RotateRefreshToken` reads: `claim_runs` and `stored` are the outcomes of the two
-- statements of the transaction, `committed` that of its end, and `found` that of the later look-up.
pub record RotateCall : Type 0 where
  pub random : Option String
  pub now : ℕ
  pub claim_runs : Bool
  pub claimed_at : ℕ
  pub stored : Bool
  pub committed : Bool
  pub found : Bool
  pub since : ℕ
  pub revoke_runs : Bool
  pub revoked_at : ℕ
  pub after : ℕ

unfoldable pub binding_ok : String → String → Bool
binding_ok bound presented = bound == "" || bound == presented

-- the row that replaces the claimed one
unfoldable pub successor : RefreshToken → String → ℕ → RefreshToken
successor c new_hash expires_at = record c {
  token_hash = new_hash;
  state = RefreshTokenState.active;
  expires_at = expires_at;
  revoked_at = none;
}

pub data TxError : Type 0 where
  no_rows binding_mismatch database_error : TxError

-- the body of the transaction: the claimed row, and the table that a commit leaves
unfoldable pub rotate_in_tx :
    RotateCall
    → String
    → String
    → ℕ
    → String
    → List RefreshToken
    → Result TxError (RefreshToken × List RefreshToken)
rotate_in_tx call h new_hash expires_at presented rows = do
  require call.claim_runs database_error
  claim ← or_fail (claim_by_token_hash call.claimed_at h rows) no_rows
  require (binding_ok (claim.0).dpop_key_thumbprint presented) binding_mismatch
  rows' ←
      or_fail (create call.stored (successor (claim.0) new_hash expires_at) (claim.1))
        database_error
  require call.committed database_error
  ok (claim.0, rows')

-- `existing.RevokedAt != nil && time.Since(*existing.RevokedAt) < RefreshTokenReuseGraceWindow`
unfoldable pub in_grace : ℕ → Option ℕ → Bool
in_grace since none = false
in_grace since (some at) = ltb (since - at) reuse_grace_window

-- the answer to a row that could not be claimed, by its state
unfoldable pub reject :
    RotateCall
    → RefreshToken
    → RefreshTokenState
    → List RefreshToken
    → RefreshError × List RefreshToken
reject call existing RefreshTokenState.revoked rows =
    if in_grace call.since existing.revoked_at then (already_rotated, rows) else (
      reuse_detected,
      if call.revoke_runs then (revoke_family call.revoked_at existing.family_id rows).1 else rows,
    )
reject call existing RefreshTokenState.active rows =
    if ltb existing.expires_at call.after then (token_expired, rows) else (unexpected_state, rows)

unfoldable pub reject_found :
    RotateCall → Option RefreshToken → List RefreshToken → RefreshError × List RefreshToken
reject_found call none rows = (not_found, rows)
reject_found call (some existing) rows = reject call existing existing.state rows

-- `handleFailedClaim`: always an error, and the table it leaves
unfoldable pub handle_failed_claim :
    RotateCall → String → List RefreshToken → RefreshError × List RefreshToken
handle_failed_claim call h rows =
    reject_found call (if call.found then get_including_revoked h rows else none) rows

abbrev pub Rotation : Type 0
Rotation = Result RefreshError (RefreshToken × RefreshTokenResult) × List RefreshToken

-- what follows the transaction; an error has rolled it back
unfoldable pub after_tx :
    RotateCall
    → String
    → String
    → ℕ
    → List RefreshToken
    → Result TxError (RefreshToken × List RefreshToken)
    → Rotation
after_tx call h raw expires_at rows (ok (claimed, rows')) = (
  ok (claimed, record { raw_token = raw; family_id = claimed.family_id; expires_at = expires_at }),
  rows',
)
after_tx call h raw expires_at rows (err binding_mismatch) = (err dpop_binding_mismatch, rows)
after_tx call h raw expires_at rows (err no_rows) =
    let failed = handle_failed_claim call h rows in (err failed.0, failed.1)
after_tx call h raw expires_at rows (err database_error) = (err rotation_failed, rows)

-- `RotateRefreshToken`
unfoldable pub rotate_refresh_token :
    (String → String) → RotateCall → String → ℤ → String → List RefreshToken → Rotation
rotate_refresh_token hash call raw ttl presented rows = elim (generate_refresh_token call.random) [
  | none ↦ (err generate_failed, rows)
  | some new_raw ↦
      let expires_at = refresh_expiry call.now ttl in
      after_tx call (hash raw) new_raw expires_at rows
        (rotate_in_tx call (hash raw) (hash new_raw) expires_at presented rows)
]

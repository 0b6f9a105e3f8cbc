-- ===== src/Refresh/Transaction.antt =====
-- What a committed rotation has done, read off the code of `RotateRefreshToken`.
use zeroid.Prelude.{
  ℕ, ◌≡◌, ◌∙◌, ap, String, Bool, true, false, none, some, List, ◌∷◌, ◌==◌, Memᴰ, Bool-cases,
  Option-cases, inl, inr,
}
use mathlib.Core.Path.{subst}
use zeroid.Prelude.Int.{ℤ}
use zeroid.Prelude.Result.{Result, ok, err, or_fail, >>=-eq_ok, require-eq_ok, or_fail-eq_ok}
use zeroid.Prelude.Table.{find, any, update_where, find-eq_some}
use zeroid.Refresh.Defs.{RefreshToken, RefreshTokenResult, refresh_expiry, generate_refresh_token}
use zeroid.Refresh.Store.{create, set_revoked, claimable, claim_by_token_hash}
use zeroid.Refresh.Rotate.{
  RotateCall, binding_ok, successor, TxError, rotate_in_tx, after_tx, Rotation,
  rotate_refresh_token, no_rows, database_error, binding_mismatch,
}

pub claim-eq_some :
    (now : ℕ) (h : String) (rows : List RefreshToken) {c : RefreshToken × List RefreshToken}
    → claim_by_token_hash now h rows ≡ some c
    → (old : RefreshToken) × Memᴰ old rows
      × (claimable now h old ≡ true)
      × (c ≡ (set_revoked now old, update_where (claimable now h) (set_revoked now) rows))
unfolding claim_by_token_hash
claim-eq_some now h rows {c} e = elim (Option-cases (find (claimable now h) rows)) [
  | inl gone ↦ let k : none ≡ some c = rw (gone, claim_by_token_hash) at e in cc k
  | inr (old, found) ↦
      let k : some (set_revoked now old, update_where (claimable now h) (set_revoked now) rows)
          ≡ some c =
        rw (found, claim_by_token_hash) at e in
      let (holds, m) = find-eq_some (claimable now h) rows found in (old, m, holds, cc k)
]

pub create-eq_some :
    (stored : Bool) (t : RefreshToken) (rows : List RefreshToken) {out : List RefreshToken}
    → create stored t rows ≡ some out
    → (any (λ u. u.token_hash == t.token_hash) rows ≡ false) × (out ≡ (t ∷ rows))
unfolding create
create-eq_some true t rows e = elim (Bool-cases (any (λ u. u.token_hash == t.token_hash) rows)) [
  | inl taken ↦ cc (rw taken at e)
  | inr free ↦ let k = rw free at e in (free, cc k)
]
create-eq_some false t rows e = cc

-- A committed transaction: the row it claims, and the table it leaves.
pub record Committed (call : RotateCall) (h new_hash : String) (expires_at : ℕ) (presented : String)
    (rows : List RefreshToken) (out : RefreshToken × List RefreshToken) : Type 0 where
  pub old : RefreshToken
  pub stood : Memᴰ old rows
  pub live : claimable call.claimed_at h old ≡ true
  pub bound : binding_ok old.dpop_key_thumbprint presented ≡ true
  pub fresh :
      any
        (λ u. u.token_hash == new_hash)
        (update_where (claimable call.claimed_at h) (set_revoked call.claimed_at) rows)
      ≡ false
  pub result : out ≡ (
    set_revoked call.claimed_at old,
    successor (set_revoked call.claimed_at old) new_hash expires_at
        ∷ update_where (claimable call.claimed_at h) (set_revoked call.claimed_at) rows,
  )

pub rotate_in_tx-Committed :
    (call : RotateCall) (h new_hash : String) (expires_at : ℕ) (presented : String)
    (rows : List RefreshToken) {out : RefreshToken × List RefreshToken}
    → rotate_in_tx call h new_hash expires_at presented rows ≡ ok out
    → Committed call h new_hash expires_at presented rows out
unfolding rotate_in_tx successor set_revoked
rotate_in_tx-Committed call h new_hash expires_at presented rows {out} e =
    let (runs, h1) = require-eq_ok call.claim_runs database_error _ e in
    let (c, claim, h2) =
      >>=-eq_ok (or_fail (claim_by_token_hash call.claimed_at h rows) no_rows) _ h1 in
    let (bound, h3) =
      require-eq_ok (binding_ok (c.0).dpop_key_thumbprint presented) binding_mismatch _ h2 in
    let (rows', put, h4) =
      >>=-eq_ok
        (or_fail (create call.stored (successor (c.0) new_hash expires_at) (c.1)) database_error) _
        h3 in
    let (kept, h5) = require-eq_ok call.committed database_error _ h4 in
    let (old, stood, live, ec) = claim-eq_some call.claimed_at h rows (or_fail-eq_ok _ _ claim) in
    let (fresh, er) =
      create-eq_some call.stored (successor (c.0) new_hash expires_at) (c.1)
        (or_fail-eq_ok _ _ put) in
    let eo : out ≡ (c.0, rows') = cc h5 in
    record {
      old = old;
      stood = stood;
      live = live;
      bound =
          subst
            (λ (d : RefreshToken × List RefreshToken).
              binding_ok (d.0).dpop_key_thumbprint presented ≡ true)
            ec bound;
      fresh =
          subst
            (λ (d : RefreshToken × List RefreshToken).
              any (λ u. u.token_hash == new_hash) (d.1) ≡ false)
            ec fresh;
      result =
          eo
          ∙ ap (λ r. (c.0, r)) er
          ∙ ap
              (λ (d : RefreshToken × List RefreshToken).
                (d.0, successor (d.0) new_hash expires_at ∷ d.1))
              ec;
    }

-- A rotation that returns a token has committed its transaction.
pub rotate-Committed :
    (hash : String → String) (call : RotateCall) (raw : String) (ttl : ℤ) (presented : String)
    (rows : List RefreshToken) {claimed : RefreshToken} {out : RefreshTokenResult}
    {rows' : List RefreshToken}
    → rotate_refresh_token hash call raw ttl presented rows ≡ (ok (claimed, out), rows')
    → (new_raw : String) × (generate_refresh_token call.random ≡ some new_raw)
      × (out ≡ record {
        raw_token = new_raw;
        family_id = claimed.family_id;
        expires_at = refresh_expiry call.now ttl;
      })
      × Committed call
          (hash raw)
          (hash new_raw)
          (refresh_expiry call.now ttl)
          presented
          rows
          (claimed, rows')
unfolding rotate_refresh_token after_tx
rotate-Committed hash call raw ttl presented rows e =
    elim (Option-cases (generate_refresh_token call.random)) [
      | inl failed ↦ cc (rw (failed, rotate_refresh_token) at e)
      | inr (new_raw, made) ↦
          let k = rw (made, rotate_refresh_token) at e in
          let (h, tx) = committed call (hash raw) new_raw (refresh_expiry call.now ttl) rows _ k in
          (
            new_raw,
            made,
            h,
            rotate_in_tx-Committed call (hash raw) (hash new_raw) _ presented rows tx,
          )
    ]
  where
    committed :
        (call : RotateCall) (h new_raw : String) (expires_at : ℕ) (rows : List RefreshToken)
        (r : Result TxError (RefreshToken × List RefreshToken)) {claimed : RefreshToken}
        {out : RefreshTokenResult} {rows' : List RefreshToken}
        → after_tx call h new_raw expires_at rows r ≡ (ok (claimed, out), rows')
        → (out ≡ record {
          raw_token = new_raw;
          family_id = claimed.family_id;
          expires_at = expires_at;
        })
          × (r ≡ ok (claimed, rows'))
    committed call h new_raw expires_at rows (ok (c, rs)) {claimed} {out} {rows'} e =
        let p = ap (λ (x : Rotation). x.0) e in
        let q : rs ≡ rows' = ap (λ (x : Rotation). x.1) e in
        let pc : c ≡ claimed = cc p in (cc p, ap ok (cc (pc, q)))
    committed call h new_raw expires_at rows (err binding_mismatch) e =
        cc (ap (λ (x : Rotation). x.0) e)
    committed call h new_raw expires_at rows (err no_rows) e = cc (ap (λ (x : Rotation). x.0) e)
    committed call h new_raw expires_at rows (err database_error) e =
        cc (ap (λ (x : Rotation). x.0) e)

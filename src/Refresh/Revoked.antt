-- ===== src/Refresh/Revoked.antt =====
-- The outcome of `RotateRefreshToken`, where the database answers, on a token that is revoked.
use zeroid.Prelude.{
  ℕ, ◌≡◌, refl, sym, ◌∙◌, ap, inl, inr, String, true, false, none, some, List, ◌==◌, Memᴰ,
  Bool-cases, Option-cases, if◌then◌else◌, eq_iff,
}
use zeroid.Prelude.Int.{ℤ}
use zeroid.Prelude.Result.{err}
use zeroid.Prelude.Table.{find, count_where, find-Mem, find-eq_some, count_where-update_where_self}
use zeroid.Refresh.Defs.{
  RefreshTokenState, RefreshToken, is_active, generate_refresh_token, refresh_expiry,
  already_rotated, reuse_detected,
}
use zeroid.Refresh.Store.{
  claimable, claim_by_token_hash, get_including_revoked, set_revoked, revoke_family, active_in,
}
use zeroid.Refresh.Rotate.{
  RotateCall, rotate_in_tx, in_grace, reject, reject_found, handle_failed_claim, after_tx,
  rotate_refresh_token, no_rows,
}
use zeroid.Refresh.OneActive.{WellFormed}
use zeroid.Refresh.Outcome.{same_row, claimable-hash}

revoked-not_claimable :
    (now : ℕ) (h : String) (t : RefreshToken)
    → t.state ≡ RefreshTokenState.revoked
    → claimable now h t ≡ false
unfolding claimable is_active
revoked-not_claimable now h t e =
    rw e (elim (Bool-cases (t.token_hash == h)) [ inl b ↦ rw b refl | inr b ↦ rw b refl ])

claim-revoked :
    (now : ℕ) (h : String) {rows : List RefreshToken} {t : RefreshToken}
    → WellFormed rows
    → Memᴰ t rows
    → t.token_hash ≡ h
    → t.state ≡ RefreshTokenState.revoked
    → claim_by_token_hash now h rows ≡ none
unfolding claim_by_token_hash
claim-revoked now h {rows} {t} w m named revoked =
    elim (Option-cases (find (claimable now h) rows)) [
      | inl gone ↦ rw (gone, claim_by_token_hash) refl
      | inr (u, found) ↦
          let (hit, mu) = find-eq_some (claimable now h) rows found in
          let e : u ≡ t = same_row w mu m (claimable-hash now h u hit ∙ sym named) in
          let miss : claimable now h u ≡ false =
            revoked-not_claimable now h u (ap (λ (v : RefreshToken). v.state) e ∙ revoked) in
          cc (hit, miss)
    ]

lookup-some :
    (h : String) {rows : List RefreshToken} {t : RefreshToken}
    → WellFormed rows
    → Memᴰ t rows
    → t.token_hash ≡ h
    → get_including_revoked h rows ≡ some t
unfolding get_including_revoked
lookup-some h {rows} {t} w m named =
    let (u, found) = find-Mem (λ v. v.token_hash == h) m ((eq_iff _ _).1 named) in
    let (hit, mu) = find-eq_some (λ v. v.token_hash == h) rows found in
    found ∙ ap some (same_row w mu m ((eq_iff _ _).0 hit ∙ sym named))

-- After `RevokeFamily` no token of the family is active.
revoke_family-none_left :
    (now : ℕ) (f : String) (rows : List RefreshToken)
    → count_where (active_in f) (revoke_family now f rows).1 ≡ 0
unfolding revoke_family
revoke_family-none_left now f rows =
    count_where-update_where_self (active_in f) (set_revoked now) rows (λ t hit. off t)
  where
    off : (t : RefreshToken) → active_in f (set_revoked now t) ≡ false
    off t =
        unfold active_in set_revoked is_active in
        elim (Bool-cases (t.family_id == f)) [ inl b ↦ rw b refl | inr b ↦ rw b refl ]

tx-revoked :
    (call : RotateCall) (h new_hash : String) (expires_at : ℕ) (presented : String)
    {rows : List RefreshToken} {t : RefreshToken}
    → WellFormed rows
    → Memᴰ t rows
    → t.token_hash ≡ h
    → t.state ≡ RefreshTokenState.revoked
    → call.claim_runs ≡ true
    → rotate_in_tx call h new_hash expires_at presented rows ≡ err no_rows
unfolding rotate_in_tx
tx-revoked call h new_hash expires_at presented w m named revoked runs =
    simp (runs, claim-revoked call.claimed_at h w m named revoked) refl

failed-revoked :
    (call : RotateCall) (h : String) {rows : List RefreshToken} {t : RefreshToken}
    → WellFormed rows
    → Memᴰ t rows
    → t.token_hash ≡ h
    → t.state ≡ RefreshTokenState.revoked
    → call.found ≡ true
    → call.revoke_runs ≡ true
    → handle_failed_claim call h rows ≡ (
        if in_grace call.since t.revoked_at
        then (already_rotated, rows)
        else (reuse_detected, (revoke_family call.revoked_at t.family_id rows).1))
unfolding handle_failed_claim reject_found reject
failed-revoked call h w m named revoked found runs =
    simp (found, lookup-some h w m named, revoked, runs) refl

-- The presented token is revoked and within the grace window, and the database answers: the rotation reports a
-- token already rotated and leaves the table as it was.
pub rotate-in_grace :
    (hash : String → String) (call : RotateCall) (raw new_raw : String) (ttl : ℤ)
    (presented : String) {rows : List RefreshToken} {t : RefreshToken}
    → WellFormed rows
    → Memᴰ t rows
    → t.token_hash ≡ hash raw
    → t.state ≡ RefreshTokenState.revoked
    → in_grace call.since t.revoked_at ≡ true
    → generate_refresh_token call.random ≡ some new_raw
    → call.claim_runs ≡ true
    → call.found ≡ true
    → call.revoke_runs ≡ true
    → rotate_refresh_token hash call raw ttl presented rows ≡ (err already_rotated, rows)
unfolding rotate_refresh_token after_tx
rotate-in_grace hash call raw new_raw ttl presented {rows} {t} w m named revoked inside made runs
      found revokes =
    let tx =
      tx-revoked call (hash raw) (hash new_raw) (refresh_expiry call.now ttl) presented w m named
        revoked runs in
    let failed = failed-revoked call (hash raw) w m named revoked found revokes in
    rw (made, rotate_refresh_token) (rw tx (simp (failed, inside) refl))

-- The presented token is revoked and outside the grace window, and the database answers: the rotation reports reuse
-- and leaves no token of the family active.
pub rotate-reuse :
    (hash : String → String) (call : RotateCall) (raw new_raw : String) (ttl : ℤ)
    (presented : String) {rows : List RefreshToken} {t : RefreshToken}
    → WellFormed rows
    → Memᴰ t rows
    → t.token_hash ≡ hash raw
    → t.state ≡ RefreshTokenState.revoked
    → in_grace call.since t.revoked_at ≡ false
    → generate_refresh_token call.random ≡ some new_raw
    → call.claim_runs ≡ true
    → call.found ≡ true
    → call.revoke_runs ≡ true
    → (rows' : List RefreshToken) × (rotate_refresh_token hash call raw ttl presented rows
        ≡ (err reuse_detected, rows'))
      × (count_where (active_in t.family_id) rows' ≡ 0)
unfolding rotate_refresh_token after_tx
rotate-reuse hash call raw new_raw ttl presented {rows} {t} w m named revoked outside made runs
      found revokes =
    let tx =
      tx-revoked call (hash raw) (hash new_raw) (refresh_expiry call.now ttl) presented w m named
        revoked runs in
    let failed = failed-revoked call (hash raw) w m named revoked found revokes in
    (
      (revoke_family call.revoked_at t.family_id rows).1,
      rw (made, rotate_refresh_token) (rw tx (simp (failed, outside) refl)),
      revoke_family-none_left call.revoked_at t.family_id rows,
    )

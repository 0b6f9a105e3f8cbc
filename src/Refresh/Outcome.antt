-- ===== src/Refresh/Outcome.antt =====
-- internal/service/refresh_token.go: `RotateRefreshToken` on a live token, where the database answers.
use zeroid.Prelude.{
  ℕ, ◌≡◌, refl, sym, ◌∙◌, ap, inl, inr, String, true, false, some, List, ◌∷◌, ◌==◌, Memᴰ,
  Bool-cases, if◌then◌else◌, eq_iff, arith,
}
use zeroid.Prelude.Int.{ℤ}
use zeroid.Prelude.Result.{ok, err}
use zeroid.Prelude.Table.{
  find, any, update_where, count_where_unique, find-Mem, find-eq_some, any-update_where,
}
use zeroid.Refresh.Defs.{
  RefreshToken, generate_refresh_token, refresh_expiry, dpop_binding_mismatch,
}
use zeroid.Refresh.Store.{create, claimable, claim_by_token_hash, set_revoked}
use zeroid.Refresh.Rotate.{
  RotateCall, binding_ok, successor, rotate_in_tx, after_tx, rotate_refresh_token, binding_mismatch,
}
use zeroid.Refresh.OneActive.{WellFormed}

-- The row with a given hash is the only one.
pub same_row :
    {rows : List RefreshToken} {t u : RefreshToken}
    → WellFormed rows
    → Memᴰ t rows
    → Memᴰ u rows
    → t.token_hash ≡ u.token_hash
    → t ≡ u
same_row {rows} {t} {u} w mt mu e =
    count_where_unique (λ v. v.token_hash == u.token_hash) (w.one_hash u.token_hash) mt mu
      ((eq_iff _ _).1 e) ((eq_iff _ _).1 refl)

pub claimable-hash :
    (now : ℕ) (h : String) (t : RefreshToken) → claimable now h t ≡ true → t.token_hash ≡ h
unfolding claimable
claimable-hash now h t k =
    let named : (t.token_hash == h) ≡ true = ground arith in (eq_iff _ _).0 named

claim-live :
    (now : ℕ) (h : String) {rows : List RefreshToken} {old : RefreshToken}
    → WellFormed rows
    → Memᴰ old rows
    → claimable now h old ≡ true
    → claim_by_token_hash now h rows
      ≡ some (set_revoked now old, update_where (claimable now h) (set_revoked now) rows)
unfolding claim_by_token_hash
claim-live now h {rows} {old} w m live =
    let (t, found) = find-Mem (claimable now h) m live in
    let (hit, mt) = find-eq_some (claimable now h) rows found in
    let e : t ≡ old =
      same_row w mt m (claimable-hash now h t hit ∙ sym (claimable-hash now h old live)) in
    let found' : find (claimable now h) rows ≡ some old = found ∙ ap some e in
    rw (found', claim_by_token_hash) refl

tx-live :
    (call : RotateCall) (h new_hash : String) (expires_at : ℕ) (presented : String)
    {rows : List RefreshToken} {old : RefreshToken}
    → WellFormed rows
    → Memᴰ old rows
    → claimable call.claimed_at h old ≡ true
    → any (λ t. t.token_hash == new_hash) rows ≡ false
    → call.claim_runs ≡ true
    → call.stored ≡ true
    → call.committed ≡ true
    → rotate_in_tx call h new_hash expires_at presented rows ≡ (
        if binding_ok old.dpop_key_thumbprint presented
        then ok (
          set_revoked call.claimed_at old,
          successor (set_revoked call.claimed_at old) new_hash expires_at
              ∷ update_where (claimable call.claimed_at h) (set_revoked call.claimed_at) rows,
        )
        else err binding_mismatch)
unfolding rotate_in_tx create set_revoked successor
tx-live call h new_hash expires_at presented {rows} {old} w m live fresh runs stored committed =
    let still : any (λ t. t.token_hash == new_hash)
          (update_where (claimable call.claimed_at h) (set_revoked call.claimed_at) rows)
        ≡ false =
      any-update_where (claimable call.claimed_at h) (λ t. t.token_hash == new_hash)
        (set_revoked call.claimed_at) rows (λ t. refl)
      ∙ fresh in
    simp (runs, claim-live call.claimed_at h w m live, stored, still, committed)
      (elim (Bool-cases (binding_ok old.dpop_key_thumbprint presented)) [
        | inl b ↦ rw b refl
        | inr b ↦ rw b refl
      ])

-- The presented token is active and not expired, and the database answers: the rotation succeeds if the
-- token is unbound or bound to the presented key, and otherwise reports the mismatch and leaves the table
-- as it was.
pub rotate-live :
    (hash : String → String) (call : RotateCall) (raw new_raw : String) (ttl : ℤ)
    (presented : String) {rows : List RefreshToken} {old : RefreshToken}
    → WellFormed rows
    → Memᴰ old rows
    → claimable call.claimed_at (hash raw) old ≡ true
    → generate_refresh_token call.random ≡ some new_raw
    → any (λ t. t.token_hash == hash new_raw) rows ≡ false
    → call.claim_runs ≡ true
    → call.stored ≡ true
    → call.committed ≡ true
    → rotate_refresh_token hash call raw ttl presented rows ≡ (
        if binding_ok old.dpop_key_thumbprint presented
        then (
          ok (
            set_revoked call.claimed_at old,
            record {
              raw_token = new_raw;
              family_id = old.family_id;
              expires_at = refresh_expiry call.now ttl;
            },
          ),
          successor (set_revoked call.claimed_at old) (hash new_raw) (refresh_expiry call.now ttl)
              ∷ update_where
                  (claimable call.claimed_at (hash raw))
                  (set_revoked call.claimed_at)
                  rows,
        )
        else (err dpop_binding_mismatch, rows))
unfolding rotate_refresh_token after_tx
rotate-live hash call raw new_raw ttl presented {rows} {old} w m live made fresh runs stored
      committed =
    rw (made, rotate_refresh_token)
      (rw
        (tx-live call (hash raw) (hash new_raw) (refresh_expiry call.now ttl) presented w m live
          fresh runs stored committed)
        (elim (Bool-cases (binding_ok old.dpop_key_thumbprint presented)) [
          | inl b ↦ rw b (unfold set_revoked in refl)
          | inr b ↦ rw b refl
        ]))

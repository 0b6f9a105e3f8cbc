-- ===== src/Refresh/SingleUse.antt =====
-- internal/service/refresh_token.go: what becomes of the hash of a token that has been rotated, over the
-- operations that follow.
use mathlib.Core.Path.{subst}
use zeroid.Prelude.{
  ℕ, ◌≡◌, refl, sym, ◌∙◌, ap, inl, inr, String, Bool, true, false, List, ◌∷◌, ◌==◌, ◌&&◌,
  Bool-cases, eq_iff, arith,
}
use zeroid.Prelude.Int.{ℤ}
use zeroid.Prelude.Result.{Result, ok, err}
use zeroid.Prelude.Table.{
  any, update_where, count_where, count_where-update_where, count_where-update_where_drop,
  count_where-narrower, any-update_where, any-Mem, count_where-Mem,
}
use zeroid.Refresh.Defs.{RefreshToken, RefreshTokenResult, RefreshError, is_active}
use zeroid.Refresh.Store.{set_revoked, claimable, active_in, revoke_family}
use zeroid.Refresh.Rotate.{RotateCall, successor, rotate_refresh_token}
use zeroid.Refresh.Transaction.{Committed, rotate-Committed}
use zeroid.Refresh.Reuse.{rotate-error}
use zeroid.Refresh.OneActive.{
  WellFormed, Step, issue, rotate, revoke, Steps, start, then_step, issue-eq_ok,
}

abbrev has_hash : String → RefreshToken → Bool
has_hash h t = t.token_hash == h

abbrev live : String → RefreshToken → Bool
live h t = t.token_hash == h && is_active t.state

-- The hash stands in the table, and no row with it is active.
record Spent (h : String) (rows : List RefreshToken) : Type 0 where
  present : any (has_hash h) rows ≡ true
  dead : count_where (live h) rows ≡ 0

live-off : (now : ℕ) (h : String) (t : RefreshToken) → live h (set_revoked now t) ≡ false
unfolding set_revoked is_active
live-off now h t = elim (Bool-cases (t.token_hash == h)) [ inl b ↦ rw b refl | inr b ↦ rw b refl ]

revoke-Spent :
    (now : ℕ) (p : RefreshToken → Bool) (h : String) (rows : List RefreshToken)
    → Spent h rows
    → Spent h (update_where p (set_revoked now) rows)
unfolding set_revoked
revoke-Spent now p h rows s =
    let less =
      count_where-update_where p (live h) (set_revoked now) rows (λ t hit. live-off now h t) in
    let zero = s.dead in
    record {
      present = any-update_where p (has_hash h) (set_revoked now) rows (λ t. refl) ∙ s.present;
      dead = omega arith;
    }

insert-Spent :
    (t : RefreshToken) (h : String) (rows : List RefreshToken)
    → any (λ u. u.token_hash == t.token_hash) rows ≡ false
    → Spent h rows
    → Spent h (t ∷ rows)
unfolding any count_where
insert-Spent t h rows fresh s =
    let other : (t.token_hash == h) ≡ false = elim (Bool-cases (t.token_hash == h)) [
      | inl same ↦
          let e : any (has_hash h) rows ≡ false =
            subst (λ k. any (λ u. u.token_hash == k) rows ≡ false) ((eq_iff _ _).0 same) fresh in
          cc (e, s.present)
      | inr b ↦ b
    ] in
    record { present = rw other s.present; dead = rw other s.dead }

rotated-Spent :
    (call : RotateCall) (h g new_hash : String) (expires_at : ℕ) (presented : String)
    (rows : List RefreshToken) {claimed : RefreshToken} {rows' : List RefreshToken}
    → Spent g (update_where (claimable call.claimed_at h) (set_revoked call.claimed_at) rows)
    → Committed call h new_hash expires_at presented rows (claimed, rows')
    → Spent g rows'
rotated-Spent call h g new_hash expires_at presented rows s c =
    subst (Spent g) (sym (ap (λ (x : RefreshToken × List RefreshToken). x.1) c.result))
      (insert-Spent _ g _ (unfold successor in c.fresh) s)

Step-Spent :
    (hash : String → String) (h : String) {rows rows' : List RefreshToken}
    → Spent h rows
    → Step hash rows rows'
    → Spent h rows'
unfolding revoke_family
Step-Spent hash h {rows} s (issue call params unused done) =
    let (t, e, family, fresh) = issue-eq_ok hash call params rows done in
    subst (Spent h) (sym e) (insert-Spent t h rows fresh s)
Step-Spent hash h {rows} s (rotate call raw ttl presented {res = ok (claimed, out)} done) =
    let (new_raw, made, o, c) = rotate-Committed hash call raw ttl presented rows done in
    rotated-Spent call (hash raw) h (hash new_raw) _ presented rows (revoke-Spent _ _ h rows s) c
Step-Spent hash h {rows} s (rotate call raw ttl presented {res = err e} done) =
    elim (rotate-error hash call raw ttl presented rows done) [
      | inl kept ↦ subst (Spent h) (sym kept) s
      | inr d ↦ subst (Spent h) (sym d.swept) (elim (Bool-cases call.revoke_runs) [
        | inl b ↦ rw b (revoke-Spent _ _ h rows s)
        | inr b ↦ rw b s
      ])
    ]
Step-Spent hash h {rows} s (revoke now family done) =
    subst (Spent h) done (revoke-Spent now (active_in family) h rows s)

Steps-Spent :
    (hash : String → String) (h : String) {rows rows' : List RefreshToken}
    → Spent h rows
    → Steps hash rows rows'
    → Spent h rows'
Steps-Spent hash h s start = s
Steps-Spent hash h s (then_step before step) = Step-Spent hash h (Steps-Spent hash h s before) step

claimable-live :
    (now : ℕ) (h : String) (t : RefreshToken)
    → claimable now h t ≡ true
    → (has_hash h t ≡ true) × (live h t ≡ true)
unfolding claimable
claimable-live now h t k = (ground arith, ground arith)

-- Claiming a token spends its hash, where the hash stands once.
claimed-Spent :
    (call : RotateCall) (h new_hash : String) (expires_at : ℕ) (presented : String)
    (rows : List RefreshToken) {out : RefreshToken × List RefreshToken}
    → WellFormed rows
    → Committed call h new_hash expires_at presented rows out
    → Spent h (update_where (claimable call.claimed_at h) (set_revoked call.claimed_at) rows)
unfolding set_revoked
claimed-Spent call h new_hash expires_at presented rows w c =
    let p = claimable call.claimed_at h in
    let f = set_revoked call.claimed_at in
    let (named, alive) = claimable-live call.claimed_at h c.old c.live in
    let drop =
      count_where-update_where_drop p (live h) f rows (λ t hit. live-off call.claimed_at h t)
        c.stood c.live alive in
    let narrow = count_where-narrower (live h) (has_hash h) rows (λ t k. ground arith) in
    let one = w.one_hash h in
    record {
      present =
          any-update_where p (has_hash h) f rows (λ t. refl) ∙ any-Mem (has_hash h) c.stood named;
      dead = omega arith;
    }

rotate-Spent :
    (hash : String → String) (call : RotateCall) (raw : String) (ttl : ℤ) (presented : String)
    (rows : List RefreshToken) (res : Result RefreshError (RefreshToken × RefreshTokenResult))
    (rows' : List RefreshToken)
    → Spent (hash raw) rows
    → rotate_refresh_token hash call raw ttl presented rows ≡ (res, rows')
    → (e : RefreshError) × (res ≡ err e)
rotate-Spent hash call raw ttl presented rows (err e) rows' s h = (e, refl)
rotate-Spent hash call raw ttl presented rows (ok (claimed, out)) rows' s h =
    let (new_raw, made, o, c) = rotate-Committed hash call raw ttl presented rows h in
    let more =
      count_where-Mem (live (hash raw)) c.stood
        (claimable-live call.claimed_at (hash raw) c.old c.live).1 in
    let zero = s.dead in absurd (omega arith)

-- After a rotation that succeeds on a table in which no hash stands twice, every later presentation of the
-- same token is an error, whichever issues, rotations and family revocations came between.
pub rotate-single_use :
    (hash : String → String) (call : RotateCall) (raw : String) (ttl : ℤ) (presented : String)
    {rows rows' later : List RefreshToken} {claimed : RefreshToken} {out : RefreshTokenResult}
    → WellFormed rows
    → rotate_refresh_token hash call raw ttl presented rows ≡ (ok (claimed, out), rows')
    → Steps hash rows' later
    → (call' : RotateCall) (ttl' : ℤ) (presented' : String)
    → (e : RefreshError) × ((rotate_refresh_token hash call' raw ttl' presented' later).0 ≡ err e)
rotate-single_use hash call raw ttl presented {rows} w h steps call' ttl' presented' =
    let (new_raw, made, o, c) = rotate-Committed hash call raw ttl presented rows h in
    let spent =
      rotated-Spent call (hash raw) (hash raw) (hash new_raw) _ presented rows
        (claimed-Spent call (hash raw) (hash new_raw) _ presented rows w c) c in
    rotate-Spent hash call' raw ttl' presented' _ _ _ (Steps-Spent hash (hash raw) spent steps) refl

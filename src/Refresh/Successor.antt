-- ===== src/Refresh/Successor.antt =====
-- What the successor of a rotated token takes over from it.
use zeroid.Prelude.{
  ℕ, ◌<◌, ◌≡◌, ◌⊎◌, inl, inr, refl, sym, ap, String, true, List, ◌==◌, Memᴰ, Bool-cases, ltb,
  ltb→lt, eq_iff, arith,
}
use mathlib.Core.Path.{subst}
use zeroid.Prelude.Int.{ℤ}
use zeroid.Prelude.Result.{ok}
use zeroid.Refresh.Defs.{RefreshTokenState, RefreshToken, RefreshTokenResult, is_active}
use zeroid.Refresh.Store.{set_revoked, claimable}
use zeroid.Refresh.Rotate.{RotateCall, binding_ok, successor, rotate_refresh_token}
use zeroid.Refresh.Transaction.{rotate-Committed}

-- The columns that a rotation copies.
pub record Inherits (old next : RefreshToken) : Type 0 where
  pub client_id : next.client_id ≡ old.client_id
  pub account_id : next.account_id ≡ old.account_id
  pub project_id : next.project_id ≡ old.project_id
  pub user_id : next.user_id ≡ old.user_id
  pub identity_id : next.identity_id ≡ old.identity_id
  pub scopes : next.scopes ≡ old.scopes
  pub family_id : next.family_id ≡ old.family_id
  pub dpop_key_thumbprint : next.dpop_key_thumbprint ≡ old.dpop_key_thumbprint

pub successor-Inherits :
    (now : ℕ) (old : RefreshToken) (h : String) (expires_at : ℕ)
    → Inherits old (successor (set_revoked now old) h expires_at)
unfolding successor set_revoked
successor-Inherits now old h expires_at = record {
  client_id = refl;
  account_id = refl;
  project_id = refl;
  user_id = refl;
  identity_id = refl;
  scopes = refl;
  family_id = refl;
  dpop_key_thumbprint = refl;
}

claimable-live :
    (now : ℕ) (h : String) (t : RefreshToken)
    → claimable now h t ≡ true
    → (t.token_hash ≡ h) × (t.state ≡ RefreshTokenState.active) × (now < t.expires_at)
unfolding claimable is_active
claimable-live now h t k =
    let named : (t.token_hash == h) ≡ true = ground arith in
    let alive : is_active t.state ≡ true = ground arith in
    let current : ltb now t.expires_at ≡ true = ground arith in
    ((eq_iff _ _).0 named, active_of t.state alive, ltb→lt now t.expires_at current)
  where
    active_of : (st : RefreshTokenState) → is_active st ≡ true → st ≡ RefreshTokenState.active
    active_of RefreshTokenState.active e = refl
    active_of RefreshTokenState.revoked e = cc e

binding_ok-cases :
    (bound presented : String)
    → binding_ok bound presented ≡ true
    → (bound ≡ "") ⊎ (bound ≡ presented)
unfolding binding_ok
binding_ok-cases bound presented h = elim (Bool-cases (bound == "")) [
  | inl b ↦ inl ((eq_iff _ _).0 b)
  | inr b ↦ inr ((eq_iff _ _).0 (rw b at h))
]

-- Whenever a rotation succeeds, the presented token stood in the table, active and not expired when it
-- was claimed, and either unbound or bound to the key of the presented proof; the table has a new
-- active row for the returned token, with the expiry returned and the old row's client, tenant, user,
-- identity, scopes, family and key.
pub rotate-Inherits :
    (hash : String → String) (call : RotateCall) (raw : String) (ttl : ℤ) (presented : String)
    (rows : List RefreshToken) {claimed : RefreshToken} {out : RefreshTokenResult}
    {rows' : List RefreshToken}
    → rotate_refresh_token hash call raw ttl presented rows ≡ (ok (claimed, out), rows')
    → (old : RefreshToken) × (next : RefreshToken) × Memᴰ old rows
      × (old.token_hash ≡ hash raw)
      × (old.state ≡ RefreshTokenState.active)
      × (call.claimed_at < old.expires_at)
      × ((old.dpop_key_thumbprint ≡ "") ⊎ (old.dpop_key_thumbprint ≡ presented))
      × Memᴰ next rows'
      × (next.token_hash ≡ hash out.raw_token)
      × (next.state ≡ RefreshTokenState.active)
      × (next.expires_at ≡ out.expires_at)
      × (out.family_id ≡ old.family_id)
      × Inherits old next
rotate-Inherits hash call raw ttl presented rows {claimed} {out} {rows'} h =
    let (new_raw, made, o, c) = rotate-Committed hash call raw ttl presented rows h in
    let (named, alive, current) = claimable-live call.claimed_at (hash raw) c.old c.live in
    (
      c.old,
      successor (set_revoked call.claimed_at c.old) (hash new_raw) _,
      c.stood,
      named,
      alive,
      current,
      binding_ok-cases c.old.dpop_key_thumbprint presented c.bound,
      subst (Memᴰ _) (sym (ap (λ (x : RefreshToken × List RefreshToken). x.1) c.result))
          (Memᴰ.head refl),
      (unfold successor in rw o refl),
      (unfold successor in refl),
      (unfold successor in rw o refl),
      (let e : claimed ≡ set_revoked call.claimed_at c.old =
            ap (λ (x : RefreshToken × List RefreshToken). x.0) c.result in
          rw o (unfold set_revoked in ap (λ (t : RefreshToken). t.family_id) e)),
      successor-Inherits call.claimed_at c.old (hash new_raw) _,
    )

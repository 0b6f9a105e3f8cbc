-- ===== src/OAuth/Renewal.antt =====
-- internal/service/oauth.go: the grant of a refresh token.
use zeroid.Prelude.{
  ℕ, ◌<◌, ◌≡◌, ◌≢◌, refl, String, true, false, some, List, ◌==◌, ◌||◌, eq_false_of_ne, eq_iff,
  lt→ltb, Memᴰ,
}
use zeroid.Prelude.Int.{ℤ}
use zeroid.Prelude.Result.{ok, err}
use zeroid.Prelude.Table.{any, update_where-intro}
use zeroid.Refresh.Defs.{
  RefreshToken, RefreshTokenResult, RefreshTokenState, is_active, generate_refresh_token,
  refresh_expiry,
}
use zeroid.Refresh.Store.{claimable, set_revoked}
use zeroid.Refresh.Rotate.{rotate_refresh_token, binding_ok, successor}
use zeroid.Refresh.OneActive.{WellFormed}
use zeroid.Refresh.Outcome.{rotate-live}
use zeroid.Refresh.Successor.{Inherits, successor-Inherits}
use zeroid.OAuth.Defs.{OAuthService, GrantCall, World, TokenRequest, invalid_grant}
use zeroid.OAuth.Step.{◌>>=◌}
use zeroid.OAuth.Lookup.{client_by_client_id}
use zeroid.OAuth.RefreshGrant.{client_ttls, rotation_result, rotate, refresh_session, refresh_grant}

-- the lifetime of the new refresh token
abbrev pub refresh_ttl : OAuthService → GrantCall → TokenRequest → ℤ
refresh_ttl s call req = (client_ttls (client_by_client_id s call req.client_id)).1

mismatch-refused :
    (s : OAuthService) (call : GrantCall) (req : TokenRequest) (w : World) (old : RefreshToken)
    (made : RefreshTokenResult) (rows : List RefreshToken)
    → (req.refresh_token_str == "" || req.client_id == "") ≡ false
    → s.has_refresh ≡ true
    → rotate_refresh_token s.lib.sha256_hex call.rotate req.refresh_token_str
        (refresh_ttl s call req)
        req.dpop_key_thumbprint
        w.refresh_tokens
      ≡ (ok (old, made), rows)
    → old.client_id ≢ req.client_id
    → refresh_grant s call req w ≡ (err invalid_grant, record w { refresh_tokens = rows })
unfolding refresh_grant refresh_session rotate rotation_result ◌>>=◌
mismatch-refused s call req w old made rows complete configured rotated other =
    simp (complete, configured, rotated, eq_false_of_ne old.client_id req.client_id other) refl

claimable-live :
    (now : ℕ) (hash : String) (t : RefreshToken)
    → t.token_hash ≡ hash
    → t.state ≡ RefreshTokenState.active
    → now < t.expires_at
    → claimable now hash t ≡ true
unfolding claimable is_active
claimable-live now hash t named alive current =
    let same = (eq_iff t.token_hash hash).1 named in
    let ahead = lt→ltb now t.expires_at current in simp (same, alive, ahead) refl

-- The token that is presented: stored, active, not expired at the claim, and unbound or bound to the key that is
-- presented with it; and the database takes its successor.
pub record Rotatable (s : OAuthService) (call : GrantCall) (req : TokenRequest)
    (rows : List RefreshToken) (old : RefreshToken) (new_raw : String) : Type 0 where
  pub unique : WellFormed rows
  pub stored : Memᴰ old rows
  pub named : old.token_hash ≡ s.lib.sha256_hex req.refresh_token_str
  pub alive : old.state ≡ RefreshTokenState.active
  pub current : call.rotate.claimed_at < old.expires_at
  pub bound : binding_ok old.dpop_key_thumbprint req.dpop_key_thumbprint ≡ true
  pub made : generate_refresh_token call.rotate.random ≡ some new_raw
  pub fresh : any (λ t. t.token_hash == s.lib.sha256_hex new_raw) rows ≡ false
  pub runs : call.rotate.claim_runs ≡ true
  pub takes : call.rotate.stored ≡ true
  pub commits : call.rotate.committed ≡ true

-- What the refused call leaves: the presented token revoked, and an active token in its place whose raw text
-- nobody was given.
pub record Stranded (s : OAuthService) (call : GrantCall) (old : RefreshToken) (new_raw : String)
    (rows : List RefreshToken) : Type 0 where
  pub lost :
      Memᴰ
        (record old { state = RefreshTokenState.revoked; revoked_at = some call.rotate.claimed_at })
        rows
  pub next : RefreshToken
  pub there : Memᴰ next rows
  pub named : next.token_hash ≡ s.lib.sha256_hex new_raw
  pub alive : next.state ≡ RefreshTokenState.active
  pub inherits : Inherits old next

-- A refresh token that can be rotated, presented with the identifier of a client other than the one it was given
-- to, is refused with invalid_grant; but the tables that are left hold it revoked, and an active successor with
-- its client, tenant, user, identity, scopes, family and key, which the answer does not carry.
pub refresh-mismatch :
    (s : OAuthService) (call : GrantCall) (req : TokenRequest) (w : World) (old : RefreshToken)
    (new_raw : String)
    → (req.refresh_token_str == "" || req.client_id == "") ≡ false
    → s.has_refresh ≡ true
    → Rotatable s call req w.refresh_tokens old new_raw
    → old.client_id ≢ req.client_id
    → (rows : List RefreshToken) × (refresh_grant s call req w
        ≡ (err invalid_grant, record w { refresh_tokens = rows }))
      × Stranded s call old new_raw rows
unfolding set_revoked successor
refresh-mismatch s call req w old new_raw complete configured r other =
    let now = call.rotate.claimed_at in
    let hash = s.lib.sha256_hex req.refresh_token_str in
    let live = claimable-live now hash old r.named r.alive r.current in
    let run =
      rotate-live s.lib.sha256_hex call.rotate req.refresh_token_str new_raw
        (refresh_ttl s call req) req.dpop_key_thumbprint r.unique r.stored live r.made r.fresh
        r.runs r.takes r.commits in
    (
      _,
      mismatch-refused s call req w (set_revoked now old) _ _ complete configured
          (rw r.bound at run) other,
      record {
        lost =
            Memᴰ.tail
              (rw live at (update_where-intro (claimable now hash) (set_revoked now) r.stored));
        next =
            successor (set_revoked now old) (s.lib.sha256_hex new_raw)
              (refresh_expiry call.rotate.now (refresh_ttl s call req));
        there = Memᴰ.head refl;
        named = refl;
        alive = refl;
        inherits = successor-Inherits now old (s.lib.sha256_hex new_raw) _;
      },
    )

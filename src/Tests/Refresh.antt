-- ===== src/Tests/Refresh.antt =====
-- Refresh tokens: one family, issued, rotated and presented again.
use Prim.Native.String as Str
use zeroid.Prelude.{
  ℕ, ◌≤◌, ◌≡◌, ◌⊎◌, ◌<◌, refl, String, Bool, true, none, some, List, [], ◌∷◌, Memᴰ, arith,
}
use zeroid.Prelude.Int.{pos}
use zeroid.Prelude.Result.{ok, err}
use zeroid.Prelude.Table.{find, any, update_where, count_where}
use zeroid.Refresh.Defs.{
  RefreshTokenState, RefreshToken, RefreshTokenResult, RefreshError, is_active,
  generate_refresh_token, refresh_expiry, dpop_binding_mismatch, already_rotated, reuse_detected,
}
use zeroid.Refresh.Store.{
  create, set_revoked, claimable, claim_by_token_hash, active_in, revoke_family,
}
use zeroid.Refresh.Rotate.{
  RotateCall, binding_ok, successor, rotate_in_tx, in_grace, after_tx, rotate_refresh_token,
}
use zeroid.Refresh.OneActive.{WellFormed, rotate, revoke, start, then_step, Steps-WellFormed}
use zeroid.Refresh.SingleUse.{rotate-single_use}
use zeroid.Refresh.Successor.{Inherits, rotate-Inherits}
use zeroid.Refresh.Reuse.{Detected, rotate-error}
use zeroid.Refresh.Outcome.{rotate-live}
use zeroid.Refresh.Revoked.{rotate-in_grace, rotate-reuse}

abbrev hash : String → String
hash s = Str.◌++◌ "h:" s

abbrev pub bound : RefreshToken
bound = record {
  token_hash = "h:zid_rt_a";
  client_id = "cli";
  account_id = "acct";
  project_id = "proj";
  user_id = "user";
  identity_id = none;
  scopes = "read";
  family_id = "fam";
  state = RefreshTokenState.active;
  expires_at = 1000;
  revoked_at = none;
  dpop_key_thumbprint = "key";
}

-- the same row, revoked at 100
abbrev used : RefreshToken
used = record bound { state = RefreshTokenState.revoked; revoked_at = some 100 }

abbrev pub call_at : ℕ → RotateCall
call_at t = record {
  random = some "b";
  now = 10;
  claim_runs = true;
  claimed_at = 20;
  stored = true;
  committed = true;
  found = true;
  since = t;
  revoke_runs = true;
  revoked_at = t;
  after = t;
}

abbrev rows : List RefreshToken
rows = bound ∷ []

abbrev revoked_rows : List RefreshToken
revoked_rows = used ∷ []

count_single : (p : RefreshToken → Bool) (t : RefreshToken) → count_where p (t ∷ []) ≤ 1
unfolding count_where
count_single p t = grind arith

pub single : (t : RefreshToken) → WellFormed (t ∷ [])
single t = record { one_hash = λ h. count_single _ t; one_active = λ f. count_single _ t }

abbrev successor_row : RefreshToken
successor_row = record bound { token_hash = "h:zid_rt_b"; expires_at = 60000000010 }

abbrev claimed_row : RefreshToken
claimed_row = record bound { state = RefreshTokenState.revoked; revoked_at = some 20 }

abbrev rotated_rows : List RefreshToken
rotated_rows = successor_row ∷ claimed_row ∷ []

abbrev rotated_result : RefreshTokenResult
rotated_result = record { raw_token = "zid_rt_b"; family_id = "fam"; expires_at = 60000000010 }

rotated :
    rotate_refresh_token hash (call_at 20) "zid_rt_a" (pos 60) "key" rows
    ≡ (ok (claimed_row, rotated_result), rotated_rows)
unfolding rotate_refresh_token after_tx rotate_in_tx generate_refresh_token refresh_expiry
    claim_by_token_hash claimable find update_where set_revoked is_active binding_ok create any
    successor
rotated = refl

-- another key: the token is not consumed
mismatch :
    rotate_refresh_token hash (call_at 20) "zid_rt_a" (pos 60) "stolen" rows
    ≡ (err dpop_binding_mismatch, rows)
unfolding rotate_refresh_token after_tx rotate_in_tx generate_refresh_token refresh_expiry
    claim_by_token_hash claimable find update_where set_revoked is_active binding_ok
mismatch = refl

Steps-WellFormed_example : WellFormed (revoke_family 30 "fam" rotated_rows).1
Steps-WellFormed_example = Steps-WellFormed hash (single bound) (
    then_step (then_step start (rotate (call_at 20) "zid_rt_a" (pos 60) "key" rotated))
      (revoke 30 "fam" refl))

rotate-single_use_example :
    (e : RefreshError) × ((rotate_refresh_token hash
        (call_at 40)
        "zid_rt_a"
        (pos 60)
        "key"
        (revoke_family 30 "fam" rotated_rows).1).0
      ≡ err e)
rotate-single_use_example =
    rotate-single_use hash (call_at 20) "zid_rt_a" (pos 60) "key" (single bound) rotated
      (then_step start (revoke 30 "fam" refl)) (call_at 40) (pos 60) "key"

rotate-Inherits_example :
    (old : RefreshToken) × (next : RefreshToken) × Memᴰ old rows
    × (old.token_hash ≡ "h:zid_rt_a")
    × (old.state ≡ RefreshTokenState.active)
    × (20 < old.expires_at)
    × ((old.dpop_key_thumbprint ≡ "") ⊎ (old.dpop_key_thumbprint ≡ "key"))
    × Memᴰ next rotated_rows
    × (next.token_hash ≡ "h:zid_rt_b")
    × (next.state ≡ RefreshTokenState.active)
    × (next.expires_at ≡ 60000000010)
    × ("fam" ≡ old.family_id)
    × Inherits old next
rotate-Inherits_example = rotate-Inherits hash (call_at 20) "zid_rt_a" (pos 60) "key" rows rotated

rotate-error_example :
    (rows ≡ rows) ⊎ Detected (call_at 20) "h:zid_rt_a" rows dpop_binding_mismatch rows
rotate-error_example = rotate-error hash (call_at 20) "zid_rt_a" (pos 60) "stolen" rows mismatch

rotate-live_example :
    rotate_refresh_token hash (call_at 20) "zid_rt_a" (pos 60) "stolen" rows
    ≡ (err dpop_binding_mismatch, rows)
unfolding claimable is_active generate_refresh_token any binding_ok
rotate-live_example =
    rotate-live hash (call_at 20) "zid_rt_a" "zid_rt_b" (pos 60) "stolen" {old = bound}
      (single bound) (Memᴰ.head refl) refl refl refl refl refl refl

rotate-in_grace_example :
    rotate_refresh_token hash (call_at 200) "zid_rt_a" (pos 60) "key" revoked_rows
    ≡ (err already_rotated, revoked_rows)
unfolding in_grace generate_refresh_token
rotate-in_grace_example =
    rotate-in_grace hash (call_at 200) "zid_rt_a" "zid_rt_b" (pos 60) "key" {t = used} (single used)
      (Memᴰ.head refl) refl refl refl refl refl refl refl

rotate-reuse_example :
    (rows' : List RefreshToken) × (rotate_refresh_token hash
        (call_at 20000000000)
        "zid_rt_a"
        (pos 60)
        "key"
        revoked_rows
      ≡ (err reuse_detected, rows'))
    × (count_where (active_in "fam") rows' ≡ 0)
unfolding in_grace generate_refresh_token
rotate-reuse_example =
    rotate-reuse hash (call_at 20000000000) "zid_rt_a" "zid_rt_b" (pos 60) "key" {t = used}
      (single used) (Memᴰ.head refl) refl refl refl refl refl refl refl

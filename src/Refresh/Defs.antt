-- ===== src/Refresh/Defs.antt =====
-- The data of domain/refresh_token.go and internal/service/refresh_token.go. A time is a number of
-- nanoseconds.
use Prim.Native.String
use zeroid.Prelude.{ℕ, ◌+◌, ◌*◌, String, Bool, true, false, Option, none, some, if◌then◌else◌}
use zeroid.Prelude.Int.{ℤ, pos, lt_int}
use zeroid.Credential.Defs.{second, add_seconds}

-- the two values of the column `state`
pub data RefreshTokenState : Type 0 where
  active revoked : RefreshTokenState

unfoldable pub is_active : RefreshTokenState → Bool
is_active RefreshTokenState.active = true
is_active RefreshTokenState.revoked = false

pub record RefreshToken : Type 0 where
  pub token_hash : String
  pub client_id : String
  pub account_id : String
  pub project_id : String
  pub user_id : String
  pub identity_id : Option String
  pub scopes : String
  pub family_id : String
  pub state : RefreshTokenState
  pub expires_at : ℕ
  pub revoked_at : Option ℕ
  pub dpop_key_thumbprint : String

-- `RefreshTokenReuseGraceWindow`
abbrev pub reuse_grace_window : ℕ
reuse_grace_window = 10 * second

abbrev pub refresh_token_ttl_days : ℕ
refresh_token_ttl_days = 90

pub record RefreshTokenParams : Type 0 where
  pub client_id : String
  pub account_id : String
  pub project_id : String
  pub user_id : String
  pub identity_id : Option String
  pub scopes : String
  pub ttl : ℤ
  pub dpop_key_thumbprint : String

pub record RefreshTokenResult : Type 0 where
  pub raw_token : String
  pub family_id : String
  pub expires_at : ℕ

pub data RefreshError : Type 0 where
  generate_failed store_failed rotation_failed : RefreshError
  dpop_binding_mismatch not_found already_rotated reuse_detected : RefreshError
  token_expired unexpected_state : RefreshError

-- `time.Now().Add(refreshTokenTTL(ttl))`
unfoldable pub refresh_expiry : ℕ → ℤ → ℕ
refresh_expiry now ttl =
    if lt_int (pos 0) ttl
    then add_seconds now ttl
    else now + refresh_token_ttl_days * 24 * 3600 * second

-- `generateRefreshToken`: the random bytes come as their base64 text, `none` is a failing source
unfoldable pub generate_refresh_token : Option String → Option String
generate_refresh_token none = none
generate_refresh_token (some bytes) = some (String.◌++◌ "zid_rt" (String.◌++◌ "_" bytes))

-- ===== src/Refresh/Store.antt =====
-- The queries of internal/store/postgres/refresh_token.go. The table is the list of its rows; the
-- column `token_hash` is unique.
use zeroid.Prelude.{
  ℕ, String, Bool, Option, none, some, List, ◌∷◌, ◌==◌, ◌&&◌, ◌||◌, not, if◌then◌else◌, ltb,
}
use zeroid.Prelude.Table.{find, any, update_where, count_where}
use zeroid.Refresh.Defs.{RefreshTokenState, RefreshToken, is_active}

-- `Create`; it fails where the hash is taken, or where the database fails
unfoldable pub create : Bool → RefreshToken → List RefreshToken → Option (List RefreshToken)
create stored t rows =
    if not stored || any (λ u. u.token_hash == t.token_hash) rows then none else some (t ∷ rows)

-- `GetByTokenHash`
unfoldable pub get_by_token_hash : ℕ → String → List RefreshToken → Option RefreshToken
get_by_token_hash now h rows =
    find (λ t. t.token_hash == h && (is_active t.state && ltb now t.expires_at)) rows

-- `GetByTokenHashIncludingRevoked`
unfoldable pub get_including_revoked : String → List RefreshToken → Option RefreshToken
get_including_revoked h rows = find (λ t. t.token_hash == h) rows

-- the update that the claim and the family revocation share
unfoldable pub set_revoked : ℕ → RefreshToken → RefreshToken
set_revoked now t = record t { state = RefreshTokenState.revoked; revoked_at = some now }

unfoldable pub claimable : ℕ → String → RefreshToken → Bool
claimable now h t = t.token_hash == h && (is_active t.state && ltb now t.expires_at)

-- `ClaimByTokenHash`: the row it returns has the new values (`RETURNING *`); no row is `ErrNoRows`
unfoldable pub claim_by_token_hash :
    ℕ → String → List RefreshToken → Option (RefreshToken × List RefreshToken)
claim_by_token_hash now h rows = elim (find (claimable now h) rows) [
  | none ↦ none
  | some t ↦ some (set_revoked now t, update_where (claimable now h) (set_revoked now) rows)
]

-- the rows that `RevokeFamily` selects
unfoldable pub active_in : String → RefreshToken → Bool
active_in family t = t.family_id == family && is_active t.state

-- `RevokeFamily`, with the number of rows it affects
unfoldable pub revoke_family : ℕ → String → List RefreshToken → ℕ × List RefreshToken
revoke_family now family rows =
    (count_where (active_in family) rows, update_where (active_in family) (set_revoked now) rows)

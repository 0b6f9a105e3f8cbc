-- ===== src/Credential/Revoke.antt =====
-- Revocation and introspection: internal/service/credential.go, internal/store/postgres/credential.go and the
-- functions of migrations/007_cascade_revocation.up.sql.
use zeroid.Prelude.{
  ℕ, zero, suc, String, Bool, true, false, Option, none, some, List, [], ◌∷◌, ◌==◌, ◌&&◌, ◌||◌, not,
  if◌then◌else◌, ltb,
}
use zeroid.Prelude.Table.{find, any, update_where, count_where}
use zeroid.Prelude.Result.{Result, ok, err}
use zeroid.Identity.Model.{Identity}
use zeroid.Credential.Defs.{
  IssuedCredential, IssueRequest, zero_request, CredentialService, Call, IssueError, not_found,
  already_revoked, revoke_failed,
}
use zeroid.Credential.Issue.{Issued, issue_credential}

-- `is_revoked = FALSE AND expires_at > p_revoked_at`
unfoldable pub live : ℕ → IssuedCredential → Bool
live now c = not c.is_revoked && ltb now c.expires_at

-- the anchor of `revoke_credential_cascade`
unfoldable pub anchored_by_id : ℕ → String → String → String → IssuedCredential → Bool
anchored_by_id now id account project c =
    (c.id == id && (c.account_id == account && c.project_id == project)) && live now c

-- `identity_id = p_identity_id`, false for NULL
unfoldable pub owned_by : String → Option String → Bool
owned_by identity none = false
owned_by identity (some i) = i == identity

-- the anchor of `revoke_credentials_cascade`
unfoldable pub anchored_by_identity : ℕ → String → IssuedCredential → Bool
anchored_by_identity now identity c = owned_by identity c.identity_id && live now c

-- the rows that the recursive leg adds to the working table `level`
unfoldable pub is_child : ℕ → List IssuedCredential → IssuedCredential → Bool
is_child now level c = live now c && any (λ p. c.parent_jti == p.jti) level

unfoldable pub select_where :
    (IssuedCredential → Bool) → List IssuedCredential → List IssuedCredential
select_where p [] = []
select_where p (c ∷ cs) = let rest = select_where p cs in if p c then c ∷ rest else rest

-- the rows that `chain` holds with this depth; a row that comes again, which `CYCLE` marks, is one that an
-- earlier depth holds
unfoldable pub chain_level :
    ℕ → List IssuedCredential → (IssuedCredential → Bool) → ℕ → List IssuedCredential
chain_level now rows anchor zero = select_where anchor rows
chain_level now rows anchor (suc depth) =
    select_where (is_child now (chain_level now rows anchor depth)) rows

-- `id IN (SELECT id FROM chain)`, up to this depth
unfoldable pub in_chain :
    ℕ → List IssuedCredential → (IssuedCredential → Bool) → ℕ → IssuedCredential → Bool
in_chain now rows anchor zero c = any (λ d. d.id == c.id) (chain_level now rows anchor zero)
in_chain now rows anchor (suc depth) c =
    in_chain now rows anchor depth c
    || any (λ d. d.id == c.id) (chain_level now rows anchor (suc depth))

abbrev pub max_cascade_depth : ℕ
max_cascade_depth = 50

unfoldable pub revoke_row : ℕ → String → IssuedCredential → IssuedCredential
revoke_row now reason c = record c {
  is_revoked = true;
  revoked_at = some now;
  revoke_reason = reason;
}

-- the condition of the update, and the update with its row count
unfoldable pub condemned :
    ℕ → List IssuedCredential → (IssuedCredential → Bool) → IssuedCredential → Bool
condemned now rows anchor c = in_chain now rows anchor max_cascade_depth c && not c.is_revoked

unfoldable pub cascade :
    ℕ → String → (IssuedCredential → Bool) → List IssuedCredential → ℕ × List IssuedCredential
cascade now reason anchor rows = (
  count_where (condemned now rows anchor) rows,
  update_where (condemned now rows anchor) (revoke_row now reason) rows,
)

-- `Revoke` of the repository; the count is dropped
unfoldable pub revoke :
    ℕ → String → String → String → String → List IssuedCredential → List IssuedCredential
revoke now id account project reason rows =
    (cascade now reason (anchored_by_id now id account project) rows).1

abbrev or_default : String → String → String
or_default reason default = if reason == "" then default else reason

-- `RevokeCredential`; `runs` tells whether the statement runs
unfoldable pub revoke_credential :
    Bool
    → ℕ
    → String
    → String
    → String
    → String
    → List IssuedCredential
    → Result IssueError (List IssuedCredential)
revoke_credential runs now id account project reason rows =
    if runs
    then ok (revoke now id account project (or_default reason "manual_revocation") rows)
    else err revoke_failed

-- `RevokeAllActiveForIdentity`
unfoldable pub revoke_all_active_for_identity :
    Bool
    → ℕ
    → String
    → String
    → List IssuedCredential
    → Result IssueError (ℕ × List IssuedCredential)
revoke_all_active_for_identity runs now identity reason rows =
    if runs
    then ok (
        cascade now (or_default reason "identity_deactivated") (anchored_by_identity now identity)
          rows)
    else err revoke_failed

-- `GetByID` and `GetByJTI`
unfoldable pub get_by_id :
    String → String → String → List IssuedCredential → Option IssuedCredential
get_by_id id account project rows =
    find (λ c. c.id == id && (c.account_id == account && c.project_id == project)) rows

unfoldable pub get_by_jti : String → List IssuedCredential → Option IssuedCredential
get_by_jti jti rows = find (λ c. c.jti == jti) rows

-- `IntrospectToken`: the row, and whether it is active
unfoldable pub introspect_found : ℕ → Option IssuedCredential → Option IssuedCredential × Bool
introspect_found now none = (none, false)
introspect_found now (some c) =
    (some c, if c.is_revoked then false else if ltb c.expires_at now then false else true)

unfoldable pub introspect_token :
    ℕ → String → List IssuedCredential → Option IssuedCredential × Bool
introspect_token now jti rows = introspect_found now (get_by_jti jti rows)

-- the request that `RotateCredential` issues
unfoldable pub rotation_request : Option Identity → IssuedCredential → IssueRequest
rotation_request identity old = record zero_request {
  identity = identity;
  scopes = old.scopes;
  ttl = old.ttl_seconds;
  grant_type = old.grant_type;
}

-- `RotateCredential`: the result, and the table, in which the old row stays revoked if the issuance fails
pub record Rotated : Type 0 where
  pub result : Result IssueError Issued
  pub rows : List IssuedCredential

unfoldable pub rotated : List IssuedCredential → Result IssueError Issued → Rotated
rotated rows (ok issued) = record { result = ok issued; rows = issued.rows }
rotated rows (err e) = record { result = err e; rows = rows }

unfoldable pub rotate_found :
    CredentialService
    → Call
    → Bool
    → ℕ
    → Option Identity
    → List IssuedCredential
    → Option IssuedCredential
    → Rotated
rotate_found s call runs now identity rows none = record { result = err not_found; rows = rows }
rotate_found s call runs now identity rows (some old) =
    let rows' = revoke now old.id old.account_id old.project_id "rotated" rows in
    if old.is_revoked
    then record { result = err already_revoked; rows = rows }
    else if runs
    then rotated rows' (issue_credential s call rows' (rotation_request identity old))
    else record { result = err revoke_failed; rows = rows }

unfoldable pub rotate_credential :
    CredentialService
    → Call
    → Bool
    → ℕ
    → String
    → String
    → String
    → Option Identity
    → List IssuedCredential
    → Rotated
rotate_credential s call runs now id account project identity rows =
    rotate_found s call runs now identity rows (get_by_id id account project rows)

-- ===== src/Credential/Rotated.antt =====
-- internal/service/credential.go: what `RotateCredential` leaves.
use zeroid.Prelude.{ℕ, String, true, false, some, List, ◌∷◌, ◌≡◌, ◌⊎◌, Memᴰ, ltb}
use zeroid.Prelude.Int.{pos}
use zeroid.Prelude.Result.{Result}
use zeroid.Prelude.Table.{Pointwise}
use zeroid.Identity.Model.{Identity}
use zeroid.Credential.Defs.{IssuedCredential}
use zeroid.Credential.Issue.{Issued}
use zeroid.Credential.Revoke.{anchored_by_id}
use zeroid.Credential.Revoked.{Fate}

-- What a rotation that returns a token has done.
pub record Replaces (now : ℕ) (id account project : String) (rows : List IssuedCredential)
    (new : Issued) : Type 0 where
  pub old : IssuedCredential
  pub stored : Memᴰ old rows
  pub owned : (old.id ≡ id) × (old.account_id ≡ account) × (old.project_id ≡ project)
  pub alive : old.is_revoked ≡ false
  pub same_scopes : new.credential.scopes ≡ old.scopes
  pub root : (new.credential.parent_jti ≡ "") × (new.credential.delegation_depth ≡ pos 0)
  pub mission : new.credential.mission_id ≡ new.credential.jti
  pub bearer : (new.token.token_type ≡ "Bearer") × (new.credential.dpop_key_thumbprint ≡ "")
  pub left : List IssuedCredential
  pub table : new.rows ≡ new.credential ∷ left
  pub fates :
      Pointwise
        (Fate now (anchored_by_id now old.id old.account_id old.project_id) rows "rotated")
        rows
        left
  pub revoked :
      (ltb now old.expires_at ≡ false)
      ⊎ Memᴰ
          (record old { is_revoked = true; revoked_at = some now; revoke_reason = "rotated" })
          left

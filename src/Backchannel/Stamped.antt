-- ===== src/Backchannel/Stamped.antt =====
-- internal/service/backchannel.go: what `IssueCredential` makes of the request that stands for a CIBA row.
use zeroid.Prelude.{◌≡◌, refl, sym, ap, String, List, ◌∷◌}
use zeroid.Prelude.Result.{ok}
use zeroid.Credential.Defs.{IssuedCredential, CredentialService, Call}
use zeroid.Credential.Issue.{Issued, issue_credential, credential_row, access_token}
use zeroid.Credential.Grant.Stages.{issue-Stages, mint-Minted, insert-eq_some, grant_of}
use zeroid.Credential.Grant.Authority.{check_identity-eq_ok}
use zeroid.Scope.{parse_scope_string}
use zeroid.Backchannel.Defs.{BackchannelAuthRequest}
use zeroid.Backchannel.Issue.{ciba_request, ciba_identity}

-- The credential is the one row that is added, the token carries its identifier, and it has the scopes and the
-- tenant of the request and the key that was presented.
pub record Stamped (row : BackchannelAuthRequest) (thumbprint : String)
    (rows : List IssuedCredential) (out : Issued) : Type 0 where
  pub added : out.rows ≡ out.credential ∷ rows
  pub token_jti : out.token.jti ≡ out.credential.jti
  pub scopes : out.credential.scopes ≡ parse_scope_string row.scope
  pub account_id : out.credential.account_id ≡ row.account_id
  pub project_id : out.credential.project_id ≡ row.project_id
  pub thumbprint_held : out.credential.dpop_key_thumbprint ≡ thumbprint
  pub grant : out.credential.grant_type ≡ "urn:openid:params:grant-type:ciba"

pub ciba-Stamped :
    (s : CredentialService) (call : Call) (rows : List IssuedCredential)
    (row : BackchannelAuthRequest) (thumbprint : String) {out : Issued}
    → issue_credential s call rows (ciba_request row thumbprint) ≡ ok out
    → Stamped row thumbprint rows out
unfolding ciba_request credential_row access_token
ciba-Stamped s call rows row thumbprint {out} h =
    let r = ciba_request row thumbprint in
    let st = issue-Stages s call rows r h in
    let m = mint-Minted s call rows st.identity r st.ttl (grant_of r) st.minted in
    let (named, usable, current) = check_identity-eq_ok call.checked_at r.identity st.checked in
    let it : ciba_identity row ≡ st.identity = cc named in
    record {
      added = rw m.credential (
          insert-eq_some call.stored (credential_row call st.identity r st.ttl (grant_of r)) rows
            m.inserted);
      token_jti = rw (m.token, m.credential) refl;
      scopes = rw m.credential refl;
      account_id = rw m.credential (ap (λ i. i.account_id) (sym it));
      project_id = rw m.credential (ap (λ i. i.project_id) (sym it));
      thumbprint_held = rw m.credential refl;
      grant = rw m.credential refl;
    }

-- ===== src/OAuth/Keeps.antt =====
-- internal/service/oauth.go: properties of the tables that the steps of the grants keep, on success and on error.
use zeroid.Prelude.{
  Bool, true, false, Option, none, some, List, ◌==◌, inl, inr, Bool-cases, if◌then◌else◌,
}
use zeroid.Prelude.Result.{Result, ok, err}
use zeroid.Identity.Model.{Identity}
use zeroid.Policy.Defs.{CredentialPolicy}
use zeroid.Policy.Default.{Ensured}
use zeroid.Credential.Defs.{IssuedCredential, IssueRequest, IssueError}
use zeroid.Credential.Issue.{Issued}
use zeroid.Refresh.Defs.{RefreshToken}
use zeroid.Backchannel.Defs.{Requests}
use zeroid.OAuth.Defs.{OAuthError, OAuthService, GrantCall, World}
use zeroid.OAuth.Step.{Step, done, check, need, and_then, ◌>>=◌, ◌>>◌}
use zeroid.OAuth.Lookup.{gate, ensured, resolve_in, resolve_credential_policy, issued, issue}

-- Whatever its result, the step keeps `P`.
unfoldable pub Keeps : (World → Type 0) → {A : Type 0} → Step A → Type 0
Keeps P m = (w : World) → P w → P (m w).1

-- `P` speaks of the consumed codes alone.
pub record OfCodes (P : World → Type 0) : Type 0 where
  pub policies :
      (w : World) (x : Option (List CredentialPolicy)) → P w → P (record w { policies = x })
  pub credentials : (w : World) (x : List IssuedCredential) → P w → P (record w { credentials = x })
  pub refresh_tokens :
      (w : World) (x : List RefreshToken) → P w → P (record w { refresh_tokens = x })
  pub requests : (w : World) (x : Requests) → P w → P (record w { requests = x })

module _ (P : World → Type 0) where
  pub done-Keeps : {A : Type 0} (a : A) → Keeps P (done a)
  unfolding Keeps
  done-Keeps a w p = p

  pub check-Keeps : (t : Bool) (e : OAuthError) → Keeps P (check t e)
  unfolding Keeps
  check-Keeps true e w p = p
  check-Keeps false e w p = p

  pub need-Keeps : {A : Type 0} (o : Option A) (e : OAuthError) → Keeps P (need o e)
  unfolding Keeps
  need-Keeps none e w p = p
  need-Keeps (some a) e w p = p

  after-Keeps :
      {A B : Type 0} (r : Result OAuthError A × World) (f : A → Step B)
      → ((a : A) → Keeps P (f a))
      → P r.1
      → P (and_then r f).1
  unfolding Keeps
  after-Keeps (ok a, w) f keep p = keep a w p
  after-Keeps (err e, w) f keep p = p

  pub bind-Keeps :
      {A B : Type 0} (m : Step A) (f : A → Step B)
      → Keeps P m
      → ((a : A) → Keeps P (f a))
      → Keeps P (m >>= f)
  unfolding Keeps ◌>>=◌
  bind-Keeps m f first later w p = after-Keeps (m w) f later (first w p)

  -- A test of the grant, and what follows it.
  pub after_check :
      {B : Type 0} (t : Bool) (e : OAuthError) (k : Step B) → Keeps P k → Keeps P (check t e >> k)
  after_check t e k later = bind-Keeps (check t e) _ (check-Keeps t e) (λ u. later)

  pub after_need :
      {A B : Type 0} (o : Option A) (e : OAuthError) (f : A → Step B)
      → ((a : A) → Keeps P (f a))
      → Keeps P (need o e >>= f)
  after_need o e f later = bind-Keeps (need o e) f (need-Keeps o e) later

  pub if-Keeps :
      {A : Type 0} (b : Bool) (m k : Step A) → Keeps P m → Keeps P k → Keeps P (if b then m else k)
  if-Keeps true m k here later = here
  if-Keeps false m k here later = later

  pub gate-Keeps : (call : GrantCall) (i : Identity) → Keeps P (gate call i)
  unfolding gate
  gate-Keeps call i = after_check _ _ _ (check-Keeps _ _)

module _ (P : World → Type 0) (codes : OfCodes P) where
  ensured-Keeps : (w : World) (e : Ensured) → P w → P (ensured w e).1
  unfolding ensured
  ensured-Keeps w (ok (p, rows)) h = codes.policies w (some rows) h
  ensured-Keeps w (err e) h = h

  resolve_in-Keeps :
      (call : GrantCall) (i : Identity) (o : Option (List CredentialPolicy))
      → Keeps P (resolve_in call i o)
  unfolding resolve_in Keeps
  resolve_in-Keeps call i none w h = h
  resolve_in-Keeps call i (some rows) w h = elim (Bool-cases (i.credential_policy_id == "")) [
    | inl unset ↦ simp unset (ensured-Keeps w _ h)
    | inr named ↦ simp named (need-Keeps P _ _ w h)
  ]

  pub resolve-Keeps : (call : GrantCall) (i : Identity) → Keeps P (resolve_credential_policy call i)
  unfolding resolve_credential_policy Keeps
  resolve-Keeps call i w h = resolve_in-Keeps call i w.policies w h

  issued-Keeps : (w : World) (r : Result IssueError Issued) → P w → P (issued w r).1
  unfolding issued
  issued-Keeps w (ok out) h = codes.credentials w out.rows h
  issued-Keeps w (err e) h = h

  pub issue-Keeps :
      (s : OAuthService) (call : GrantCall) (r : IssueRequest) → Keeps P (issue s call r)
  unfolding issue Keeps
  issue-Keeps s call r w h = issued-Keeps w _ h

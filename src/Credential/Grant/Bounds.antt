-- ===== src/Credential/Grant/Bounds.antt =====
-- The lifetime of an issued credential.
use zeroid.Prelude.{
  ℕ, ◌+◌, ◌≤◌, ◌<◌, ◌≡◌, refl, sym, ◌∙◌, ap, true, Option, none, some, List, Bool-cases, inl, inr,
  if◌then◌else◌, arith,
}
use mathlib.Core.Path.{subst}
use zeroid.Prelude.Int.{ℤ, pos, negsuc, lt_int, ◌≤ℤ◌, ◌<ℤ◌, lt_int→le, lt_int→lt}
use zeroid.Prelude.Result.{ok}
use zeroid.Identity.Model.{Identity}
use zeroid.Credential.Defs.{
  IssuedCredential, IssueRequest, AccessToken, CredentialService, Call, IssueError,
  identity_expired, credential_expired, add_seconds,
}
use zeroid.Credential.Issue.{
  effective_ttl, remaining_seconds, clamp_ttl, credential_row, access_token, Issued,
  issue_credential, check_identity,
}
use zeroid.Credential.Grant.Authority.{check_identity-eq_ok}
use zeroid.Credential.Grant.Stages.{grant_of, issue-Stages, mint-Minted}

le_refl : (a : ℤ) → a ≤ℤ a
le_refl (pos n) = ground arith
le_refl (negsuc n) = ground arith

lt_le : (a b : ℤ) → a <ℤ b → a ≤ℤ b
lt_le a b h = omega arith

-- A clamp that does not fail lowers the TTL, to what is left before the expiry at the most.
clamp_ttl-le :
    (e : IssueError) (now : ℕ) (expires : Option ℕ) (ttl : ℤ) {t : ℤ}
    → clamp_ttl e now expires ttl ≡ ok t
    → (t ≤ℤ ttl)
      × ((at : ℕ)
          → expires ≡ some at
          → (t ≤ℤ pos (remaining_seconds now at)) × (0 < remaining_seconds now at))
unfolding clamp_ttl
clamp_ttl-le e now none ttl {t} h =
    let same : ttl ≡ t = cc h in (subst (λ x. x ≤ℤ ttl) same (le_refl ttl), λ at k. cc k)
clamp_ttl-le e now (some at) ttl {t} h =
    elim (Bool-cases (lt_int (pos 0) (pos (remaining_seconds now at)))) [
      | inr gone ↦ cc (simp gone at h)
      | inl left ↦
          let more : 0 < remaining_seconds now at = ground arith in
          let (below, within) = lower left in
          (
            below,
            λ a k.
                let e : at ≡ a = cc k in
                subst (λ x. (t ≤ℤ pos (remaining_seconds now x)) × (0 < remaining_seconds now x)) e
                  (within, more),
          )
    ]
  where
    lower :
        lt_int (pos 0) (pos (remaining_seconds now at)) ≡ true
        → (t ≤ℤ ttl) × (t ≤ℤ pos (remaining_seconds now at))
    lower left = elim (Bool-cases (lt_int (pos (remaining_seconds now at)) ttl)) [
      | inl b ↦
          let same : pos (remaining_seconds now at) ≡ t = cc (simp (left, b) at h) in
          let below : pos (remaining_seconds now at) ≤ℤ ttl =
            lt_le (pos (remaining_seconds now at)) ttl
              (lt_int→lt (pos (remaining_seconds now at)) ttl b) in
          subst (λ x. (x ≤ℤ ttl) × (x ≤ℤ pos (remaining_seconds now at))) same
            (below, le_refl (pos (remaining_seconds now at)))
      | inr b ↦
          let same : ttl ≡ t = cc (simp (left, b) at h) in
          let le = lt_int→le (pos (remaining_seconds now at)) ttl b in
          subst (λ x. (x ≤ℤ ttl) × (x ≤ℤ pos (remaining_seconds now at))) same (le_refl ttl, le)
    ]

effective_ttl-le :
    (default_ttl max_ttl requested : ℤ)
    → (effective_ttl default_ttl max_ttl requested ≤ℤ max_ttl)
      × (lt_int (pos 0) requested ≡ true → effective_ttl default_ttl max_ttl requested ≤ℤ requested)
unfolding effective_ttl
effective_ttl-le default_ttl max_ttl requested = (cap, asked)
  where
    capped :
        (t : ℤ)
        → ((if lt_int max_ttl t then max_ttl else t) ≤ℤ max_ttl)
          × ((if lt_int max_ttl t then max_ttl else t) ≤ℤ t)
    capped t = elim (Bool-cases (lt_int max_ttl t)) [
      | inl b ↦ rw b (le_refl max_ttl, lt_le max_ttl t (lt_int→lt max_ttl t b))
      | inr b ↦ rw b (lt_int→le max_ttl t b, le_refl t)
    ]

    cap : effective_ttl default_ttl max_ttl requested ≤ℤ max_ttl
    cap = (capped (if lt_int (pos 0) requested then requested else default_ttl)).0

    asked :
        lt_int (pos 0) requested ≡ true → effective_ttl default_ttl max_ttl requested ≤ℤ requested
    asked b = rw b (capped requested).1

-- A lifetime within what is left at `now` ends, when it starts at `start`, no later after `start` than the expiry is after `now`.
add_seconds-le :
    (now start at : ℕ) (t : ℤ)
    → t ≤ℤ pos (remaining_seconds now at)
    → 0 < remaining_seconds now at
    → add_seconds start t + now ≤ at + start
unfolding remaining_seconds
add_seconds-le now start at (pos n) h more = omega arith
add_seconds-le now start at (negsuc n) h more = omega arith

-- The bounds on what was issued, given an expiry of the identity or of the credential used.
pub record Within (call : Call) (expires : Option ℕ) (out : Issued) : Type 0 where
  pub seconds :
      (at : ℕ)
      → expires ≡ some at
      → out.credential.ttl_seconds ≤ℤ pos (remaining_seconds call.clamped_at at)
  pub time :
      (at : ℕ)
      → expires ≡ some at
      → out.credential.expires_at + call.clamped_at ≤ at + call.issued_at

-- Whenever `IssueCredential` returns a token, its lifetime is at most the service's maximum, at most what was asked
-- for, if that is positive, and at most the whole seconds that were left at the clamp before the identity, and
-- before the credential presented, expires; the persisted expiry is the time of issue and the lifetime, and lies no
-- later than that expiry by more than the time between clamp and issue; the answer's `expires_in` is the
-- persisted lifetime.
pub issue-bounds :
    (s : CredentialService) (call : Call) (rows : List IssuedCredential) (r : IssueRequest)
    (out : Issued)
    → issue_credential s call rows r ≡ ok out
    → (i : Identity) × (r.identity ≡ some i)
      × (out.credential.ttl_seconds ≤ℤ s.max_ttl)
      × (lt_int (pos 0) r.ttl ≡ true → out.credential.ttl_seconds ≤ℤ r.ttl)
      × Within call i.expires_at out
      × Within call r.credential_expires_at out
      × (out.credential.expires_at ≡ add_seconds call.issued_at out.credential.ttl_seconds)
      × (out.token.expires_in ≡ out.credential.ttl_seconds)
unfolding credential_row access_token
issue-bounds s call rows r out h =
    let st = issue-Stages s call rows r h in
    let m = mint-Minted s call rows st.identity r st.ttl (grant_of r) st.minted in
    let (by_cap, by_ask) = effective_ttl-le s.default_ttl s.max_ttl r.ttl in
    let (first, identity_left) =
      clamp_ttl-le identity_expired call.clamped_at st.identity.expires_at _ st.clamped in
    let (second_clamp, credential_left) =
      clamp_ttl-le credential_expired call.clamped_at r.credential_expires_at st.by_identity
        st.clamped_again in
    let row = sym m.credential in
    (
      st.identity,
      named call r.identity st.identity st.checked,
      subst (λ (c : IssuedCredential). c.ttl_seconds ≤ℤ s.max_ttl) row (omega arith),
      (λ b.
          let ask = by_ask b in
          subst (λ (c : IssuedCredential). c.ttl_seconds ≤ℤ r.ttl) row (omega arith)),
      record {
        seconds = λ at e.
            let (left, some_left) = identity_left at e in
            subst
              (λ (c : IssuedCredential).
                c.ttl_seconds ≤ℤ pos (remaining_seconds call.clamped_at at))
              row (omega arith);
        time = λ at e.
            let (left, some_left) = identity_left at e in
            subst (λ (c : IssuedCredential). c.expires_at + call.clamped_at ≤ at + call.issued_at)
              row (add_seconds-le call.clamped_at call.issued_at at st.ttl (omega arith) some_left);
      },
      record {
        seconds = λ at e.
            subst
              (λ (c : IssuedCredential).
                c.ttl_seconds ≤ℤ pos (remaining_seconds call.clamped_at at))
              row (credential_left at e).0;
        time = λ at e.
            let (left, some_left) = credential_left at e in
            subst (λ (c : IssuedCredential). c.expires_at + call.clamped_at ≤ at + call.issued_at)
              row (add_seconds-le call.clamped_at call.issued_at at st.ttl left some_left);
      },
      subst (λ (c : IssuedCredential). c.expires_at ≡ add_seconds call.issued_at c.ttl_seconds) row
          refl,
      ap (λ (t : AccessToken). t.expires_in) m.token
          ∙ ap (λ (c : IssuedCredential). c.ttl_seconds) row,
    )
  where
    named :
        (call : Call) (o : Option Identity) (i : Identity)
        → check_identity call.checked_at o ≡ ok i
        → o ≡ some i
    named call o i e = (check_identity-eq_ok call.checked_at o e).0

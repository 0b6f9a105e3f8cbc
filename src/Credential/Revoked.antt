-- ===== src/Credential/Revoked.antt =====
-- migrations/007_cascade_revocation.up.sql: what the cascade leaves, and what `IntrospectToken` then answers.
use mathlib.Core.Path.{subst}
use mathlib.Core.Bool.{and-eq-true_iff}
use zeroid.Prelude.{
  ℕ, String, Bool, some, true, false, List, ◌==◌, if◌then◌else◌, ◌≡◌, refl, sym, ◌⊎◌, inl, inr,
  Memᴰ, arith, Bool-cases, Option-cases, eq_iff, ◌≤◌,
}
use zeroid.Prelude.Table.{
  find, Pointwise, update_where-Pointwise, update_where-elim, count_where, count_where_unique,
  find-eq_some,
}
use zeroid.Credential.Defs.{IssuedCredential}
use zeroid.Credential.Revoke.{
  condemned, cascade, revoke_row, max_cascade_depth, introspect_token, introspect_found, get_by_jti,
}
use zeroid.Credential.Cascade.{Reached, in_chain-Reached, Reached-in_chain}

-- `c` has the id of a row within 50 hops.
pub record WithinCascade (now : ℕ) (anchor : IssuedCredential → Bool) (rows : List IssuedCredential)
    (c : IssuedCredential) : Type 0 where
  pub hops : ℕ
  pub within : hops ≤ max_cascade_depth
  pub end : IssuedCredential
  pub reached : Reached now anchor rows hops end
  pub same_id : end.id ≡ c.id

module _ (now : ℕ) (anchor : IssuedCredential → Bool) (rows : List IssuedCredential) where
  WithinCascade-condemned :
      (c : IssuedCredential)
      → WithinCascade now anchor rows c
      → c.is_revoked ≡ false
      → condemned now rows anchor c ≡ true
  unfolding condemned
  WithinCascade-condemned c w alive = (and-eq-true_iff _ _).1 (
    Reached-in_chain now anchor rows max_cascade_depth w.hops c w.within w.reached w.same_id,
    rw alive refl,
  )

  condemned-WithinCascade :
      (c : IssuedCredential)
      → condemned now rows anchor c ≡ true
      → WithinCascade now anchor rows c × (c.is_revoked ≡ false)
  unfolding condemned
  condemned-WithinCascade c h =
      let (chained, alive) = (and-eq-true_iff _ _).0 h in
      let (k, within, (d, r, same)) =
        in_chain-Reached now anchor rows max_cascade_depth c chained in
      (
        record { hops = k; within = within; end = d; reached = r; same_id = same },
        ground (arith, alive),
      )

  -- What a row of the table that is left may be.
  pub record Kept (d : IssuedCredential) : Type 0 where
    pub stored : Memᴰ d rows
    pub why : (d.is_revoked ≡ true) ⊎ ¬ WithinCascade now anchor rows d

  pub record Revoked (reason : String) (d : IssuedCredential) : Type 0 where
    pub old : IssuedCredential
    pub stored : Memᴰ old rows
    pub hit : WithinCascade now anchor rows old
    pub alive : old.is_revoked ≡ false
    pub same : d ≡ revoke_row now reason old

  spared :
      (c : IssuedCredential)
      → condemned now rows anchor c ≡ false
      → (c.is_revoked ≡ true) ⊎ ¬ WithinCascade now anchor rows c
  spared c miss = elim (Bool-cases c.is_revoked) [
    | inl gone ↦ inl gone
    | inr alive ↦ inr (λ w. let hit = WithinCascade-condemned c w alive in cc)
  ]

  cascade-row :
      (reason : String) (d : IssuedCredential)
      → Memᴰ d (cascade now reason anchor rows).1
      → Kept d ⊎ Revoked reason d
  unfolding cascade
  cascade-row reason d m =
      let (c, stored, e) =
        update_where-elim (condemned now rows anchor) (revoke_row now reason) rows m in
      elim (Bool-cases (condemned now rows anchor c)) [
        | inl hit ↦
            let (w, alive) = condemned-WithinCascade c hit in
            inr (record { old = c; stored = stored; hit = w; alive = alive; same = rw hit at e })
        | inr miss ↦
            let same : d ≡ c = rw miss at e in
            inl (subst Kept (sym same) (record { stored = stored; why = spared c miss }))
      ]

  -- What becomes of one row: it is left as it is, revoked before or out of reach, or else it was not revoked, is
  -- within reach, and is marked revoked, with nothing else changed.
  abbrev pub Fate : String → IssuedCredential → IssuedCredential → Type 0
  Fate reason c d =
      ((d ≡ c) × ((c.is_revoked ≡ true) ⊎ ¬ WithinCascade now anchor rows c))
      ⊎ ((d ≡ record c { is_revoked = true; revoked_at = some now; revoke_reason = reason })
          × (c.is_revoked ≡ false)
          × WithinCascade now anchor rows c)

  row-Fate :
      (reason : String) (c : IssuedCredential)
      → Fate reason c (if condemned now rows anchor c then revoke_row now reason c else c)
  unfolding revoke_row
  row-Fate reason c = elim (Bool-cases (condemned now rows anchor c)) [
    | inl hit ↦ let (w, alive) = condemned-WithinCascade c hit in rw hit (inr (refl, alive, w))
    | inr miss ↦ rw miss (inl (refl, spared c miss))
  ]

  -- The cascade leaves a table with the same rows in the same order, each with its fate: the rows within 50 hops of
  -- the anchor over `parent_jti`, through live rows, that are not revoked yet are marked revoked, with the
  -- reason and the time of the cascade, and every other row is left as it is.
  pub cascade-exact :
      (reason : String) → Pointwise (Fate reason) rows (cascade now reason anchor rows).1
  unfolding cascade
  cascade-exact reason =
      update_where-Pointwise (condemned now rows anchor) (revoke_row now reason) (Fate reason) rows
        (row-Fate reason)

  -- A row that is left with the unique `jti` of a row within reach.
  gone :
      (reason : String) (c d : IssuedCredential)
      → Memᴰ c rows
      → count_where (λ e. e.jti == c.jti) rows ≤ 1
      → WithinCascade now anchor rows c
      → d.jti ≡ c.jti
      → Kept d ⊎ Revoked reason d
      → d.is_revoked ≡ true
  unfolding revoke_row
  gone reason c d stored unique w same (inl k) =
      let it : c ≡ d =
        count_where_unique (λ e. e.jti == c.jti) unique stored k.stored
          ((eq_iff c.jti c.jti).1 refl) ((eq_iff d.jti c.jti).1 same) in
      elim k.why [
        | inl dead ↦ dead
        | inr out ↦ absurd (out (subst (WithinCascade now anchor rows) it w))
      ]
  gone reason c d stored unique w same (inr r) = rw r.same refl

  -- A credential whose `jti` is the only one of its kind in the table, and that is within 50 hops of the
  -- cascade's anchor, is inactive for `IntrospectToken` at any time after the cascade.
  pub cascade-introspect :
      (reason : String) (c : IssuedCredential) (later : ℕ)
      → Memᴰ c rows
      → count_where (λ d. d.jti == c.jti) rows ≤ 1
      → WithinCascade now anchor rows c
      → (introspect_token later c.jti (cascade now reason anchor rows).1).1 ≡ false
  unfolding introspect_token introspect_found get_by_jti
  cascade-introspect reason c later stored unique w =
      elim (Option-cases (find (λ d. d.jti == c.jti) (cascade now reason anchor rows).1)) [
        | inl missing ↦ rw missing refl
        | inr (d, found) ↦
            let (same, m) = find-eq_some (λ d. d.jti == c.jti) _ found in
            let dead =
              gone reason c d stored unique w ((eq_iff d.jti c.jti).0 same)
                (cascade-row reason d m) in
            rw found (rw dead refl)
      ]

-- ===== src/Credential/Cascade.antt =====
-- migrations/007_cascade_revocation.up.sql: the rows that the cascade reaches, as a data type of walks over
-- `parent_jti`, and what a revocation leaves.
use mathlib.Core.Path.{subst}
use zeroid.Prelude.{
  ℕ, zero, suc, Bool, true, List, [], ◌∷◌, ◌==◌, ltb, ◌≡◌, refl, sym, inl, inr, ltb→lt, Memᴰ, arith,
  Bool-cases, eq_iff, ◌≤◌,
}
use mathlib.Core.Bool.{and-eq-true_iff}
use zeroid.Prelude.Table.{any-Mem, any-elim}
use zeroid.Credential.Defs.{IssuedCredential}
use zeroid.Credential.Revoke.{live, is_child, select_where, chain_level, in_chain}

-- `c` is selected by the anchor, or is a live row under a row that is reached by fewer hops.
pub data Reached (now : ℕ) (anchor : IssuedCredential → Bool) (rows : List IssuedCredential)
    : ℕ → IssuedCredential → Type 0 where
  anchored : {c : IssuedCredential} → Memᴰ c rows → anchor c ≡ true → Reached now anchor rows zero c
  delegated :
      {n : ℕ} {p c : IssuedCredential}
      → Reached now anchor rows n p
      → Memᴰ c rows
      → live now c ≡ true
      → c.parent_jti ≡ p.jti
      → Reached now anchor rows (suc n) c

pub select_where-elim :
    (p : IssuedCredential → Bool) {c : IssuedCredential} (rows : List IssuedCredential)
    → Memᴰ c (select_where p rows)
    → Memᴰ c rows × (p c ≡ true)
unfolding select_where
select_where-elim p [] m = elim m [ ]
select_where-elim p {c} (d ∷ ds) m = elim (Bool-cases (p d)) [
  | inl hit ↦ first hit (select_where-elim p ds) (rw (hit, select_where) at m)
  | inr miss ↦
      let (n, k) = select_where-elim p ds (rw (miss, select_where) at m) in (Memᴰ.tail n, k)
]
  where
    first :
        p d ≡ true
        → (Memᴰ c (select_where p ds) → Memᴰ c ds × (p c ≡ true))
        → Memᴰ c (d ∷ select_where p ds)
        → Memᴰ c (d ∷ ds) × (p c ≡ true)
    first hit later (Memᴰ.head e) = (Memᴰ.head e, subst (λ x. p x ≡ true) (sym e) hit)
    first hit later (Memᴰ.tail n) = let (o, k) = later n in (Memᴰ.tail o, k)

pub select_where-intro :
    (p : IssuedCredential → Bool) {c : IssuedCredential} {rows : List IssuedCredential}
    → Memᴰ c rows
    → p c ≡ true
    → Memᴰ c (select_where p rows)
unfolding select_where
select_where-intro p {c} (Memᴰ.head {x = d} {xs = ds} e) h =
    let k : p d ≡ true = subst (λ x. p x ≡ true) e h in rw k (Memᴰ.head e)
select_where-intro p {c} (Memᴰ.tail {x = d} {xs = ds} m) h =
    let rest = select_where-intro p m h in
    elim (Bool-cases (p d)) [ inl hit ↦ rw hit (Memᴰ.tail rest) | inr miss ↦ rw miss rest ]

module _ (now : ℕ) (anchor : IssuedCredential → Bool) (rows : List IssuedCredential) where
  level-Reached :
      (n : ℕ) {c : IssuedCredential}
      → Memᴰ c (chain_level now rows anchor n)
      → Reached now anchor rows n c
  unfolding chain_level is_child
  level-Reached zero m = let (stored, hit) = select_where-elim anchor rows m in anchored stored hit
  level-Reached (suc n) {c} m =
      let (stored, hit) = select_where-elim _ rows m in
      let (alive, parents) = (and-eq-true_iff _ _).0 hit in
      let (p, above, same) =
        any-elim (λ q. c.parent_jti == q.jti) (chain_level now rows anchor n) parents in
      delegated (level-Reached n above) stored alive ((eq_iff c.parent_jti p.jti).0 same)

  Reached-level :
      {n : ℕ} {c : IssuedCredential}
      → Reached now anchor rows n c
      → Memᴰ c (chain_level now rows anchor n)
  unfolding chain_level is_child
  Reached-level (anchored stored hit) = select_where-intro anchor stored hit
  Reached-level (delegated {n} {p} {c} above stored alive link) =
      let parents =
        any-Mem (λ q. c.parent_jti == q.jti) (Reached-level above)
          ((eq_iff c.parent_jti p.jti).1 link) in
      select_where-intro _ stored ((and-eq-true_iff _ _).1 (alive, parents))

  pub in_chain-Reached :
      (n : ℕ) (c : IssuedCredential)
      → in_chain now rows anchor n c ≡ true
      → (k : ℕ) × (k ≤ n) × ((d : IssuedCredential) × Reached now anchor rows k d × (d.id ≡ c.id))
  unfolding in_chain
  in_chain-Reached zero c h =
      let (d, m, same) = any-elim (λ d. d.id == c.id) (chain_level now rows anchor zero) h in
      (0, omega arith, (d, level-Reached zero m, (eq_iff d.id c.id).0 same))
  in_chain-Reached (suc n) c h = elim (Bool-cases (in_chain now rows anchor n c)) [
    | inl before ↦ let (k, within, hit) = in_chain-Reached n c before in (k, omega arith, hit)
    | inr fresh ↦
        let (d, m, same) =
          any-elim (λ d. d.id == c.id) (chain_level now rows anchor (suc n)) (rw fresh at h) in
        (suc n, omega arith, (d, level-Reached (suc n) m, (eq_iff d.id c.id).0 same))
  ]

  pub Reached-in_chain :
      (n k : ℕ) {d : IssuedCredential} (c : IssuedCredential)
      → k ≤ n
      → Reached now anchor rows k d
      → d.id ≡ c.id
      → in_chain now rows anchor n c ≡ true
  unfolding in_chain
  Reached-in_chain zero k {d} c within r same =
      let none_left : k ≡ zero = omega arith in
      any-Mem (λ e. e.id == c.id)
        (Reached-level (subst (λ m. Reached now anchor rows m d) none_left r))
        ((eq_iff d.id c.id).1 same)
  Reached-in_chain (suc n) k {d} c within r same = elim (Bool-cases (ltb k (suc n))) [
    | inl earlier ↦
        let lt = ltb→lt k (suc n) earlier in
        let before = Reached-in_chain n k c (omega arith) r same in rw before refl
    | inr last ↦
        let here : k ≡ suc n = ground arith in
        let hit =
          any-Mem (λ e. e.id == c.id)
            (Reached-level (subst (λ m. Reached now anchor rows m d) here r))
            ((eq_iff d.id c.id).1 same) in
        ground (arith, hit)
  ]

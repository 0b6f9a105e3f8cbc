-- ===== src/Prelude/Table/Updates.antt =====
-- What an update of the selected rows does to a count.
use mathlib.Core.Path.{◌≡◌, sym, subst}
use mathlib.Core.Bool.{Bool, true, false}
use mathlib.Core.Option.{some}
use mathlib.Core.List.{List, [], ◌∷◌, Memᴰ}
use mathlib.Core.Logic.{inl, inr}
use native.Mathlib.Omega.{arith}
use Prim.Native.Nat.{◌≤◌, ◌<◌}
use zeroid.Prelude.Tests.{Bool-cases}
use zeroid.Prelude.Table.Rows.{find, update_where, count_where}

module _ {ℓ} {A : Type ℓ} where
  pub find-eq_some :
      (p : A → Bool) (xs : List A) {x : A} → find p xs ≡ some x → (p x ≡ true) × Memᴰ x xs
  unfolding find
  find-eq_some p [] h = cc
  find-eq_some p (y ∷ ys) {x} h = elim (Bool-cases (p y)) [
    | inl hit ↦
        let k : some y ≡ some x = rw (hit, find) at h in
        let e : y ≡ x = cc k in (subst (λ z. p z ≡ true) e hit, Memᴰ.head (sym e))
    | inr miss ↦ let (holds, m) = find-eq_some p ys (rw (miss, find) at h) in (holds, Memᴰ.tail m)
  ]

  -- Updated rows that a second query does not select no longer count there.
  pub count_where-update_where :
      (p q : A → Bool) (f : A → A) (xs : List A)
      → ((x : A) → p x ≡ true → q (f x) ≡ false)
      → count_where q (update_where p f xs) ≤ count_where q xs
  unfolding count_where update_where
  count_where-update_where p q f [] off = omega arith
  count_where-update_where p q f (x ∷ xs) off =
      let rest = count_where-update_where p q f xs off in
      elim (Bool-cases (p x)) [
        | inl hit ↦ let gone = off x hit in grind arith
        | inr miss ↦ grind arith
      ]

  -- The count drops where both queries select some row.
  pub count_where-update_where_drop :
      (p q : A → Bool) (f : A → A) (xs : List A)
      → ((x : A) → p x ≡ true → q (f x) ≡ false)
      → {x : A} → Memᴰ x xs
      → p x ≡ true
      → q x ≡ true
      → count_where q (update_where p f xs) < count_where q xs
  unfolding count_where update_where
  count_where-update_where_drop p q f [] off m hit counted = elim m [ ]
  count_where-update_where_drop p q f (y ∷ ys) off {x} (Memᴰ.head e) hit counted =
      let rest = count_where-update_where p q f ys off in
      let gone = off x hit in
      subst (λ z. count_where q (update_where p f (z ∷ ys)) < count_where q (z ∷ ys)) e
        (grind arith)
  count_where-update_where_drop p q f (y ∷ ys) off (Memᴰ.tail m) hit counted =
      let rest = count_where-update_where_drop p q f ys off m hit counted in
      elim (Bool-cases (p y)) [
        | inl here ↦ let gone = off y here in grind arith
        | inr miss ↦ grind arith
      ]

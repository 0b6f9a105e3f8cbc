-- ===== src/Prelude/Table/Select.antt =====
-- The rows that a query selects, by its count and by membership.
use mathlib.Core.Path.{◌≡◌, refl, sym, subst, ◌∙◌}
use mathlib.Core.Bool.{Bool, true, false}
use mathlib.Core.Option.{some}
use mathlib.Core.List.{List, [], ◌∷◌, Memᴰ}
use mathlib.Core.Logic.{inl, inr}
use native.Mathlib.Omega.{arith}
use Prim.Native.Nat.{◌≤◌, ◌<◌}
use zeroid.Prelude.Tests.{Bool-cases}
use zeroid.Prelude.Table.Rows.{find, update_where, delete_where, count_where, any}

module _ {ℓ} {A : Type ℓ} where
  -- A row that a query selects counts.
  pub count_where-Mem :
      (p : A → Bool) {x : A} {xs : List A} → Memᴰ x xs → p x ≡ true → 0 < count_where p xs
  unfolding count_where
  count_where-Mem p (Memᴰ.head {x = z} {xs} e) hit =
      subst (λ w. 0 < count_where p (w ∷ xs)) e (grind arith)
  count_where-Mem p (Memᴰ.tail {x = z} {xs} m) hit =
      let rest = count_where-Mem p m hit in grind arith

  impossible :
      (p : A → Bool) (z : A) (xs : List A)
      → count_where p (z ∷ xs) ≤ 1
      → p z ≡ true
      → 0 < count_where p xs
      → ⊥
  unfolding count_where
  impossible p z xs one here more = grind arith

  below : (p : A → Bool) (z : A) (xs : List A) → count_where p (z ∷ xs) ≤ 1 → count_where p xs ≤ 1
  unfolding count_where
  below p z xs one = elim (Bool-cases (p z)) [ inl hit ↦ grind arith | inr miss ↦ grind arith ]

  -- A query that selects one row at most selects the same row twice.
  pub count_where_unique :
      (p : A → Bool) {x y : A} {xs : List A}
      → count_where p xs ≤ 1
      → Memᴰ x xs
      → Memᴰ y xs
      → p x ≡ true
      → p y ≡ true
      → x ≡ y
  unfolding count_where
  count_where_unique p one (Memᴰ.head a) (Memᴰ.head b) hx hy = a ∙ sym b
  count_where_unique p one (Memᴰ.head {x = z} {xs} a) (Memᴰ.tail m) hx hy =
      let more = count_where-Mem p m hy in
      let here : p z ≡ true = subst (λ w. p w ≡ true) a hx in
      elim (impossible p z xs one here more) [ ]
  count_where_unique p one (Memᴰ.tail {x = z} {xs} m) (Memᴰ.head b) hx hy =
      let more = count_where-Mem p m hx in
      let here : p z ≡ true = subst (λ w. p w ≡ true) b hy in
      elim (impossible p z xs one here more) [ ]
  count_where_unique p one (Memᴰ.tail {x = z} {xs} m) (Memᴰ.tail n) hx hy =
      count_where_unique p (below p z xs one) m n hx hy

  -- An update that leaves a query's answer alone leaves its count.
  pub count_where-update_where_eq :
      (p q : A → Bool) (f : A → A) (xs : List A)
      → ((x : A) → q (f x) ≡ q x)
      → count_where q (update_where p f xs) ≡ count_where q xs
  unfolding count_where update_where
  count_where-update_where_eq p q f [] same = refl
  count_where-update_where_eq p q f (x ∷ xs) same =
      let rest = count_where-update_where_eq p q f xs same in
      let k = same x in elim (Bool-cases (p x)) [ inl hit ↦ grind arith | inr miss ↦ grind arith ]

  pub any-count_where : (p : A → Bool) (xs : List A) → any p xs ≡ false → count_where p xs ≡ 0
  unfolding any count_where
  any-count_where p [] h = refl
  any-count_where p (x ∷ xs) h = elim (Bool-cases (p x)) [
    | inl hit ↦ cc (rw hit at h)
    | inr miss ↦
        let k : any p xs ≡ false = rw (miss, any) at h in
        let rest = any-count_where p xs k in grind arith
  ]

  pub any-Mem : (p : A → Bool) {x : A} {xs : List A} → Memᴰ x xs → p x ≡ true → any p xs ≡ true
  unfolding any
  any-Mem p (Memᴰ.head {x = z} {xs} e) hit = subst (λ w. any p (w ∷ xs) ≡ true) e (rw hit refl)
  any-Mem p (Memᴰ.tail {x = z} {xs} m) hit = let rest = any-Mem p m hit in ground arith

  pub any-update_where :
      (p q : A → Bool) (f : A → A) (xs : List A)
      → ((x : A) → q (f x) ≡ q x)
      → any q (update_where p f xs) ≡ any q xs
  unfolding any update_where
  any-update_where p q f [] same = refl
  any-update_where p q f (x ∷ xs) same =
      let rest = any-update_where p q f xs same in
      let k = same x in elim (Bool-cases (p x)) [ inl hit ↦ grind arith | inr miss ↦ grind arith ]

  -- A query that is narrower than one without an answer selects nothing.
  pub any-narrower :
      (p q : A → Bool) (xs : List A)
      → ((x : A) → q x ≡ false → p x ≡ false)
      → any q xs ≡ false
      → any p xs ≡ false
  unfolding any
  any-narrower p q [] narrow h = refl
  any-narrower p q (x ∷ xs) narrow h = elim (Bool-cases (q x)) [
    | inl hit ↦ cc (rw hit at h)
    | inr miss ↦
        let rest = any-narrower p q xs narrow (rw (miss, any) at h) in
        let k = narrow x miss in rw k rest
  ]

  pub count_where-narrower :
      (p q : A → Bool) (xs : List A)
      → ((x : A) → p x ≡ true → q x ≡ true)
      → count_where p xs ≤ count_where q xs
  unfolding count_where
  count_where-narrower p q [] narrow = omega arith
  count_where-narrower p q (x ∷ xs) narrow =
      let rest = count_where-narrower p q xs narrow in
      elim (Bool-cases (p x)) [
        | inl hit ↦ let k = narrow x hit in grind arith
        | inr miss ↦ grind arith
      ]

  pub find-Mem :
      (p : A → Bool) {x : A} {xs : List A} → Memᴰ x xs → p x ≡ true → (y : A) × (find p xs ≡ some y)
  unfolding find
  find-Mem p (Memᴰ.head {x = z} {xs} e) hit = (z, rw (subst (λ w. p w ≡ true) e hit) refl)
  find-Mem p (Memᴰ.tail {x = z} {xs} m) hit = elim (Bool-cases (p z)) [
    | inl here ↦ (z, rw here refl)
    | inr miss ↦ let (y, found) = find-Mem p m hit in (y, rw miss found)
  ]

  -- An update whose rows its own query no longer selects leaves none.
  pub count_where-update_where_self :
      (p : A → Bool) (f : A → A) (xs : List A)
      → ((x : A) → p x ≡ true → p (f x) ≡ false)
      → count_where p (update_where p f xs) ≡ 0
  unfolding count_where update_where
  count_where-update_where_self p f [] off = refl
  count_where-update_where_self p f (x ∷ xs) off =
      let rest = count_where-update_where_self p f xs off in
      elim (Bool-cases (p x)) [
        | inl hit ↦ let gone = off x hit in grind arith
        | inr miss ↦ grind arith
      ]

  -- An update that puts no row in reach of a query raises no count.
  pub count_where-update_where_le :
      (p q : A → Bool) (f : A → A) (xs : List A)
      → ((x : A) → p x ≡ true → q (f x) ≡ true → q x ≡ true)
      → count_where q (update_where p f xs) ≤ count_where q xs
  unfolding count_where update_where
  count_where-update_where_le p q f [] back = omega arith
  count_where-update_where_le p q f (x ∷ xs) back =
      let rest = count_where-update_where_le p q f xs back in
      elim (Bool-cases (p x)) [
        | inl hit ↦ elim (Bool-cases (q (f x))) [
          | inl here ↦ let k = back x hit here in grind arith
          | inr gone ↦ grind arith
        ]
        | inr miss ↦ grind arith
      ]

  pub count_where-delete_where :
      (p q : A → Bool) (xs : List A) → count_where q (delete_where p xs) ≤ count_where q xs
  unfolding count_where delete_where
  count_where-delete_where p q [] = omega arith
  count_where-delete_where p q (x ∷ xs) =
      let rest = count_where-delete_where p q xs in
      elim (Bool-cases (p x)) [ inl hit ↦ grind arith | inr miss ↦ grind arith ]

  -- A query that counts some row selects one.
  pub count_where-pos :
      (p : A → Bool) (xs : List A) → 0 < count_where p xs → (x : A) × Memᴰ x xs × (p x ≡ true)
  unfolding count_where
  count_where-pos p [] h = absurd (omega arith)
  count_where-pos p (x ∷ xs) h = elim (Bool-cases (p x)) [
    | inl hit ↦ (x, Memᴰ.head refl, hit)
    | inr miss ↦
        let (y, m, hit) = count_where-pos p xs (rw (miss, count_where) at h) in
        (y, Memᴰ.tail m, hit)
  ]

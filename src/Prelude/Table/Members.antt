-- ===== src/Prelude/Table/Members.antt =====
-- The rows of a table after an update, and the row behind a test that some row meets.
use mathlib.Core.Path.{◌≡◌, refl, sym, subst}
use mathlib.Core.Bool.{Bool, true}
use mathlib.Core.List.{List, [], ◌∷◌, Memᴰ}
use mathlib.Core.Logic.{inl, inr}
use zeroid.Prelude.Tests.{Bool-cases, if◌then◌else◌}
use zeroid.Prelude.Table.Rows.{update_where, any}

module _ {ℓ} {A : Type ℓ} where
  pub any-elim : (p : A → Bool) (xs : List A) → any p xs ≡ true → (x : A) × Memᴰ x xs × (p x ≡ true)
  unfolding any
  any-elim p [] h = cc
  any-elim p (x ∷ xs) h = elim (Bool-cases (p x)) [
    | inl hit ↦ (x, Memᴰ.head refl, hit)
    | inr miss ↦ let (y, m, k) = any-elim p xs (rw (miss, any) at h) in (y, Memᴰ.tail m, k)
  ]

  -- Each row of the updated table comes from one of the table.
  pub update_where-elim :
      (p : A → Bool) (f : A → A) {y : A} (xs : List A)
      → Memᴰ y (update_where p f xs)
      → (x : A) × Memᴰ x xs × (y ≡ (if p x then f x else x))
  unfolding update_where
  update_where-elim p f [] m = elim m [ ]
  update_where-elim p f (x ∷ xs) (Memᴰ.head e) = (x, Memᴰ.head refl, e)
  update_where-elim p f (x ∷ xs) (Memᴰ.tail m) =
      let (z, n, e) = update_where-elim p f xs m in (z, Memᴰ.tail n, e)

  pub update_where-intro :
      (p : A → Bool) (f : A → A) {x : A} {xs : List A}
      → Memᴰ x xs
      → Memᴰ (if p x then f x else x) (update_where p f xs)
  unfolding update_where
  update_where-intro p f (Memᴰ.head {x = z} {xs} e) =
      subst (λ w. Memᴰ (if p w then f w else w) (update_where p f (z ∷ xs))) (sym e)
        (Memᴰ.head refl)
  update_where-intro p f (Memᴰ.tail m) = Memᴰ.tail (update_where-intro p f m)

-- Two lists of one length, with a relation between the rows that stand at the same place.
module _ {ℓ κ} {A : Type ℓ} (R : A → A → Type κ) where
  pub data Pointwise : List A → List A → Type (ℓ ⊔ κ) where
    empty : Pointwise [] []
    both : {x y : A} {xs ys : List A} → R x y → Pointwise xs ys → Pointwise (x ∷ xs) (y ∷ ys)

module _ {ℓ κ} {A : Type ℓ} where
  pub update_where-Pointwise :
      (p : A → Bool) (f : A → A) (R : A → A → Type κ) (xs : List A)
      → ((x : A) → R x (if p x then f x else x))
      → Pointwise R xs (update_where p f xs)
  unfolding update_where
  update_where-Pointwise p f R [] each = empty
  update_where-Pointwise p f R (x ∷ xs) each = both (each x) (update_where-Pointwise p f R xs each)

  -- The row that stands where `x` stood.
  pub Pointwise-Mem :
      {R : A → A → Type κ} {x : A} {xs ys : List A}
      → Memᴰ x xs
      → Pointwise R xs ys
      → (y : A) × Memᴰ y ys × R x y
  Pointwise-Mem {R} (Memᴰ.head e) (both {y = y} r rest) =
      (y, Memᴰ.head refl, subst (λ z. R z y) (sym e) r)
  Pointwise-Mem (Memᴰ.tail m) (both r rest) =
      let (y, n, k) = Pointwise-Mem m rest in (y, Memᴰ.tail n, k)

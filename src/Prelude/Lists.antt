-- ===== src/Prelude/Lists.antt =====
-- Lists: length by native numbers, Boolean and type-valued quantifiers, membership of a text.
use Prim.Native.Nat.{ℕ, suc}
use Prim.Native.String.{String}
use mathlib.Core.Path.{◌≡◌, refl, sym, subst}
use mathlib.Core.Logic.{inl, inr, ◌≢◌}
use mathlib.Core.Bool.{Bool, true, false, ◌&&◌, ◌||◌, and-eq-true_iff}
use mathlib.Core.List.{List, [], ◌∷◌, Memᴰ}
use native.Mathlib.Omega.{arith}
use text.Mathlib.Text.{◌==◌}
use text.Mathlib.TextEquality.{eq_iff}
use zeroid.Prelude.Tests.{Bool-cases}

module _ {ℓ} {A : Type ℓ} where
  abbrev pub length : List A → ℕ
  length [] = 0
  length (x ∷ xs) = suc (length xs)

  abbrev pub is_empty : List A → Bool
  is_empty [] = true
  is_empty (x ∷ xs) = false

  abbrev pub all : (A → Bool) → List A → Bool
  all p [] = true
  all p (x ∷ xs) = p x && all p xs

module _ {ℓ κ} {A : Type ℓ} (P : A → Type κ) where
  abbrev pub All : List A → Type κ
  All [] = Unit
  All (x ∷ xs) = P x × All xs

module _ {ℓ κ} {A : Type ℓ} (P : A → Type κ) where
  pub All-intro : (xs : List A) → ((x : A) → Memᴰ x xs → P x) → All P xs
  All-intro [] f = tt
  All-intro (x ∷ xs) f = (f x (Memᴰ.head refl), All-intro xs (λ y m. f y (Memᴰ.tail m)))

  pub All-elim : {x : A} {xs : List A} → Memᴰ x xs → All P xs → P x
  All-elim (Memᴰ.head e) h = subst P (sym e) h.0
  All-elim (Memᴰ.tail m) h = All-elim m h.1

-- `slices.Contains` on strings; also the look-up in a `map[string]bool` that is filled from a slice.
abbrev pub contains : List String → String → Bool
contains [] s = false
contains (x ∷ xs) s = x == s || contains xs s

pub contains-mem : (xs : List String) (s : String) → contains xs s ≡ true → Memᴰ s xs
contains-mem [] s h = cc
contains-mem (x ∷ xs) s h = elim (Bool-cases (x == s)) [
  | inl same ↦ Memᴰ.head (sym ((eq_iff x s).0 same))
  | inr other ↦ Memᴰ.tail (contains-mem xs s (rw other at h))
]

pub mem-contains : {s : String} {xs : List String} → Memᴰ s xs → contains xs s ≡ true
mem-contains {s} (Memᴰ.head {x} {xs} e) = rw ((eq_iff x s).1 (sym e))
mem-contains {s} (Memᴰ.tail {x} {xs} m) = ground (arith, mem-contains m)

-- Every element of the first list stands in the second.
abbrev pub Subset : List String → List String → Type 0
Subset xs ys = All (λ s. Memᴰ s ys) xs

pub all-contains-Subset : (ys xs : List String) → all (contains ys) xs ≡ true → Subset xs ys
all-contains-Subset ys [] h = tt
all-contains-Subset ys (x ∷ xs) h =
    let (here, later) = (and-eq-true_iff _ _).0 h in
    (contains-mem ys x here, all-contains-Subset ys xs later)

pub Subset-all-contains : (ys xs : List String) → Subset xs ys → all (contains ys) xs ≡ true
Subset-all-contains ys [] h = refl
Subset-all-contains ys (x ∷ xs) h =
    (and-eq-true_iff _ _).1 (mem-contains h.0, Subset-all-contains ys xs h.1)

pub Subset-refl : (xs : List String) → Subset xs xs
Subset-refl xs = go xs (λ s m. m)
  where
    go : (zs : List String) → ((s : String) → Memᴰ s zs → Memᴰ s xs) → Subset zs xs
    go zs f = All-intro (λ s. Memᴰ s xs) zs f

pub mem_of_Subset : {s : String} {xs ys : List String} → Memᴰ s xs → Subset xs ys → Memᴰ s ys
mem_of_Subset {ys} m h = All-elim (λ s. Memᴰ s ys) m h

pub Subset_trans : (xs ys zs : List String) → Subset xs ys → Subset ys zs → Subset xs zs
Subset_trans [] ys zs h k = tt
Subset_trans (x ∷ xs) ys zs h k = (mem_of_Subset h.0 k, Subset_trans xs ys zs h.1 k)

-- The test of a look-up by id within a tenant.
pub same_key :
    (a b c d e f : String) → (a == b && (c == d && e == f)) ≡ true → (a ≡ b) × (c ≡ d) × (e ≡ f)
same_key a b c d e f h =
    let (p, qr) = (and-eq-true_iff _ _).0 h in
    let (q, r) = (and-eq-true_iff _ _).0 qr in
    ((eq_iff a b).0 p, (eq_iff c d).0 q, (eq_iff e f).0 r)

-- `s != ""` and its kin, as the tests of the code.
pub eq_false_of_ne : (s t : String) → s ≢ t → (s == t) ≡ false
eq_false_of_ne s t n = elim (Bool-cases (s == t)) [
  | inl same ↦ absurd (n ((eq_iff s t).0 same))
  | inr other ↦ other
]

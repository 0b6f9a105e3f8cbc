-- ===== src/OAuth/Step.antt =====
-- The grants as steps on the tables: an error ends the grant, and keeps what was written before it.
use zeroid.Prelude.{Bool, true, false, Option, none, some, ◌≡◌, refl, sym, ap}
use zeroid.Prelude.Result.{Result, ok, err}
use zeroid.OAuth.Defs.{OAuthError, World}

abbrev pub Step : Type 0 → Type 0
Step A = World → Result OAuthError A × World

abbrev pub and_then :
    {A B : Type 0} → Result OAuthError A × World → (A → Step B) → Result OAuthError B × World
and_then (ok a, w) f = f a w
and_then (err e, w) f = (err e, w)

infixl 5 ◌>>=◌ ◌>>◌
unfoldable pub ◌>>=◌ : {A B : Type 0} → Step A → (A → Step B) → Step B
(m >>= f) w = and_then (m w) f

abbrev pub ◌>>◌ : {B : Type 0} → Step (Unit {0}) → Step B → Step B
m >> k = m >>= λ _. k

abbrev pub done : {A : Type 0} → A → Step A
done a w = (ok a, w)

-- `if !test { return e }`
abbrev pub check : Bool → OAuthError → Step (Unit {0})
check true e w = (ok tt, w)
check false e w = (err e, w)

abbrev pub need : {A : Type 0} → Option A → OAuthError → Step A
need none e w = (err e, w)
need (some a) e w = (ok a, w)

pub >>=-eq_ok :
    {A B : Type 0} (m : Step A) (f : A → Step B) (w : World) {b : B} {w' : World}
    → (m >>= f) w ≡ (ok b, w')
    → (a : A) × (v : World) × (m w ≡ (ok a, v)) × (f a v ≡ (ok b, w'))
unfolding ◌>>=◌
>>=-eq_ok {A} {B} m f w {b} {w'} h = go (m w) refl h
  where
    go :
        (r : Result OAuthError A × World)
        → m w ≡ r
        → and_then r f ≡ (ok b, w')
        → (a : A) × (v : World) × (m w ≡ (ok a, v)) × (f a v ≡ (ok b, w'))
    go (ok a, v) e k = (a, v, e, k)
    go (err x, v) e k = cc

pub check-eq_ok :
    {B : Type 0} (t : Bool) (e : OAuthError) (k : Step B) (w : World) {b : B} {w' : World}
    → (check t e >> k) w ≡ (ok b, w')
    → (t ≡ true) × (k w ≡ (ok b, w'))
unfolding ◌>>=◌
check-eq_ok true e k w h = (refl, h)
check-eq_ok false e k w h = cc

pub need-eq_ok :
    {A B : Type 0} (o : Option A) (e : OAuthError) (f : A → Step B) (w : World) {b : B} {w' : World}
    → (need o e >>= f) w ≡ (ok b, w')
    → (a : A) × (o ≡ some a) × (f a w ≡ (ok b, w'))
unfolding ◌>>=◌
need-eq_ok none e f w h = cc
need-eq_ok (some a) e f w h = (a, refl, h)

-- A check or a need that ends a grant.
pub check_last :
    (t : Bool) (e : OAuthError) (w : World) {v : World} → check t e w ≡ (ok tt, v) → v ≡ w
check_last true e w h = sym (ap (λ r. r.1) h)
check_last false e w h = cc

pub check-true :
    (t : Bool) (e : OAuthError) (w : World) {v : World}
    → check t e w ≡ (ok tt, v)
    → (t ≡ true) × (v ≡ w)
check-true true e w h = (refl, sym (ap (λ r. r.1) h))
check-true false e w h = cc

pub need_last :
    {A : Type 0} (o : Option A) (e : OAuthError) (w : World) {a : A} {v : World}
    → need o e w ≡ (ok a, v)
    → (o ≡ some a) × (v ≡ w)
need_last none e w h = cc
need_last (some b) e w h = (cc (ap (λ r. r.0) h), sym (ap (λ r. r.1) h))

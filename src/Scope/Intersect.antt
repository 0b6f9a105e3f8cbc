-- ===== src/Scope/Intersect.antt =====
-- internal/service/oauth.go: the scopes that `intersectScopes` keeps.
use zeroid.Prelude.{
  String, true, ◌≡◌, ◌≢◌, ◌↔◌, inl, inr, refl, List, [], ◌∷◌, Memᴰ, contains, contains-mem,
  mem-contains, Bool-cases, sym,
}
use mathlib.Core.Path.{subst}
use zeroid.Scope.{intersect_scopes, keep_allowed}

pub keep_allowed-Mem :
    (allowed requested : List String) (s : String)
    → Memᴰ s (keep_allowed allowed requested)
    → Memᴰ s requested × Memᴰ s allowed
unfolding keep_allowed
keep_allowed-Mem allowed [] s m = elim m [ ]
keep_allowed-Mem allowed (r ∷ rs) s m = elim (Bool-cases (contains allowed r)) [
  | inl b ↦ kept b (keep_allowed-Mem allowed rs s) (rw (b, keep_allowed) at m)
  | inr b ↦
      let (x, y) = keep_allowed-Mem allowed rs s (rw (b, keep_allowed) at m) in (Memᴰ.tail x, y)
]
  where
    kept :
        contains allowed r ≡ true
        → (Memᴰ s (keep_allowed allowed rs) → Memᴰ s rs × Memᴰ s allowed)
        → Memᴰ s (r ∷ keep_allowed allowed rs)
        → Memᴰ s (r ∷ rs) × Memᴰ s allowed
    kept b later (Memᴰ.head e) =
        (Memᴰ.head e, subst (λ z. Memᴰ z allowed) (sym e) (contains-mem allowed r b))
    kept b later (Memᴰ.tail n) = let (x, y) = later n in (Memᴰ.tail x, y)

keep_allowed-all :
    (allowed requested : List String) (s : String)
    → Memᴰ s requested
    → Memᴰ s allowed
    → Memᴰ s (keep_allowed allowed requested)
unfolding keep_allowed
keep_allowed-all allowed [] s m a = elim m [ ]
keep_allowed-all allowed (r ∷ rs) s (Memᴰ.head e) a =
    let b : contains allowed r ≡ true = mem-contains (subst (λ z. Memᴰ z allowed) e a) in
    rw b (Memᴰ.head e)
keep_allowed-all allowed (r ∷ rs) s (Memᴰ.tail m) a = elim (Bool-cases (contains allowed r)) [
  | inl b ↦ rw b (Memᴰ.tail (keep_allowed-all allowed rs s m a))
  | inr b ↦ rw b (keep_allowed-all allowed rs s m a)
]

-- Where neither the request nor the allowed list is empty, a scope is granted exactly if it is requested and
-- allowed.
pub intersect_scopes_iff :
    (requested allowed : List String)
    → requested ≢ []
    → allowed ≢ []
    → (s : String)
    → Memᴰ s (intersect_scopes requested allowed) ↔ (Memᴰ s requested × Memᴰ s allowed)
unfolding intersect_scopes
intersect_scopes_iff [] allowed n m s = absurd (n refl)
intersect_scopes_iff (r ∷ rs) [] n m s = absurd (m refl)
intersect_scopes_iff (r ∷ rs) (a ∷ more) n m s =
    (keep_allowed-Mem (a ∷ more) (r ∷ rs) s, λ k. keep_allowed-all (a ∷ more) (r ∷ rs) s k.0 k.1)

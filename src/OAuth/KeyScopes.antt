-- ===== src/OAuth/KeyScopes.antt =====
-- internal/service/oauth.go: the chain of intersections of `apiKeyGrant`.
use zeroid.Prelude.{
  ◌≡◌, ◌≢◌, refl, String, false, List, [], ◌∷◌, Memᴰ, contains, is_empty, ◌&&◌, if◌then◌else◌,
}
use zeroid.Scope.{intersect_scopes, keep_allowed}
use zeroid.Scope.Intersect.{keep_allowed-Mem}
use zeroid.OAuth.Key.{key_scopes}

-- What passes a list that is not empty stands in it.
intersect_scopes-within :
    (requested allowed : List String) {x : String}
    → allowed ≢ []
    → Memᴰ x (intersect_scopes requested allowed)
    → Memᴰ x allowed
unfolding intersect_scopes
intersect_scopes-within requested [] n m = absurd (n refl)
intersect_scopes-within [] (a ∷ more) n m = m
intersect_scopes-within (r ∷ rs) (a ∷ more) n m = (keep_allowed-Mem (a ∷ more) (r ∷ rs) _ m).1

pub key_scopes-within :
    (requested key key_policy policy identity : List String) {x : String}
    → (is_empty policy && is_empty identity) ≡ false
    → Memᴰ x (key_scopes requested key key_policy policy identity)
    → Memᴰ x (if is_empty policy then identity else policy)
unfolding key_scopes
key_scopes-within requested key key_policy [] [] n m = cc
key_scopes-within requested key key_policy [] (i ∷ more) n m =
    intersect_scopes-within _ (i ∷ more) (λ e. cc) m
key_scopes-within requested key key_policy (p ∷ ps) identity n m =
    intersect_scopes-within _ (p ∷ ps) (λ e. cc) m

keep_allowed-none :
    (allowed requested : List String)
    → ((x : String) → Memᴰ x requested → contains allowed x ≡ false)
    → keep_allowed allowed requested ≡ []
unfolding keep_allowed
keep_allowed-none allowed [] out = refl
keep_allowed-none allowed (r ∷ rs) out =
    let here = out r (Memᴰ.head refl) in
    simp here (keep_allowed-none allowed rs (λ x m. out x (Memᴰ.tail m)))

-- An empty intersection is passed on as a request for all that is allowed.
pub key_scopes-widened :
    (requested key policy identity : List String)
    → requested ≢ []
    → key ≢ []
    → ((x : String) → Memᴰ x requested → contains key x ≡ false)
    → key_scopes requested key [] policy identity ≡ (if is_empty policy then identity else policy)
unfolding key_scopes intersect_scopes
key_scopes-widened [] key policy identity n k out = absurd (n refl)
key_scopes-widened (r ∷ rs) [] policy identity n k out = absurd (k refl)
key_scopes-widened (r ∷ rs) (a ∷ more) [] [] n k out =
    simp (keep_allowed-none (a ∷ more) (r ∷ rs) out) refl
key_scopes-widened (r ∷ rs) (a ∷ more) [] (i ∷ is) n k out =
    simp (keep_allowed-none (a ∷ more) (r ∷ rs) out) refl
key_scopes-widened (r ∷ rs) (a ∷ more) (q ∷ qs) identity n k out =
    simp (keep_allowed-none (a ∷ more) (r ∷ rs) out) refl

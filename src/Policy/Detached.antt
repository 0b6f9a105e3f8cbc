-- ===== src/Policy/Detached.antt =====
-- internal/service/credential_policy.go: what the deletion of a policy leaves.
use mathlib.Core.Path.{subst}
use zeroid.Prelude.{
  ◌≡◌, refl, sym, String, Bool, true, false, List, [], ◌∷◌, ◌==◌, inl, inr, Bool-cases, ltb, ◌≢◌,
  ◌⊎◌, eq_false_of_ne, Memᴰ,
}
use zeroid.Prelude.Result.{ok, err}
use zeroid.Prelude.Table.{
  any, any-narrower, any-count_where, count_where, delete_where, update_where,
}
use zeroid.Identity.Model.{Identity}
use zeroid.Policy.Defs.{CredentialPolicy}
use zeroid.Policy.Admin.{in_tenant}
use zeroid.OAuth.Defs.{ApiKey}
use zeroid.Policy.Delete.{
  PolicyTables, key_in_tenant, key_refers, identity_refers, clear_policy, delete_row, delete,
  delete_policy, DeleteError, still_referenced, delete_failed,
}

any-delete_where : {A : Type 0} (p : A → Bool) (xs : List A) → any p (delete_where p xs) ≡ false
unfolding any delete_where
any-delete_where p [] = refl
any-delete_where p (x ∷ xs) = elim (Bool-cases (p x)) [
  | inl hit ↦ simp (hit, any-delete_where p xs) refl
  | inr miss ↦ simp (miss, any-delete_where p xs) refl
]

kept-delete_where :
    {A : Type 0} (p : A → Bool) {x : A} {xs : List A}
    → Memᴰ x xs
    → p x ≡ false
    → Memᴰ x (delete_where p xs)
unfolding delete_where
kept-delete_where p (Memᴰ.head {x = z} {xs} e) miss =
    let k : p z ≡ false = subst (λ w. p w ≡ false) e miss in rw k (Memᴰ.head e)
kept-delete_where p (Memᴰ.tail {x = z} {xs} m) miss =
    let rest = kept-delete_where p m miss in
    elim (Bool-cases (p z)) [ inl hit ↦ rw hit rest | inr k ↦ rw k (Memᴰ.tail rest) ]

cleared :
    (id : String) (rows : List Identity)
    → id ≢ ""
    → any (identity_refers id) (update_where (identity_refers id) clear_policy rows) ≡ false
unfolding any update_where identity_refers clear_policy
cleared id [] set = refl
cleared id (i ∷ rows) set =
    let rest = cleared id rows set in
    let off : ("" == id) ≡ false = eq_false_of_ne "" id (λ e. set (sym e)) in
    elim (Bool-cases (i.credential_policy_id == id)) [
      | inl hit ↦ simp (hit, off, rest) refl
      | inr miss ↦ simp (miss, rest) refl
    ]

-- The tables after the deletion of a policy: the policy is gone and the others are there, no key refers to it, and
-- no identity does, though some may have done before.
pub record Detached (id account project : String) (t t' : PolicyTables) : Type 0 where
  pub gone : any (in_tenant id account project) t'.policies ≡ false
  pub others :
      (p : CredentialPolicy)
      → in_tenant id account project p ≡ false
      → Memᴰ p t.policies
      → Memᴰ p t'.policies
  pub same_keys : t'.keys ≡ t.keys
  pub keys_free : any (key_refers id) t'.keys ≡ false
  pub identities : t'.identities ≡ update_where (identity_refers id) clear_policy t.identities
  pub identities_free : any (identity_refers id) t'.identities ≡ false

detached :
    (id account project : String) (t : PolicyTables)
    → id ≢ ""
    → any (key_refers id) t.keys ≡ false
    → Detached id account project t (record t {
      policies = delete_where (in_tenant id account project) t.policies;
      identities = update_where (identity_refers id) clear_policy t.identities;
    })
detached id account project t set free = record {
  gone = any-delete_where (in_tenant id account project) t.policies;
  others = λ p miss m. kept-delete_where (in_tenant id account project) m miss;
  same_keys = refl;
  keys_free = free;
  identities = refl;
  identities_free = cleared id t.identities set;
}

-- A key of the tenant that refers to the policy is a key that does.
uncounted :
    (id account project : String) (keys : List ApiKey)
    → any (key_refers id) keys ≡ false
    → count_where (key_in_tenant id account project) keys ≡ 0
unfolding key_refers key_in_tenant
uncounted id account project keys free = any-count_where (key_in_tenant id account project) keys (
    any-narrower (key_in_tenant id account project) (key_refers id) keys (λ k miss. simp miss refl)
      free)

-- Where the statements run, `DeletePolicy` of a policy that the tenant has fails, if a key of any tenant refers to
-- the policy. If none does, it removes this policy alone, and takes it from every identity that has it:
-- identities do not keep it from being deleted.
pub delete_policy-Detached :
    (id account project : String) (t : PolicyTables)
    → id ≢ ""
    → any (in_tenant id account project) t.policies ≡ true
    → ((any (key_refers id) t.keys ≡ true)
        × ((e : DeleteError) × (delete_policy true true id account project t ≡ err e)))
      ⊎ ((any (key_refers id) t.keys ≡ false)
          × ((t' : PolicyTables) × (delete_policy true true id account project t ≡ ok t')
              × Detached id account project t t'))
unfolding delete_policy delete delete_row
delete_policy-Detached id account project t set there =
    elim (Bool-cases (any (key_refers id) t.keys)) [
      | inl refers ↦ inl (
        refers,
        elim (Bool-cases (ltb 0 (count_where (key_in_tenant id account project) t.keys))) [
          | inl counted ↦ (still_referenced, simp counted refl)
          | inr elsewhere ↦ (delete_failed, simp (elsewhere, there, refers) refl)
        ],
      )
      | inr free ↦
          let none_counted = uncounted id account project t.keys free in
          inr (
            free,
            (
              record t {
                policies = delete_where (in_tenant id account project) t.policies;
                identities = update_where (identity_refers id) clear_policy t.identities;
              },
              simp (none_counted, there, free) refl,
              detached id account project t set free,
            ),
          )
    ]

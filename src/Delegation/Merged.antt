-- ===== src/Delegation/Merged.antt =====
-- internal/service/delegation.go: which credentials the merge of two walks keeps.
use mathlib.Core.Path.{subst}
use mathlib.Core.Bool.{and-eq-true_iff}
use zeroid.Prelude.{
  ◌≡◌, refl, String, Bool, true, false, not, List, [], ◌∷◌, ◌++◌, ◌==◌, ◌&&◌, ◌||◌, inl, inr,
  Bool-cases, eq_iff, map, contains, arith,
}
use zeroid.Credential.Defs.{IssuedCredential}
use zeroid.Delegation.Graph.{append_unseen, merge_by_jti}

-- The JTIs of a list of credentials.
abbrev pub jtis : List IssuedCredential → List String
jtis cs = map (λ c. c.jti) cs

-- No text stands twice.
abbrev pub distinct : List String → Bool
distinct [] = true
distinct (x ∷ xs) = not (contains xs x) && distinct xs

contains-append :
    (xs ys : List IssuedCredential) (s : String)
    → contains (jtis (xs ++ ys)) s ≡ contains (jtis xs) s || contains (jtis ys) s
contains-append [] ys s = refl
contains-append (x ∷ xs) ys s = let rest = contains-append xs ys s in ground arith

-- A list that holds one text for a test's sake decides the test at an equal text.
contains_same :
    (xs : List String) (s t : String) (b : Bool)
    → (s == t) ≡ true
    → contains xs s ≡ b
    → contains xs t ≡ b
contains_same xs s t b same h = subst (λ u. contains xs u ≡ b) ((eq_iff s t).0 same) h

-- What a loop appends is what it has not seen before.
contains-append_unseen :
    (seen : List String) (cs : List IssuedCredential) (s : String)
    → contains (jtis (append_unseen seen cs).1) s ≡ not (contains seen s) && contains (jtis cs) s
unfolding append_unseen
contains-append_unseen seen [] s = elim (Bool-cases (contains seen s)) [
  | inl h ↦ simp h refl
  | inr h ↦ simp h refl
]
contains-append_unseen seen (c ∷ cs) s =
    let skip = contains-append_unseen seen cs s in
    let keep = contains-append_unseen (c.jti ∷ seen) cs s in
    elim (Bool-cases (contains seen c.jti)) [
      | inl held ↦ elim (Bool-cases (c.jti == s)) [
        | inl same ↦ let k = contains_same seen c.jti s true same held in simp (held, skip, k) refl
        | inr other ↦ simp (held, skip, other) refl
      ]
      | inr new ↦ elim (Bool-cases (c.jti == s)) [
        | inl same ↦ let k = contains_same seen c.jti s false same new in simp (new, same, k) refl
        | inr other ↦ simp (new, keep, other) refl
      ]
    ]

seen-append_unseen :
    (seen : List String) (cs : List IssuedCredential) (s : String)
    → contains (append_unseen seen cs).0 s ≡ contains seen s || contains (jtis cs) s
unfolding append_unseen
seen-append_unseen seen [] s = elim (Bool-cases (contains seen s)) [
  | inl h ↦ simp h refl
  | inr h ↦ simp h refl
]
seen-append_unseen seen (c ∷ cs) s =
    let skip = seen-append_unseen seen cs s in
    let keep = seen-append_unseen (c.jti ∷ seen) cs s in
    elim (Bool-cases (contains seen c.jti)) [
      | inl held ↦ elim (Bool-cases (c.jti == s)) [
        | inl same ↦ let k = contains_same seen c.jti s true same held in simp (held, skip, k) refl
        | inr other ↦ simp (held, skip, other) refl
      ]
      | inr new ↦ elim (Bool-cases (c.jti == s)) [
        | inl same ↦
            let k = contains_same seen c.jti s false same new in simp (new, keep, same, k) refl
        | inr other ↦ simp (new, keep, other) refl
      ]
    ]

distinct-append_unseen :
    (seen : List String) (cs : List IssuedCredential)
    → distinct (jtis (append_unseen seen cs).1) ≡ true
unfolding append_unseen
distinct-append_unseen seen [] = refl
distinct-append_unseen seen (c ∷ cs) = elim (Bool-cases (contains seen c.jti)) [
  | inl held ↦ rw held (distinct-append_unseen seen cs)
  | inr new ↦
      let later = contains-append_unseen (c.jti ∷ seen) cs c.jti in
      let same : (c.jti == c.jti) ≡ true = (eq_iff c.jti c.jti).1 refl in
      let rest = distinct-append_unseen (c.jti ∷ seen) cs in simp (new, later, same, rest) refl
]

distinct-append :
    (xs ys : List IssuedCredential)
    → distinct (jtis xs) ≡ true
    → distinct (jtis ys) ≡ true
    → ((s : String) → contains (jtis xs) s ≡ true → contains (jtis ys) s ≡ false)
    → distinct (jtis (xs ++ ys)) ≡ true
distinct-append [] ys dx dy apart = dy
distinct-append (x ∷ xs) ys dx dy apart =
    let (fresh, rest) = (and-eq-true_iff (not (contains (jtis xs) x.jti)) _).0 dx in
    let same : (x.jti == x.jti) ≡ true = (eq_iff x.jti x.jti).1 refl in
    let gone : contains (jtis ys) x.jti ≡ false = apart x.jti (simp same refl) in
    let both = contains-append xs ys x.jti in
    let tail = distinct-append xs ys rest dy (λ s h.
      apart s
        (elim (Bool-cases (x.jti == s)) [ inl e ↦ simp e refl | inr e ↦ simp (e, h) refl ])) in
    elim (Bool-cases (contains (jtis xs) x.jti)) [
      | inl held ↦ cc (rw held at fresh)
      | inr new ↦ simp (both, new, gone, tail) refl
    ]

-- `mergeByJTI` keeps a JTI if either list has it.
pub contains-merge :
    (a b : List IssuedCredential) (s : String)
    → contains (jtis (merge_by_jti a b)) s ≡ contains (jtis a) s || contains (jtis b) s
unfolding merge_by_jti
contains-merge a b s =
    let front = contains-append_unseen [] a s in
    let seen = seen-append_unseen [] a s in
    let back = contains-append_unseen (append_unseen [] a).0 b s in
    let both =
      contains-append (append_unseen [] a).1 (append_unseen (append_unseen [] a).0 b).1 s in
    elim (Bool-cases (contains (jtis a) s)) [
      | inl held ↦ simp (both, front, held) refl
      | inr new ↦ simp (both, front, back, seen, new) refl
    ]

-- `mergeByJTI` keeps no JTI twice.
pub distinct-merge : (a b : List IssuedCredential) → distinct (jtis (merge_by_jti a b)) ≡ true
unfolding merge_by_jti
distinct-merge a b =
    distinct-append (append_unseen [] a).1 (append_unseen (append_unseen [] a).0 b).1
      (distinct-append_unseen [] a) (distinct-append_unseen (append_unseen [] a).0 b)
      (λ s h.
        let front = contains-append_unseen [] a s in
        let seen = seen-append_unseen [] a s in
        let back = contains-append_unseen (append_unseen [] a).0 b s in
        elim (Bool-cases (contains (jtis a) s)) [
          | inl held ↦ simp (back, seen, held) refl
          | inr new ↦ cc (front, h, new)
        ])

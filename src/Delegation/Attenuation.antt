-- ===== src/Delegation/Attenuation.antt =====
-- internal/service/delegation.go: the scopes on the edges of a graph.
use mathlib.Core.Path.{subst}
use zeroid.Prelude.{
  ◌≡◌, refl, sym, String, Bool, true, false, not, Option, none, some, List, [], ◌∷◌, ◌==◌, ◌&&◌,
  inl, inr, Bool-cases, eq_iff, map, contains, Memᴰ, ltb, length,
}
use zeroid.Prelude.Table.{find}
use zeroid.Credential.Defs.{IssuedCredential}
use zeroid.Delegation.Graph.{
  GraphEdge, Answers, keep_missing, set_diff, with_parent, build_edge, credential_to_edge,
  build_graph, graph_of, index_by_jti, take, max_graph_nodes,
}

contains-keep_missing :
    (b xs : List String) (s : String)
    → contains (keep_missing b xs) s ≡ contains xs s && not (contains b s)
unfolding keep_missing
contains-keep_missing b [] s = refl
contains-keep_missing b (x ∷ xs) s =
    let rest = contains-keep_missing b xs s in
    elim (Bool-cases (x == s)) [
      | inl same ↦
          let e = (eq_iff x s).0 same in
          elim (Bool-cases (contains b x)) [
            | inl held ↦
                let k : contains b s ≡ true = rw e at held in
                simp (held, rest, k, same)
                  (elim (Bool-cases (contains xs s)) [ inl h ↦ simp h refl | inr h ↦ simp h refl ])
            | inr missing ↦
                let k : contains b s ≡ false = rw e at missing in simp (missing, k, same) refl
          ]
      | inr other ↦ elim (Bool-cases (contains b x)) [
        | inl held ↦ simp (held, other, rest) refl
        | inr missing ↦ simp (missing, other, rest) refl
      ]
    ]

contains-set_diff :
    (xs b : List String) (s : String)
    → contains (set_diff xs b) s ≡ contains xs s && not (contains b s)
unfolding set_diff
contains-set_diff [] b s = refl
contains-set_diff (x ∷ xs) b s = contains-keep_missing b (x ∷ xs) s

-- The attenuated scopes of an edge are the ones that come in and do not go out.
Attenuates : GraphEdge → Type 0
Attenuates e =
    (s : String) → contains e.attenuated s ≡ contains e.scopes_in s && not (contains e.scopes_out s)

and_not_self : (b : Bool) → false ≡ b && not b
and_not_self true = refl
and_not_self false = refl

credential_to_edge-Attenuates : (c : IssuedCredential) → Attenuates (credential_to_edge c)
unfolding Attenuates credential_to_edge
credential_to_edge-Attenuates c s = and_not_self (contains c.scopes s)

with_parent-Attenuates :
    (c : IssuedCredential) (p : Option IssuedCredential)
    → Attenuates (with_parent (credential_to_edge c) c p)
unfolding Attenuates credential_to_edge with_parent
with_parent-Attenuates c none s = credential_to_edge-Attenuates c s
with_parent-Attenuates c (some p) s = contains-set_diff p.scopes c.scopes s

build_edge-Attenuates :
    (by_jti : List IssuedCredential) (c : IssuedCredential) → Attenuates (build_edge by_jti c)
unfolding build_edge
build_edge-Attenuates by_jti c = elim (Bool-cases (c.parent_jti == "")) [
  | inl root ↦ rw root (credential_to_edge-Attenuates c)
  | inr hop ↦ rw hop (with_parent-Attenuates c (find (λ p. p.jti == c.parent_jti) by_jti))
]

edge_of :
    (by_jti : List IssuedCredential) {e : GraphEdge} (cs : List IssuedCredential)
    → Memᴰ e (map (build_edge by_jti) cs)
    → Attenuates e
edge_of by_jti [] m = elim m [ ]
edge_of by_jti (c ∷ cs) (Memᴰ.head e) = subst Attenuates (sym e) (build_edge-Attenuates by_jti c)
edge_of by_jti (c ∷ cs) (Memᴰ.tail m) = edge_of by_jti cs m

-- On every edge of a graph, at a root as below a parent, a scope is marked attenuated if, and only if, it is among
-- the scopes that come in and not among the ones that go out.
pub build_graph-attenuated :
    (answers : Answers) (creds : List IssuedCredential) (focal_id : String) (e : GraphEdge)
    → Memᴰ e (build_graph answers creds focal_id).edges
    → (s : String)
    → contains e.attenuated s ≡ contains e.scopes_in s && not (contains e.scopes_out s)
unfolding build_graph graph_of Attenuates
build_graph-attenuated answers creds focal_id e m s =
    elim (Bool-cases (ltb max_graph_nodes (length creds))) [
      | inl big ↦
          let cut = take max_graph_nodes creds in edge_of (index_by_jti [] cut) cut (rw big at m) s
      | inr small ↦ edge_of (index_by_jti [] creds) creds (rw small at m) s
    ]

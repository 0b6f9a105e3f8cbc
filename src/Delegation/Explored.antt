-- ===== src/Delegation/Explored.antt =====
-- internal/service/delegation.go: which credentials the graph of an identity shows, and how many.
use mathlib.Core.Bool.{and-eq-true_iff}
use zeroid.Prelude.{
  ◌≡◌, refl, ap, ℕ, zero, suc, ◌≤◌, String, true, false, not, Option, none, some, List, [], ◌∷◌,
  ◌==◌, ◌||◌, inl, inr, Bool-cases, map, contains, arith, ltb, length,
}
use zeroid.Prelude.Int.{ℤ}
use zeroid.Prelude.Result.{ok}
use zeroid.Prelude.Table.{find}
use zeroid.Credential.Defs.{IssuedCredential}
use zeroid.Delegation.Merged.{jtis, distinct, contains-merge, distinct-merge}
use zeroid.Delegation.Graph.{
  GraphEdge, Graph, Answers, merge_by_jti, with_parent, build_edge, credential_to_edge, build_graph,
  graph_of, index_by_jti, take, max_graph_nodes, get_graph, focal_graph, merged_graph, clamp_depth,
}

length-take : (n : ℕ) (cs : List IssuedCredential) → length (take n cs) ≤ n
unfolding take
length-take zero cs = omega arith
length-take (suc n) [] = omega arith
length-take (suc n) (c ∷ cs) = let rest = length-take n cs in omega arith

contains-take :
    (n : ℕ) (cs : List IssuedCredential) (s : String)
    → contains (jtis cs) s ≡ false
    → contains (jtis (take n cs)) s ≡ false
unfolding take
contains-take zero cs s h = refl
contains-take (suc n) [] s h = refl
contains-take (suc n) (c ∷ cs) s h = elim (Bool-cases (c.jti == s)) [
  | inl same ↦ cc (rw same at h)
  | inr other ↦ simp (other, contains-take n cs s (rw other at h)) refl
]

distinct-take :
    (n : ℕ) (cs : List IssuedCredential)
    → distinct (jtis cs) ≡ true
    → distinct (jtis (take n cs)) ≡ true
unfolding take
distinct-take zero cs h = refl
distinct-take (suc n) [] h = refl
distinct-take (suc n) (c ∷ cs) h =
    let (fresh, rest) = (and-eq-true_iff (not (contains (jtis cs) c.jti)) _).0 h in
    elim (Bool-cases (contains (jtis cs) c.jti)) [
      | inl held ↦ cc (rw held at fresh)
      | inr new ↦ simp (contains-take n cs c.jti new, distinct-take n cs rest) refl
    ]

-- The JTIs on the edges of a graph.
abbrev pub edge_jtis : List GraphEdge → List String
edge_jtis es = map (λ e. e.jti) es

with_parent-jti :
    (c : IssuedCredential) (p : Option IssuedCredential)
    → (with_parent (credential_to_edge c) c p).jti ≡ c.jti
unfolding with_parent credential_to_edge
with_parent-jti c none = refl
with_parent-jti c (some p) = refl

build_edge-jti :
    (by_jti : List IssuedCredential) (c : IssuedCredential) → (build_edge by_jti c).jti ≡ c.jti
unfolding build_edge credential_to_edge
build_edge-jti by_jti c = elim (Bool-cases (c.parent_jti == "")) [
  | inl root ↦ simp root refl
  | inr hop ↦ rw hop (with_parent-jti c (find (λ p. p.jti == c.parent_jti) by_jti))
]

edge_jtis-build :
    (by_jti cs : List IssuedCredential) → edge_jtis (map (build_edge by_jti) cs) ≡ jtis cs
edge_jtis-build by_jti [] = refl
edge_jtis-build by_jti (c ∷ cs) = simp (build_edge-jti by_jti c, edge_jtis-build by_jti cs) refl

length-build : (by_jti cs : List IssuedCredential) → length (map (build_edge by_jti) cs) ≡ length cs
length-build by_jti [] = refl
length-build by_jti (c ∷ cs) = ap suc (length-build by_jti cs)

-- A graph that shows the credentials of two walks: at most 500, each JTI once and, unless it is marked truncated,
-- all of them.
pub record Explored (up down : List IssuedCredential) (g : Graph) : Type 0 where
  pub bounded : length g.edges ≤ max_graph_nodes
  pub once : distinct (edge_jtis g.edges) ≡ true
  pub complete :
      g.truncated ≡ false
      → (s : String)
      → contains (edge_jtis g.edges) s ≡ contains (jtis up) s || contains (jtis down) s

build_graph-Explored :
    (answers : Answers) (identity : String) (up down : List IssuedCredential)
    → Explored up down (build_graph answers (merge_by_jti up down) identity)
unfolding build_graph graph_of
build_graph-Explored answers identity up down =
    let all_of = merge_by_jti up down in
    let cut = take max_graph_nodes all_of in
    elim (Bool-cases (ltb max_graph_nodes (length all_of))) [
      | inl big ↦
          let same = edge_jtis-build (index_by_jti [] cut) cut in
          rw big (record {
            bounded =
                rw (length-build (index_by_jti [] cut) cut) (length-take max_graph_nodes all_of);
            once = rw same (distinct-take max_graph_nodes all_of (distinct-merge up down));
            complete = λ h. cc h;
          })
      | inr small ↦
          let same = edge_jtis-build (index_by_jti [] all_of) all_of in
          rw small (record {
            bounded = rw (length-build (index_by_jti [] all_of) all_of) (ground arith);
            once = rw same (distinct-merge up down);
            complete = λ h s. rw same (contains-merge up down s);
          })
    ]

-- The graph of an identity whose credentials can be listed, and which has one, shows what the two walks from the
-- first of the list find, where both succeed: at most 500 credentials, each JTI once and, unless the
-- graph is marked truncated, the JTIs of all of them. The walks go no deeper than the clamped depth.
pub get_graph-Explored :
    (answers : Answers) (identity : String) (depth : ℤ) (focal : IssuedCredential)
    (more : List IssuedCredential) {up down : List IssuedCredential}
    → answers.list_by_identity ≡ some (focal ∷ more)
    → answers.walk_up focal.jti (clamp_depth depth) ≡ some up
    → answers.walk_down focal.jti (clamp_depth depth) ≡ some down
    → (g : Graph) × (get_graph answers identity depth ≡ ok g) × Explored up down g
unfolding get_graph focal_graph merged_graph
get_graph-Explored answers identity depth focal more {up} {down} listed above below = (
  build_graph answers (merge_by_jti up down) identity,
  simp (listed, above, below) refl,
  build_graph-Explored answers identity up down,
)

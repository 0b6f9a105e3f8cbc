-- ===== src/Tests/Delegation.antt =====
-- The graph of a delegated token: the root, and a leaf that got one of its two scopes.
use zeroid.Prelude.{◌≡◌, refl, not, ◌&&◌, some, [], ◌∷◌, Memᴰ, contains}
use zeroid.Prelude.Int.{pos}
use zeroid.Prelude.Result.{ok}
use zeroid.Prelude.Table.{find}
use zeroid.Credential.Defs.{IssuedCredential}
use zeroid.Delegation.Graph.{
  Answers, Graph, GraphEdge, build_graph, graph_of, index_by_jti, build_edge, with_parent,
  credential_to_edge, identity_id_or_empty, set_diff, keep_missing, get_graph, clamp_depth,
  merge_by_jti, append_unseen,
}
use zeroid.Delegation.Explored.{Explored, get_graph-Explored, edge_jtis}
use zeroid.Delegation.Attenuation.{build_graph-attenuated}
use zeroid.Tests.OAuth.{root, agent}

abbrev origin : IssuedCredential
origin = record root { jti = "origin"; parent_jti = ""; scopes = "read" ∷ "write" ∷ [] }

abbrev hop : IssuedCredential
hop = record root { id = "cred-8"; jti = "hop"; parent_jti = "origin"; scopes = "read" ∷ [] }

abbrev answers : Answers
answers = record {
  list_by_identity = some (hop ∷ []);
  get_by_id = some agent;
  walk_up = λ jti depth. some (origin ∷ hop ∷ []);
  walk_down = λ jti depth. some (hop ∷ []);
  get_by_ids = λ ids. some (agent ∷ []);
  sort_strings = λ ids. ids;
}

abbrev hop_edge : GraphEdge
hop_edge = record (credential_to_edge hop) {
  from = identity_id_or_empty origin.identity_id;
  scopes_in = "read" ∷ "write" ∷ [];
  attenuated = "write" ∷ [];
}

on_graph : Memᴰ hop_edge (build_graph answers (origin ∷ hop ∷ []) "agent").edges
unfolding build_graph graph_of index_by_jti build_edge with_parent set_diff keep_missing find
on_graph = Memᴰ.tail (Memᴰ.head refl)

build_graph-attenuated_example :
    contains hop_edge.attenuated "write"
    ≡ contains hop_edge.scopes_in "write" && not (contains hop_edge.scopes_out "write")
build_graph-attenuated_example =
    build_graph-attenuated answers (origin ∷ hop ∷ []) "agent" hop_edge on_graph "write"

get_graph-Explored_example :
    (g : Graph) × (get_graph answers "agent" (pos 3) ≡ ok g)
    × Explored (origin ∷ hop ∷ []) (hop ∷ []) g
get_graph-Explored_example = get_graph-Explored answers "agent" (pos 3) hop [] refl refl refl

-- The hop that both walks find is shown once.
shown :
    edge_jtis (build_graph answers (merge_by_jti (origin ∷ hop ∷ []) (hop ∷ [])) "agent").edges
    ≡ "origin" ∷ "hop" ∷ []
unfolding build_graph graph_of index_by_jti build_edge with_parent credential_to_edge find
    merge_by_jti append_unseen
shown = refl

deep : clamp_depth (pos 99) ≡ pos 10
unfolding clamp_depth
deep = refl

shallow : clamp_depth (pos 0) ≡ pos 1
unfolding clamp_depth
shallow = refl

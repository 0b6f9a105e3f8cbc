-- ===== src/Delegation/Graph.antt =====
-- internal/service/delegation.go. What the database answers to the queries of a call is an argument: the
-- rows that the recursive statements of the repository walk, the identities it loads.
use zeroid.Prelude.{
  ℕ, zero, suc, String, Bool, true, false, not, Option, none, some, List, [], ◌∷◌, ◌++◌, ◌==◌,
  if◌then◌else◌, map, length, contains, ltb,
}
use zeroid.Prelude.Int.{ℤ, pos, lt_int}
use zeroid.Prelude.Result.{Result, ok, err}
use zeroid.Prelude.Table.{find}
use zeroid.Identity.Model.{Identity}
use zeroid.Identity.Status.{IdentityStatus}
use zeroid.Identity.Class.{IdentityType, TrustLevel}
use zeroid.Credential.Defs.{IssuedCredential}

-- `GraphNode`
pub record GraphNode : Type 0 where
  pub id : String
  pub wimse_uri : String
  pub name : String
  pub identity_type : IdentityType
  pub trust_level : TrustLevel
  pub status : IdentityStatus

-- `GraphEdge`
pub record GraphEdge : Type 0 where
  pub from : String
  pub to : String
  pub jti : String
  pub parent_jti : String
  pub mission_id : String
  pub issued_at : ℕ
  pub expires_at : ℕ
  pub grant_type : String
  pub delegation_depth : ℤ
  pub scopes_in : List String
  pub scopes_out : List String
  pub attenuated : List String
  pub is_revoked : Bool

-- `Graph`
pub record Graph : Type 0 where
  pub nodes : List GraphNode
  pub edges : List GraphEdge
  pub focal_id : String
  pub truncated : Bool

-- `Chain`
pub record Chain : Type 0 where
  pub nodes : List GraphNode
  pub edges : List GraphEdge

pub data DelegationError : Type 0 where
  query_failed credential_not_found : DelegationError

-- The answers of the database in one call, `none` where the query fails, and `sort.Strings`.
pub record Answers : Type 0 where
  pub list_by_identity : Option (List IssuedCredential)
  pub get_by_id : Option Identity
  pub walk_up : String → ℤ → Option (List IssuedCredential)
  pub walk_down : String → ℤ → Option (List IssuedCredential)
  pub get_by_ids : List String → Option (List Identity)
  pub sort_strings : List String → List String

abbrev pub max_graph_depth : ℤ
max_graph_depth = pos 10

abbrev pub max_graph_nodes : ℕ
max_graph_nodes = 500

-- one loop of `mergeByJTI`, with the set `seen` and what it appends to `out`
unfoldable pub append_unseen :
    List String → List IssuedCredential → List String × List IssuedCredential
append_unseen seen [] = (seen, [])
append_unseen seen (c ∷ cs) =
    let next = append_unseen (c.jti ∷ seen) cs in
    let same = append_unseen seen cs in if contains seen c.jti then same else (next.0, c ∷ next.1)

-- `mergeByJTI`
unfoldable pub merge_by_jti : List IssuedCredential → List IssuedCredential → List IssuedCredential
merge_by_jti a b = let first = append_unseen [] a in first.1 ++ (append_unseen first.0 b).1

-- `identityToNode`
unfoldable pub identity_to_node : Identity → GraphNode
identity_to_node i = record {
  id = i.id;
  wimse_uri = i.wimse_uri;
  name = i.name;
  identity_type = i.identity_type;
  trust_level = i.trust_level;
  status = i.status;
}

-- `identityIDOrEmpty`
unfoldable pub identity_id_or_empty : Option String → String
identity_id_or_empty none = ""
identity_id_or_empty (some id) = id

-- `credentialToEdge`
unfoldable pub credential_to_edge : IssuedCredential → GraphEdge
credential_to_edge c = record {
  from = "";
  to = identity_id_or_empty c.identity_id;
  jti = c.jti;
  parent_jti = c.parent_jti;
  mission_id = c.mission_id;
  issued_at = c.issued_at;
  expires_at = c.expires_at;
  grant_type = c.grant_type;
  delegation_depth = c.delegation_depth;
  scopes_in = c.scopes;
  scopes_out = c.scopes;
  attenuated = [];
  is_revoked = c.is_revoked;
}

-- the loop of `setDiff`
unfoldable pub keep_missing : List String → List String → List String
keep_missing b [] = []
keep_missing b (s ∷ ss) =
    let rest = keep_missing b ss in if not (contains b s) then s ∷ rest else rest

-- `setDiff`
unfoldable pub set_diff : List String → List String → List String
set_diff [] b = []
set_diff (s ∷ ss) b = keep_missing b (s ∷ ss)

-- the map `byJTI`, the last entry first
unfoldable pub index_by_jti : List IssuedCredential → List IssuedCredential → List IssuedCredential
index_by_jti by_jti [] = by_jti
index_by_jti by_jti (c ∷ cs) = index_by_jti (c ∷ by_jti) cs

unfoldable pub with_parent : GraphEdge → IssuedCredential → Option IssuedCredential → GraphEdge
with_parent edge c none = edge
with_parent edge c (some parent) = record edge {
  from = identity_id_or_empty parent.identity_id;
  scopes_in = parent.scopes;
  attenuated = set_diff parent.scopes c.scopes;
}

-- one turn of the loop over the credentials
unfoldable pub build_edge : List IssuedCredential → IssuedCredential → GraphEdge
build_edge by_jti c =
    if not (c.parent_jti == "")
    then with_parent (credential_to_edge c) c (find (λ p. p.jti == c.parent_jti) by_jti)
    else credential_to_edge c

-- the keys of `idSet`
unfoldable pub identity_ids : List IssuedCredential → List String
identity_ids [] = []
identity_ids (c ∷ cs) =
    let ids = identity_ids cs in
    let id = identity_id_or_empty c.identity_id in
    if not (id == "") then (if contains ids id then ids else id ∷ ids) else ids

unfoldable pub nodes_of : Option (List Identity) → List GraphNode
nodes_of none = []
nodes_of (some identities) = map identity_to_node identities

-- `creds[:n]`
unfoldable pub take : ℕ → List IssuedCredential → List IssuedCredential
take zero cs = []
take (suc n) [] = []
take (suc n) (c ∷ cs) = c ∷ take n cs

unfoldable pub graph_of : Answers → List IssuedCredential → String → Bool → Graph
graph_of answers creds focal_id truncated = record {
  nodes = nodes_of (answers.get_by_ids (answers.sort_strings (identity_ids creds)));
  edges = map (build_edge (index_by_jti [] creds)) creds;
  focal_id = focal_id;
  truncated = truncated;
}

-- `buildGraph`
unfoldable pub build_graph : Answers → List IssuedCredential → String → Graph
build_graph answers creds focal_id =
    if ltb max_graph_nodes (length creds)
    then graph_of answers (take max_graph_nodes creds) focal_id true
    else graph_of answers creds focal_id false

-- the two guards of `GetGraph`
unfoldable pub clamp_depth : ℤ → ℤ
clamp_depth depth =
    let d = if lt_int depth (pos 1) then pos 1 else depth in
    if lt_int max_graph_depth d then max_graph_depth else d

-- the answer for an identity without credentials
unfoldable pub lone_graph : String → Option Identity → Graph
lone_graph focal_id none = record { nodes = []; edges = []; focal_id = focal_id; truncated = false }
lone_graph focal_id (some i) = record {
  nodes = identity_to_node i ∷ [];
  edges = [];
  focal_id = focal_id;
  truncated = false;
}

unfoldable pub merged_graph :
    Answers
    → String
    → Option (List IssuedCredential)
    → Option (List IssuedCredential)
    → Result DelegationError Graph
merged_graph answers identity none down = err query_failed
merged_graph answers identity (some up) none = err query_failed
merged_graph answers identity (some up) (some down) =
    ok (build_graph answers (merge_by_jti up down) identity)

unfoldable pub focal_graph :
    Answers → String → ℤ → Option (List IssuedCredential) → Result DelegationError Graph
focal_graph answers identity depth none = err query_failed
focal_graph answers identity depth (some []) = ok (lone_graph identity answers.get_by_id)
focal_graph answers identity depth (some (focal ∷ more)) =
    merged_graph answers identity (answers.walk_up focal.jti depth)
      (answers.walk_down focal.jti depth)

-- `GetGraph`
unfoldable pub get_graph : Answers → String → ℤ → Result DelegationError Graph
get_graph answers identity depth =
    focal_graph answers identity (clamp_depth depth) answers.list_by_identity

unfoldable pub lineage : Answers → Option (List IssuedCredential) → Result DelegationError Chain
lineage answers none = err query_failed
lineage answers (some []) = err credential_not_found
lineage answers (some (c ∷ cs)) =
    let g = build_graph answers (c ∷ cs) "" in ok (record { nodes = g.nodes; edges = g.edges })

-- `WalkByJTI`
unfoldable pub walk_by_jti : Answers → String → Result DelegationError Chain
walk_by_jti answers jti = lineage answers (answers.walk_up jti max_graph_depth)

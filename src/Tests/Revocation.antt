-- ===== src/Tests/Revocation.antt =====
-- The cascade of revocations: a root credential and one that was delegated from it.
use zeroid.Prelude.{
  String, zero, suc, eq_iff, ◌≤◌, ◌≡◌, ◌≢◌, refl, Bool, false, some, List, [], ◌∷◌, Memᴰ, arith,
  ◌==◌,
}
use zeroid.Prelude.Result.{ok}
use zeroid.Prelude.Table.{Pointwise, any, update_where, count_where}
use zeroid.Credential.Defs.{IssuedCredential}
use zeroid.OAuth.Defs.{ParsedToken}
use zeroid.OAuth.Lookup.{cut_header, alg_allowed, header_allowed, validate_alg, parse_token}
use zeroid.OAuth.Endpoint.{revoke_endpoint}
use zeroid.OAuth.Revocation.{Revocable, revoke-inactive}
use zeroid.Credential.Revoke.{
  live, anchored_by_id, is_child, select_where, chain_level, in_chain, revoke_row, condemned,
  cascade, introspect_token,
}
use zeroid.Credential.Cascade.{Reached, anchored, delegated}
use zeroid.Credential.Revoked.{WithinCascade, Fate, cascade-exact}
use zeroid.Prelude.Int.{pos}
use zeroid.Prelude.Table.{count_where}
use zeroid.Credential.Claims.{build_claims}
use zeroid.Credential.Issue.{Issued, credential_row, access_token}
use zeroid.Credential.Revoke.{rotation_request}
use zeroid.Tests.Credential.{call}
use zeroid.Tests.OAuth.{agent}
use zeroid.Tests.OAuth.{oauth, grant_call, root, parsed}

-- the root's credential with one that was delegated from it
abbrev leaf : IssuedCredential
leaf = record root { id = "cred-9"; jti = "leaf"; parent_jti = "root" }

abbrev tree : List IssuedCredential
tree = leaf ∷ root ∷ []

unique_leaf : count_where (λ (e : IssuedCredential). e.jti == "leaf") tree ≤ 1
unfolding count_where
unique_leaf = grind arith

unique_root : count_where (λ (e : IssuedCredential). e.jti == "root") tree ≤ 1
unfolding count_where
unique_root = grind arith

abbrev root_anchor : IssuedCredential → Bool
root_anchor = anchored_by_id 100000000000 "cred-0" "acct" "proj"

reached_leaf : Reached 100000000000 root_anchor tree (suc zero) leaf
unfolding anchored_by_id live
reached_leaf = delegated (anchored (Memᴰ.tail (Memᴰ.head refl)) refl) (Memᴰ.head refl) refl refl

abbrev within_leaf : WithinCascade 100000000000 root_anchor tree leaf
within_leaf = record {
  hops = suc zero;
  within = omega arith;
  end = leaf;
  reached = reached_leaf;
  same_id = refl;
}

abbrev root_token : ParsedToken
root_token = record parsed { issuer = "https://issuer"; subject = some "root"; jwt_id = "root" }

parsed_root : parse_token oauth.lib "h.root" false ≡ some root_token
unfolding parse_token validate_alg cut_header header_allowed alg_allowed
parsed_root = refl

revocable : Revocable grant_call "root" tree root
revocable = record {
  stored = Memᴰ.tail (Memᴰ.head refl);
  named = refl;
  unique = unique_root;
  alive = refl;
  in_time = omega arith;
  still = omega arith;
  reads = refl;
  runs = refl;
}

named_root : ◌≢◌ {A = String} "root" ""
named_root e = cc ((eq_iff "root" "").1 e)

revoke-inactive_example :
    (rows' : List IssuedCredential) × (revoke_endpoint oauth grant_call "h.root" tree ≡ ok rows')
    × ((introspect_token 5 "leaf" rows').1 ≡ false)
revoke-inactive_example =
    revoke-inactive oauth grant_call "h.root" tree root_token root leaf 5 parsed_root named_root
      revocable (Memᴰ.head refl) unique_leaf within_leaf

cascade-exact_example :
    Pointwise
      (Fate 100000000000 root_anchor tree "reason")
      tree
      (cascade 100000000000 "reason" root_anchor tree).1
cascade-exact_example = cascade-exact 100000000000 root_anchor tree "reason"

-- both rows are revoked
fallen :
    (cascade 100000000000 "reason" root_anchor tree).1
    ≡ revoke_row 100000000000 "reason" leaf ∷ revoke_row 100000000000 "reason" root ∷ []
unfolding cascade condemned in_chain chain_level select_where is_child live anchored_by_id any
    update_where revoke_row
fallen = refl

-- the root's credential is rotated
abbrev old_root : IssuedCredential
old_root = record root { grant_type = ""; scopes = "read" ∷ [] }

abbrev rotation : Issued
rotation =
    let r = rotation_request (some agent) old_root in
    let row = credential_row call agent r (pos 900) "client_credentials" in
    record {
      token = access_token call r (pos 900) "signed";
      credential = row;
      claims =
          build_claims "https://issuer" "jti-1" 101000000000 1001000000000 "jti-1"
            "client_credentials" agent r;
      rows = row ∷ revoke_row 100000000000 "rotated" old_root ∷ [];
    }

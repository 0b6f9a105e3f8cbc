-- ===== src/Tests/Identity.antt =====
-- Identities and scopes: concrete data for their theorems.
use zeroid.Prelude.{◌≤◌, ◌≡◌, ◌≢◌, ◌↔◌, refl, true, some, [], ◌∷◌, String, Memᴰ, length}
use zeroid.Identity.Status.{suspended, deactivated, valid}
use zeroid.Identity.Lifecycle.{Reaches, Sound, Reaches-iff}
use zeroid.Identity.Class.{agent, mcp_server, tool_agent, valid_type, valid_for_identity_type}
use zeroid.Identity.SubTypes.{valid_for_identity_type_unique}
use zeroid.Identity.Spiffe.{
  Text, max_spiffe_id_bytes, assemble, build_wimse_uri, parse_wimse_uri,
  validate_spiffe_path_segment, is_segment_char,
}
use zeroid.Identity.Spiffe.RoundTrip.{parse-build}
use zeroid.Scope.{intersect_scopes}
use zeroid.Scope.Intersect.{intersect_scopes_iff}

Reaches-iff_example : Reaches deactivated suspended ↔ Sound deactivated suspended
unfolding valid
Reaches-iff_example = Reaches-iff deactivated suspended refl

valid_for_identity_type_unique_example :
    (agent ≡ agent) × (valid_type agent ≡ true) × (agent ≢ mcp_server)
unfolding valid_for_identity_type
valid_for_identity_type_unique_example =
    valid_for_identity_type_unique tool_agent agent agent (λ e. cc e) refl refl

abbrev segment : Text
segment = b'a' ∷ b'-' ∷ b'1' ∷ []

abbrev domain : Text
domain = b'd' ∷ []

parse-build_example :
    (parse_wimse_uri domain (assemble domain segment segment segment segment)
      ≡ some (segment, segment))
    × (length (assemble domain segment segment segment segment) ≤ max_spiffe_id_bytes)
unfolding validate_spiffe_path_segment is_segment_char build_wimse_uri assemble
parse-build_example =
    parse-build domain segment segment segment segment
      {uri = assemble domain segment segment segment segment} refl refl refl refl

intersect_scopes_iff_example :
    Memᴰ {A = String} "read" (intersect_scopes ("read" ∷ "admin" ∷ []) ("write" ∷ "read" ∷ [])) ↔ (
      Memᴰ {A = String} "read" ("read" ∷ "admin" ∷ [])
      × Memᴰ {A = String} "read" ("write" ∷ "read" ∷ []))
intersect_scopes_iff_example =
    intersect_scopes_iff ("read" ∷ "admin" ∷ []) ("write" ∷ "read" ∷ []) (λ e. cc e) (λ e. cc e)
      "read"

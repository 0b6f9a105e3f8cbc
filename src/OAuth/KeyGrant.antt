-- ===== src/OAuth/KeyGrant.antt =====
-- internal/service/oauth.go: the token of an API key.
use zeroid.Prelude.{◌≡◌, String, List, ◌∷◌}
use zeroid.Identity.Model.{Identity}
use zeroid.Credential.Defs.{IssuedCredential, AccessToken}
use zeroid.OAuth.Defs.{OAuthService, GrantCall, World, TokenRequest, ApiKey}
use zeroid.OAuth.KeyLayers.{Known, Holder, Governed, Granted, get_by_key_hash-Known}

-- What the token of a key says: the key, its holder, and the policy that the holder is under; and the one
-- credential that is added, with the token's identifier.
pub record KeyToken (s : OAuthService) (call : GrantCall) (req : TokenRequest) (w v : World)
    (token : AccessToken) (key : ApiKey) : Type 0 where
  pub known : Known s req key
  pub identity : Identity
  pub holder : Holder s key identity
  pub policy : List String
  pub governed : Governed call w identity policy
  pub row : IssuedCredential
  pub added : v.credentials ≡ row ∷ w.credentials
  pub token_jti : token.jti ≡ row.jti

abbrev key_token :
    {s : OAuthService} {call : GrantCall} {req : TokenRequest} {w v : World} {token : AccessToken}
    (g : Granted s call req w v token)
    → KeyToken s call req w v token g.key
key_token {s} {call} {req} g = record {
  known = get_by_key_hash-Known s call req g.found;
  identity = g.identity;
  holder = g.holder;
  policy = g.policy;
  governed = g.governed;
  row = g.row;
  added = g.added;
  token_jti = g.token_jti;
}

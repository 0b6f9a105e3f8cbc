-- ===== src/Scope.antt =====
-- The scope lists of internal/service/oauth.go, lines 1296 to 1346.
pub mod Intersect
use Prim.Native.Char.{Char, code}
use Prim.Native.String as Str
use zeroid.Prelude.{
  String, Bool, true, false, ◌==◌, ◌||◌, ◌&&◌, Option, none, some, List, [], ◌∷◌, is_empty,
  contains, if◌then◌else◌, leb, ℕ,
}
use zeroid.Identity.Model.{Identity}
use zeroid.Policy.Defs.{CredentialPolicy}

abbrev among : ℕ → List ℕ → Bool
among n [] = false
among n (m ∷ ms) = (leb n m && leb m n) || among n ms

-- `unicode.IsSpace`
unfoldable pub is_space : Char → Bool
is_space c =
    among (code c)
      (9 ∷ 10 ∷ 11 ∷ 12 ∷ 13 ∷ 32 ∷ 133 ∷ 160 ∷ 5760 ∷ 8232 ∷ 8233 ∷ 8239 ∷ 8287 ∷ 12288 ∷ [])
    || (leb 8192 (code c) && leb (code c) 8202)

abbrev pub push_word : String → List String → List String
push_word w ws = if w == "" then ws else w ∷ ws

-- the word that a text begins with, and the words after it
unfoldable pub words : String → String × List String
words Str.[] = ("", [])
words (Str.◌∷◌ c s) =
    let rest = words s in
    if is_space c then ("", push_word (rest.0) (rest.1)) else (Str.◌∷◌ c (rest.0), rest.1)

-- `parseScopeString`, with `strings.Fields`
unfoldable pub parse_scope_string : String → List String
parse_scope_string scope = if scope == "" then [] else push_word (words scope).0 (words scope).1

-- `effectiveAllowedScopes`
unfoldable pub effective_allowed_scopes : Option CredentialPolicy → Option Identity → List String
effective_allowed_scopes none none = []
effective_allowed_scopes none (some i) = i.allowed_scopes
effective_allowed_scopes (some p) none = p.allowed_scopes
effective_allowed_scopes (some p) (some i) =
    if is_empty p.allowed_scopes then i.allowed_scopes else p.allowed_scopes

-- the loop of `intersectScopes`
unfoldable pub keep_allowed : List String → List String → List String
keep_allowed allowed [] = []
keep_allowed allowed (s ∷ ss) =
    let rest = keep_allowed allowed ss in if contains allowed s then s ∷ rest else rest

-- `intersectScopes`
unfoldable pub intersect_scopes : List String → List String → List String
intersect_scopes requested [] = requested
intersect_scopes [] (a ∷ more) = a ∷ more
intersect_scopes (r ∷ rs) (a ∷ more) = keep_allowed (a ∷ more) (r ∷ rs)

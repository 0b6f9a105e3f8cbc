-- ===== src/Identity/Spiffe.antt =====
-- domain/identity.go and internal/service/oauth.go: WIMSE URIs, built and taken apart. A Go string
-- is its list of bytes. `ValidateSPIFFEPathSegment` ranges over runes; all that it accepts are
-- ASCII, and no byte of a longer rune is accepted, so reading bytes gives the same answer.
pub mod RoundTrip
use zeroid.Prelude.{
  ℕ, zero, suc, ◌+◌, Bool, true, false, ◌&&◌, ◌||◌, Option, none, some, List, [], ◌∷◌, ◌++◌, leb,
  ltb, length, all, is_empty, if◌then◌else◌, arith,
}

abbrev pub Text : Type 0
Text = List ℕ

abbrev pub eqb : ℕ → ℕ → Bool
eqb a b = leb a b && leb b a

-- `MaxSPIFFEIDBytes`
abbrev pub max_spiffe_id_bytes : ℕ
max_spiffe_id_bytes = 2048

-- one rune of the loop of `ValidateSPIFFEPathSegment`
unfoldable pub is_segment_char : ℕ → Bool
is_segment_char r =
    (leb b'a' r && leb r b'z')
    || (leb b'A' r && leb r b'Z')
    || (leb b'0' r && leb r b'9')
    || (eqb r b'.' || eqb r b'-' || eqb r b'_')

-- `ValidateSPIFFEPathSegment` returns nil
unfoldable pub validate_spiffe_path_segment : Text → Bool
unfolding is_segment_char
validate_spiffe_path_segment [] = false
validate_spiffe_path_segment (r ∷ rs) = all is_segment_char (r ∷ rs)

abbrev pub slash : Text
slash = b'/' ∷ []

-- "spiffe://"
abbrev pub scheme : Text
scheme = b's' ∷ b'p' ∷ b'i' ∷ b'f' ∷ b'f' ∷ b'e' ∷ b':' ∷ b'/' ∷ b'/' ∷ []

-- the argument of `len` in `BuildWIMSEURI`
unfoldable pub assemble : Text → Text → Text → Text → Text → Text
assemble domain account project kind external =
    scheme
    ++ (domain
        ++ (slash ++ (account ++ (slash ++ (project ++ (slash ++ (kind ++ (slash ++ external))))))))

-- `BuildWIMSEURI`; `none` is `ErrSPIFFEIDTooLong`
unfoldable pub build_wimse_uri : Text → Text → Text → Text → Text → Option Text
build_wimse_uri domain account project kind external =
    let uri = assemble domain account project kind external in
    if ltb max_spiffe_id_bytes (length uri) then none else some uri

-- `strings.HasPrefix` and `strings.TrimPrefix` together: the text after the prefix
unfoldable pub trim_prefix : Text → Text → Option Text
trim_prefix [] s = some s
trim_prefix (p ∷ ps) [] = none
trim_prefix (p ∷ ps) (c ∷ s) = if eqb p c then trim_prefix ps s else none

-- the text up to the first slash, and the text after it if there is one
unfoldable pub cut : Text → Text × Option Text
cut [] = ([], none)
cut (c ∷ s) =
    let (before, after) = cut s in if eqb c b'/' then ([], some s) else (c ∷ before, after)

-- `strings.SplitN(s, "/", n + 1)`
unfoldable pub split_n : ℕ → Text → List Text
split_n zero s = s ∷ []
split_n (suc n) s =
    let (before, after) = cut s in
    elim after [ none ↦ before ∷ [] | some rest ↦ before ∷ split_n n rest ]

-- the test on the parts in `parseWIMSEURI`
abbrev tenant_of : List Text → Option (Text × Text)
tenant_of (account ∷ project ∷ kind ∷ external ∷ []) =
    if is_empty account || is_empty project then none else some (account, project)
tenant_of _ = none

-- `parseWIMSEURI` for the trust domain `domain`; `none` is an error
unfoldable pub parse_wimse_uri : Text → Text → Option (Text × Text)
unfolding trim_prefix split_n cut
parse_wimse_uri domain uri = elim (trim_prefix (scheme ++ (domain ++ slash)) uri) [
  | none ↦ none
  | some rest ↦ tenant_of (split_n 3 rest)
]

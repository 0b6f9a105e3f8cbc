-- ===== src/Identity/Spiffe/RoundTrip.antt =====
-- domain/identity.go and internal/service/oauth.go: `parseWIMSEURI` on what `BuildWIMSEURI` makes.
use mathlib.Core.List.{append_assoc}
use zeroid.Prelude.{
  ℕ, suc, ◌≤◌, ◌≡◌, ◌∙◌, ap, refl, true, false, some, [], ◌∷◌, ◌++◌, length, all, All, is_empty,
  arith,
}
use zeroid.Identity.Spiffe.{
  Text, eqb, max_spiffe_id_bytes, is_segment_char, validate_spiffe_path_segment, slash, scheme,
  assemble, build_wimse_uri, trim_prefix, cut, split_n, parse_wimse_uri,
}

abbrev NoSlash : Text → Type 0
NoSlash = All (λ c. eqb c b'/' ≡ false)

segment-NoSlash : (s : Text) → all is_segment_char s ≡ true → NoSlash s
unfolding is_segment_char
segment-NoSlash [] h = tt
segment-NoSlash (c ∷ s) h = (ground arith, segment-NoSlash s (ground arith))

trim_prefix-append : (p s : Text) → trim_prefix p (p ++ s) ≡ some s
unfolding trim_prefix
trim_prefix-append [] s = refl
trim_prefix-append (c ∷ p) s = ground (arith, trim_prefix-append p s)

cut-append : (a s : Text) → NoSlash a → cut (a ++ (slash ++ s)) ≡ (a, some s)
unfolding cut
cut-append [] s h = refl
cut-append (c ∷ a) s h = rw (h.0, cut-append a s h.1)

split_n-append :
    (n : ℕ) (a s : Text) → NoSlash a → split_n (suc n) (a ++ (slash ++ s)) ≡ a ∷ split_n n s
unfolding split_n
split_n-append n a s h = ground (arith, cut-append a s h)

-- What the last split leaves is never cut again, so the external id may be any text.
split_n-four :
    (a p k e : Text)
    → NoSlash a
    → NoSlash p
    → NoSlash k
    → split_n 3 (a ++ (slash ++ (p ++ (slash ++ (k ++ (slash ++ e)))))) ≡ a ∷ p ∷ k ∷ e ∷ []
unfolding split_n
split_n-four a p k e ha hp hk =
    split_n-append 2 a _ ha
    ∙ ap (λ r. a ∷ r) (split_n-append 1 p _ hp ∙ ap (λ r. p ∷ r) (split_n-append 0 k e hk))

validate-NoSlash :
    (s : Text) → validate_spiffe_path_segment s ≡ true → NoSlash s × (is_empty s ≡ false)
unfolding validate_spiffe_path_segment
validate-NoSlash [] h = cc
validate-NoSlash (c ∷ s) h = (segment-NoSlash (c ∷ s) h, refl)

assemble-prefix :
    (d a p k e : Text)
    → assemble d a p k e
      ≡ (scheme ++ (d ++ slash)) ++ (a ++ (slash ++ (p ++ (slash ++ (k ++ (slash ++ e))))))
unfolding assemble
assemble-prefix d a p k e = simp append_assoc

build_wimse_uri-eq_some :
    (d a p k e : Text) {uri : Text}
    → build_wimse_uri d a p k e ≡ some uri
    → (uri ≡ assemble d a p k e) × (length uri ≤ max_spiffe_id_bytes)
unfolding build_wimse_uri
build_wimse_uri-eq_some d a p k e h = ground arith

-- Where the account, project and type pass `ValidateSPIFFEPathSegment`, a URI that
-- `BuildWIMSEURI` returns is within the length limit, and `parseWIMSEURI`, for the same trust
-- domain, takes the account and the project back out of it, whatever the external id.
pub parse-build :
    (domain account project kind external : Text) {uri : Text}
    → validate_spiffe_path_segment account ≡ true
    → validate_spiffe_path_segment project ≡ true
    → validate_spiffe_path_segment kind ≡ true
    → build_wimse_uri domain account project kind external ≡ some uri
    → (parse_wimse_uri domain uri ≡ some (account, project)) × (length uri ≤ max_spiffe_id_bytes)
unfolding parse_wimse_uri
parse-build d a p k e {uri} va vp vk b =
    let (built, short) = build_wimse_uri-eq_some d a p k e b in
    let (ha, ea) = validate-NoSlash a va in
    let (hp, ep) = validate-NoSlash p vp in
    let (hk, ek) = validate-NoSlash k vk in
    (
      rw (built, assemble-prefix, trim_prefix-append)
          (rw (split_n-four a p k e ha hp hk, ea, ep) refl),
      short,
    )

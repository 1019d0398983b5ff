-- ===== src/Auth/Oidc.antt =====
-- pkg/auth/oidc.go: the check of an OIDC id_token before it is exchanged.
pub mod Exchange
use sealhub.Base.{
  ℕ, ◌≤◌, ◌≡◌, ◌≢◌, ◌↔◌, ◌⊎◌, inl, inr, refl, ◌∙◌, Bool, true, false, not, ◌&&◌, ◌||◌, Option, none,
  some, ◌++◌, [], List, ◌∷◌, if◌then◌else◌, arith, nat_eq, ltb, length, Bool-cases, Option-cases,
  All, All-append,
}
use sealhub.Base.Text.{Text, codes, ◌==◌, eq_iff, trim_space, split}
use sealhub.Base.Result.{
  Result, ok, err, Error, unknown_issuer, issuer_mismatch, token_expired, Result-cases,
}
use sealhub.Auth.Engine.{IssuerConfig, Engine}

-- A claim's value: a string, an array with the strings among its elements, or another JSON value.
pub data ClaimValue : Type 0 where
  text : Text → ClaimValue
  array : List (Option Text) → ClaimValue
  other_value : ClaimValue

abbrev pub MapClaims : Type 0
MapClaims = Text → Option ClaimValue

-- What the check uses of jwt/v5. ParseUnverified reads the claims and checks no signature.
-- GetExpirationTime gives nil and no error where the claim exp is missing. Times are in
-- nanoseconds since the epoch.
pub record UnverifiedJwt : Type 0 where
  pub parse_unverified : Text → Result MapClaims
  pub get_expiration_time : MapClaims → Result (Option ℕ)

unfoldable pub find_issuer : Text → List IssuerConfig → Option IssuerConfig
find_issuer name [] = none
find_issuer name (i ∷ is) =
    let rest = find_issuer name is in if i.name == name then some i else rest

-- claims[key].(string), which is "" for anything else
unfoldable pub string_claim : MapClaims → Text → Text
string_claim claims key = elim (claims key) [
  | some (text t) ↦ t
  | some (array _) ↦ []
  | some other_value ↦ []
  | none ↦ []
]

abbrev pub strings_of : List (Option Text) → List Text
strings_of [] = []
strings_of (none ∷ vs) = strings_of vs
strings_of (some t ∷ vs) = t ∷ strings_of vs

-- The loop over the parts of a comma-separated claim.
unfoldable pub trimmed_parts : List Text → List Text
trimmed_parts [] = []
trimmed_parts (p ∷ ps) =
    let s = trim_space p in let rest = trimmed_parts ps in if not (s == []) then s ∷ rest else rest

unfoldable pub groups_from_claims : MapClaims → List Text
unfolding trimmed_parts
groups_from_claims c = elim (c (codes "groups")) [
  | some (array vs) ↦ strings_of vs
  | some (text g) ↦ trimmed_parts (split g b',')
  | some other_value ↦ []
  | none ↦ []
]

-- `none` is a panic: exp.Before on a nil pointer, where the token has no expiry.
unfoldable pub check_expiry : UnverifiedJwt → ℕ → MapClaims → Option (Result (Text × List Text))
check_expiry j now claims =
    let accepted = ok (string_claim claims (codes "sub"), groups_from_claims claims) in
    elim (j.get_expiration_time claims) [
      | err _ ↦ some accepted
      | ok none ↦ none
      | ok (some exp) ↦ if ltb exp now then some (err token_expired) else some accepted
    ]

unfoldable pub check_claims :
    UnverifiedJwt → ℕ → IssuerConfig → MapClaims → Option (Result (Text × List Text))
unfolding check_expiry
check_claims j now ic claims =
    let iss = string_claim claims (codes "iss") in
    if not (iss == []) && not (iss == ic.issuer)
    then some (err issuer_mismatch)
    else check_expiry j now claims

unfoldable pub validate_id_token :
    UnverifiedJwt → ℕ → Engine → Text → Text → Option (Result (Text × List Text))
unfolding check_claims
validate_id_token j now e issuer_name id_token = elim (find_issuer issuer_name e.issuers) [
  | none ↦ some (err unknown_issuer)
  | some ic ↦ elim (j.parse_unverified id_token) [
    | err x ↦ some (err x)
    | ok claims ↦ check_claims j now ic claims
  ]
]

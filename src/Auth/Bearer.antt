-- ===== src/Auth/Bearer.antt =====
-- Bearer tokens: MintAPIJWT, AuthenticateBearer, parseAPIJWT, Middleware, HashToken and
-- LoadJWTSecret of pkg/auth/auth.go.
pub mod Access
use sealhub.Base.{
  ℕ, ◌+◌, ◌≤◌, ◌<◌, ◌≡◌, Bool, true, false, not, ◌&&◌, ◌||◌, Option, none, some, List, [], ◌∷◌,
  if◌then◌else◌,
}
use sealhub.Base.Text.{Text, codes, ◌==◌, cut_prefix, has_prefix, trim_prefix, trim_space}
use sealhub.Base.Result.{Result, ok, err, missing_token, invalid_jwt, foreign, ◌>>=◌}
use sealhub.Auth.Engine.{Principal, Kind, bootstrap, token, oidc, TokenRecord, Engine}

-- golang.org/x/crypto/bcrypt: whether a hash is of a password, and the hashing of one, whose salt
-- is drawn anew.
pub record Bcrypt : Type 0 where
  pub compare_hash_and_password : Text → Text → Bool
  pub generate_from_password : ℕ → Text → Result Text

-- The signing methods that the program tells apart.
pub data SigningMethod : Type 0 where
  hs256 other_method : SigningMethod

-- SealHubClaims with the registered claims that are set. Times are seconds since the epoch.
pub record SealhubClaims : Type 0 where
  pub subject : Text
  pub issuer : Text
  pub audience : List Text
  pub expires_at : ℕ
  pub issued_at : ℕ
  pub groups : List Text
  pub kind : Text

pub record ParsedToken : Type 0 where
  pub claims : SealhubClaims
  pub valid : Bool

-- What the program uses of github.com/golang-jwt/jwt/v5 for its own tokens. The parser asks the
-- key function for the key of a token by its method, and checks the times of the claims.
pub record Jwt : Type 0 where
  pub signed_string : SigningMethod → SealhubClaims → Text → Result Text
  pub parse_with_claims : ℕ → Text → (SigningMethod → Result Text) → Result ParsedToken

-- A token that was signed parses to its claims, by a key function that gives the signing key for
-- its method, before it expires and not before it was issued.
pub record IsSound (j : Jwt) : Type 0 where
  pub parses :
      (m : SigningMethod) (c : SealhubClaims) (key signed : Text) (now : ℕ)
      (keys : SigningMethod → Result Text)
      → j.signed_string m c key ≡ ok signed
      → keys m ≡ ok key
      → now < c.expires_at
      → c.issued_at ≤ now
      → j.parse_with_claims now signed keys ≡ ok (record { claims = c; valid = true })

unfoldable pub mint_api_jwt : Jwt → ℕ → Engine → Text → Text → List Text → ℕ → Result Text
mint_api_jwt j now e sub iss groups ttl =
    j.signed_string hs256
      (record {
        subject = sub;
        issuer = codes "sealhub";
        audience = codes "sealhub-api" ∷ [];
        expires_at = now + ttl;
        issued_at = now;
        groups = groups;
        kind = codes "oidc";
      })
      e.jwt_secret

abbrev pub key_function : Text → SigningMethod → Result Text
key_function secret hs256 = ok secret
key_function secret other_method = err (foreign (codes "unexpected signing method"))

unfoldable pub parse_api_jwt : Jwt → ℕ → Engine → Text → Result Principal
parse_api_jwt j now e tok = do
  t ← j.parse_with_claims now tok (key_function e.jwt_secret)
  if not t.valid
      then err invalid_jwt
      else ok (record { kind = oidc; id = t.claims.subject; groups = t.claims.groups })

-- The first record whose hash is of the token.
unfoldable pub find_token : Bcrypt → Text → List TokenRecord → Option TokenRecord
find_token h tok [] = none
find_token h tok (tr ∷ trs) =
    let rest = find_token h tok trs in
    if h.compare_hash_and_password tr.hash tok then some tr else rest

abbrev pub bootstrap_principal : Principal
bootstrap_principal = record {
  kind = bootstrap;
  id = codes "bootstrap";
  groups = codes "admin" ∷ [];
}

unfoldable pub authenticate_bearer : Bcrypt → Jwt → ℕ → Engine → Text → Result Principal
unfolding parse_api_jwt find_token
authenticate_bearer h j now e tok =
    if tok == []
    then err missing_token
    else if not (e.bootstrap_token == []) && tok == e.bootstrap_token
    then ok bootstrap_principal
    else elim (find_token h tok e.service_tokens) [
      | some tr ↦ ok (record { kind = token; id = tr.id; groups = [] })
      | none ↦ parse_api_jwt j now e tok
    ]

-- The parts of a request that the middleware reads; a header that is not set is empty.
pub record Incoming : Type 0 where
  pub method : Text
  pub path : Text
  pub authorization : Text

-- What the middleware does with a request: next.ServeHTTP without a principal, or with one in its
-- context, or the answer 401.
pub data Passage : Type 0 where
  anonymous : Passage
  identified : Principal → Passage
  unauthorized : Passage

abbrev pub bearer : Text
bearer = codes "Bearer "

-- The three tests above the check of the header.
unfoldable pub is_public : Incoming → Bool
is_public r =
    r.path == codes "/healthz"
    || (r.path == codes "/readyz"
        || (r.path == codes "/metrics"
            || ((r.path == codes "/api/v1/auth/providers" && r.method == codes "GET")
                || (r.path == codes "/api/v1/auth/token" && r.method == codes "POST"))))

-- The rest of the middleware: the check of the header.
unfoldable pub check_header : Bcrypt → Jwt → ℕ → Engine → Text → Passage
check_header h j now e authz =
    if not (has_prefix authz bearer)
    then unauthorized
    else elim (authenticate_bearer h j now e (trim_prefix authz bearer)) [
      | err _ ↦ unauthorized
      | ok p ↦ identified p
    ]

unfoldable pub middleware : Bcrypt → Jwt → ℕ → Engine → Incoming → Passage
unfolding check_header
middleware h j now e r = if is_public r then anonymous else check_header h j now e r.authorization

-- FromContext: the principal that the middleware left in the request's context.
unfoldable pub from_context : Passage → Option Principal
from_context (identified p) = some p
from_context _ = none

-- bcrypt.DefaultCost
abbrev pub default_cost : ℕ
default_cost = 10

unfoldable pub hash_token : Bcrypt → Text → Result Text
hash_token h plain = h.generate_from_password default_cost plain

-- The file is read by the argument.
unfoldable pub load_jwt_secret : (Text → Result Text) → Text → Result Text
load_jwt_secret read_file path =
    if not (path == [])
    then (do b ← read_file path; ok (trim_space b))
    else ok (codes "dev-insecure-change-me")

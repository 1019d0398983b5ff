-- ===== src/Auth/Tests.antt =====
-- Runs of the authorization and of the checks of tokens.
use sealhub.Base.{◌≡◌, ◌≢◌, ◌↔◌, refl, true, none, some, [], ◌∷◌, ◌++◌, arith, Any, if◌then◌else◌}
use sealhub.Base.Text.{Text, codes, ◌==◌}
use sealhub.Base.Result.{ok}
use sealhub.Auth.Engine.{
  Principal, token, oidc, ClaimReq, Engine, authorize, action_read, action_write,
}
use sealhub.Auth.Authorize.{
  api_path_of, TokenGrants, RuleGrants, authorize_token_iff, authorize_oidc_iff,
}
use sealhub.Auth.Bearer.{
  mint_api_jwt, find_token, authenticate_bearer, Incoming, anonymous, identified, bearer,
  middleware,
}
use sealhub.Auth.Bearer.Access.{
  IsPublic, IsHolder, middleware_iff, authenticate_bearer_sound, authenticate_bearer-mint_api_jwt,
}
use sealhub.Auth.ClearTokens.{hashing, put_claims, clear_jwt, clear_jwt-IsSound}
use sealhub.Auth.Oidc.{text, MapClaims, UnverifiedJwt, validate_id_token}
use sealhub.Auth.Oidc.Exchange.{IsExchangeable, validate_id_token-panic_iff}

abbrev anyone : ClaimReq
anyone = record { authenticated = true; groups = [] }

abbrev pub engine : Engine
engine = record {
  bootstrap_token = codes "root";
  jwt_secret = codes "secret";
  service_tokens =
      record {
        id = codes "ci";
        hash = codes "#t";
        paths = codes "team/**" ∷ [];
        actions = codes "read" ∷ [];
      }
      ∷ [];
  issuers =
      record {
        name = codes "corp";
        issuer = codes "https://id";
        audiences = [];
        jwks_url = [];
        rules = [];
      }
      ∷ [];
  issuer_rules = record { paths = codes "**" ∷ []; read = anyone; write = anyone } ∷ [];
}

abbrev pub ci : Principal
ci = record { kind = token; id = codes "ci"; groups = [] }

abbrev ann : Principal
ann = record { kind = oidc; id = codes "ann"; groups = codes "dev" ∷ [] }

authorize_token_iff_example :
    (authorize engine ci (codes "data/team/a") action_read ≡ true)
    ↔ Any (TokenGrants ci.id (api_path_of (codes "data/team/a")) action_read) engine.service_tokens
authorize_token_iff_example =
    authorize_token_iff engine ci (codes "data/team/a") action_read refl (tt, tt)

authorize_oidc_iff_example :
    (authorize engine ann (codes "data/team/a") action_write ≡ true)
    ↔ Any (RuleGrants ann (api_path_of (codes "data/team/a")) action_write) engine.issuer_rules
authorize_oidc_iff_example = authorize_oidc_iff engine ann (codes "data/team/a") action_write refl

abbrev minted : Text
minted =
    0
    ∷ (codes "secret"
        ++ put_claims (record {
          subject = codes "ann";
          issuer = codes "sealhub";
          audience = codes "sealhub-api" ∷ [];
          expires_at = 160;
          issued_at = 100;
          groups = codes "dev" ∷ [];
          kind = codes "oidc";
        }))

authenticate_bearer-mint_api_jwt_example :
    authenticate_bearer hashing clear_jwt 120 engine minted ≡ ok ann
unfolding mint_api_jwt find_token ◌==◌
authenticate_bearer-mint_api_jwt_example =
    authenticate_bearer-mint_api_jwt hashing clear_jwt 120 engine clear_jwt-IsSound 100 60
      (codes "ann") (codes "sealhub") minted (codes "dev" ∷ []) refl (omega arith) (omega arith)
      (λ h. cc) (λ h. cc) refl

abbrev asked : Incoming
asked = record {
  method = codes "GET";
  path = codes "/api/v1/docs";
  authorization = codes "Bearer t";
}

middleware_iff_example :
    ((middleware hashing clear_jwt 120 engine asked ≡ anonymous) ↔ IsPublic asked)
    × ((middleware hashing clear_jwt 120 engine asked ≡ identified ci) ↔ (
        ¬ IsPublic asked
        × ((tok : Text) × (asked.authorization ≡ bearer ++ tok)
            × (authenticate_bearer hashing clear_jwt 120 engine tok ≡ ok ci))))
middleware_iff_example = middleware_iff hashing clear_jwt 120 engine asked ci

authenticate_bearer_sound_example :
    (codes "t" ≢ []) × IsHolder hashing clear_jwt 120 engine (codes "t") ci
unfolding authenticate_bearer find_token ◌==◌
authenticate_bearer_sound_example =
    authenticate_bearer_sound hashing clear_jwt 120 engine (codes "t") ci refl

-- The claims of one token, which names no issuer.
abbrev claimed : MapClaims
claimed key = if key == codes "sub" then some (text (codes "ann")) else none

abbrev pub dated : UnverifiedJwt
dated = record { parse_unverified = λ t. ok claimed; get_expiration_time = λ c. ok (some 200) }

abbrev undated : UnverifiedJwt
undated = record { parse_unverified = λ t. ok claimed; get_expiration_time = λ c. ok none }

validate_id_token-panic_iff_example :
    (validate_id_token undated 150 engine (codes "corp") (codes "t") ≡ none) ↔ (
      (claims : MapClaims) × IsExchangeable undated 150 engine (codes "corp") (codes "t") claims
      × (undated.get_expiration_time claims ≡ ok none))
validate_id_token-panic_iff_example =
    validate_id_token-panic_iff undated 150 engine (codes "corp") (codes "t")

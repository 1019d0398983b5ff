-- ===== src/Api/Types.antt =====
-- Requests, answers and the server of pkg/api/server.go, with what the handlers use of libraries.
use sealhub.Base.{ℕ, Bool, Option, none, some, List, [], ◌∷◌, ◌++◌}
use sealhub.Base.Text.{Text, codes}
use sealhub.Base.Int.{Int64}
use sealhub.Base.Result.{Result, Error}
use sealhub.Document.{Metadata, Envelope}
use sealhub.Changes.{Event}
use sealhub.Auth.Engine.{AuthYaml, Engine, IssuerConfig}
use sealhub.Auth.Bearer.{Bcrypt, Jwt}
use sealhub.Auth.Oidc.{UnverifiedJwt}
use sealhub.Store.Index.{Table, find}
use sealhub.Store.Git.{Outside, Sys}

-- What a handler reads of a request. `path` is the path with its escapes undone, `escaped_path` the one
-- that was sent; `query` has each key of the query once, with its first value,
-- in the order in which a loop visits them; a header that is not set is empty; `body` is what reading
-- the body gives.
pub record Request : Type 0 where
  pub method : Text
  pub path : Text
  pub escaped_path : Text
  pub query : Table Text
  pub authorization : Text
  pub accept : Text
  pub if_match : Text
  pub body : Result Text

-- Query().Get(key)
unfoldable pub query_value : Text → Request → Text
query_value key r = elim (find key r.query) [ none ↦ [] | some v ↦ v ]

-- The values that are sent as JSON.
pub data Payload : Type 0 where
  providers : List Text → Payload
  access_token : Text → Payload
  documents : List (Text × Metadata) → Payload
  envelope : Envelope → Payload
  events : Int64 → List Event → Payload

-- What is written behind the status: a fixed text, the text of an error, a value in JSON, where to go
-- instead, or a stream that has sent events and goes on with those that a channel gives.
pub data Body : Type 0 where
  page : Text → Body
  message : Error → Body
  json : Payload → Body
  moved : Text → Body
  event_stream : List Event → ℕ → Body
  no_body : Body

pub record Answer : Type 0 where
  pub status : ℕ
  pub body : Body

-- http.Error ends the text with a line feed.
abbrev pub http_error : ℕ → Text → Answer
http_error status t = record { status = status; body = page (t ++ b'\n' ∷ []) }

abbrev pub failed : ℕ → Error → Answer
failed status x = record { status = status; body = message x }

abbrev pub write_json : Payload → Answer
write_json p = record { status = 200; body = json p }

abbrev pub not_found_page : Answer
not_found_page = http_error 404 (codes "404 page not found")

abbrev pub unauthorized_page : Answer
unauthorized_page = http_error 401 (codes "unauthorized")

abbrev pub forbidden_page : Answer
forbidden_page = http_error 403 (codes "forbidden")

abbrev pub method_not_allowed : Answer
method_not_allowed = http_error 405 (codes "method not allowed")

pub record TokenRequest : Type 0 where
  pub grant_type : Text
  pub issuer : Text
  pub id_token : Text

pub record PutRequest : Type 0 where
  pub document : Text
  pub content_type : Text
  pub encrypt : Option Bool
  pub expected_version : Int64

-- encoding/json, strconv, net/http and the libraries of the engine. `atoi` gives the value that
-- strconv.Atoi and ParseInt return beside an error too, and whether they fail; `clean_path` is the
-- path that ServeMux redirects to, and `route_path` what it holds its patterns against: the path that
-- was sent, each segment with its escapes undone, but for a slash; `metrics` is what promhttp writes; `issuers_left` is what
-- yaml.Unmarshal leaves in an IssuersFile, also beside an error. `now` is in nanoseconds.
pub record Web : Type 0 where
  pub decode_token_request : Result Text → Result TokenRequest
  pub marshal_event : Event → Text
  pub unmarshal_put : Text → Result PutRequest
  pub atoi : Text → Int64 × Bool
  pub clean_path : Text → Text
  pub route_path : Text → Text
  pub metrics : Text
  pub issuers_left : Text → List IssuerConfig
  pub can_flush : Bool
  pub now : ℕ
  pub auth_yaml : AuthYaml
  pub bcrypt : Bcrypt
  pub jwt : Jwt
  pub unverified : UnverifiedJwt

-- The engine and the store, with the state outside.
pub record Server (o : Outside) : Type 0 where
  pub engine : Engine
  pub sys : Sys o

-- A handler's answer and the server behind it; `none` is a panic.
abbrev pub Handled : Outside → Type 0
Handled o = Option (Answer × Server o)

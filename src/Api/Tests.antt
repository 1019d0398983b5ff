-- ===== src/Api/Tests.antt =====
-- Runs of the handler, over the store and the engine of the other runs.
use sealhub.Base.{Bool, true, false, ◌≡◌, ◌⊎◌, refl, none, some, List, [], ◌∷◌}
use Prim.Native.Nat.{◌/◌}
use sealhub.Base.Text.{Text, codes, ◌==◌, cut_prefix, cut_suffix, split, contains}
use sealhub.Base.FilePath.{join}
use sealhub.Base.Int.{Int64}
use sealhub.Base.Result.{ok, err, foreign}
use sealhub.Document.{Envelope, parse_envelope, marshal_envelope, git_path}
use sealhub.Changes.{Event, upsert, new_broker, publish, send_all}
use sealhub.Changes.History.{publish_all}
use sealhub.Crypto.{encrypt, decrypt}
use sealhub.Auth.Engine.{Engine, Principal, authorize, action_read}
use sealhub.Auth.Grants.{Grants}
use sealhub.Auth.Pattern.{path_match}
use sealhub.Auth.ClearTokens.{hashing, clear_jwt}
use sealhub.Auth.Tests.{engine, dated, ci}
use sealhub.Auth.Bearer.{is_public, authenticate_bearer, bootstrap_principal}
use sealhub.Store.Index.{find, assign, set, snapshot}
use sealhub.Store.Git.{refresh_index_locked}
use sealhub.Store.Documents.{apply, get_document}
use sealhub.Store.Tests.{disk, start}
use sealhub.Api.Types.{Request, Server, Web, Handled, write_json, http_error, envelope}
use sealhub.Api.Documents.{document_path}
use sealhub.Api.System.{second}
use sealhub.Api.Routes.{serve}
use sealhub.Api.Events.{forward_loop}
use sealhub.Api.Forwarded.{Forwarded, forward_loop-Forwarded}
use sealhub.Api.Asks.{Asks}
use sealhub.Api.Authority.{IsWriter, Bears, serve-IsWriter, serve-Grants}

-- A number is written as one code.
abbrev one_code : Text → Int64 × Bool
one_code (n ∷ []) = (n, false)
one_code _ = (0, true)

abbrev pub web : Web
web = record {
  decode_token_request = λ t. err (foreign []);
  marshal_event = λ ev. ev.path;
  unmarshal_put = λ t.
      ok (record { document = t; content_type = []; encrypt = some true; expected_version = 0 });
  atoi = one_code;
  clean_path = λ p. p;
  route_path = λ p. p;
  metrics = [];
  issuers_left = λ t. [];
  can_flush = true;
  now = 120000000000;
  auth_yaml = record {
    unmarshal_wrap = λ t. ok t;
    unmarshal_tokens = λ t. err (foreign []);
    unmarshal_issuers = λ t. err (foreign []);
  };
  bcrypt = hashing;
  jwt = clear_jwt;
  unverified = dated;
}

abbrev request : Text → Text → Text → Request
request method if_match body = record {
  method = method;
  path = codes "/api/v1/documents/a";
  escaped_path = codes "/api/v1/documents/a";
  query = [];
  authorization = codes "Bearer root";
  accept = [];
  if_match = if_match;
  body = ok body;
}

abbrev pub put_a : Request
put_a = request (codes "PUT") [] (codes "k: v")

abbrev pub get_a : Request
get_a = request (codes "GET") [] []

abbrev pub server : Server disk
server = record { engine = engine; sys = start }

abbrev state_of : Handled disk → Server disk
state_of none = server
state_of (some (_, s)) = s

abbrev pub server1 : Server disk
server1 = state_of (serve disk web put_a server)

abbrev pub stored : Envelope
stored = record {
  schema = 1;
  metadata = record {
    version = 1;
    content_type = codes "application/yaml";
    encrypted = false;
    labels = [];
    owner = codes "bootstrap:bootstrap";
  };
  document = codes "k: v";
}

pub serve-put_a : serve disk web put_a server ≡ some (write_json (envelope stored), server1)
unfolding serve apply find ◌==◌ join cut_prefix split git_path encrypt marshal_envelope assign
    contains refresh_index_locked publish_all snapshot parse_envelope set publish send_all
    new_broker is_public authenticate_bearer
serve-put_a = refl

pub Asks-put_a : Asks disk web put_a (codes "PUT") (codes "a") server bootstrap_principal
unfolding authenticate_bearer ◌==◌
Asks-put_a = record {
  asked = refl;
  at = refl;
  clean = refl;
  routed = (codes "a", refl);
  tok = codes "root";
  header = refl;
  known = refl;
}

pub authenticate_bearer-root :
    authenticate_bearer web.bcrypt web.jwt (web.now / second) server1.engine (codes "root")
    ≡ ok bootstrap_principal
unfolding authenticate_bearer ◌==◌ serve apply find join cut_prefix split git_path encrypt
    marshal_envelope assign contains refresh_index_locked publish_all snapshot parse_envelope set
    publish send_all new_broker is_public
authenticate_bearer-root = refl

pub Asks-get_a : Asks disk web get_a (codes "GET") (codes "a") server1 bootstrap_principal
Asks-get_a = record {
  asked = refl;
  at = refl;
  clean = refl;
  routed = (codes "a", refl);
  tok = codes "root";
  header = refl;
  known = authenticate_bearer-root;
}

serve-IsWriter_example :
    ((server1.sys.outside ≡ server.sys.outside)
      × (server1.sys.store.index ≡ server.sys.store.index))
    ⊎ ((p : Principal) × IsWriter disk web put_a server p)
serve-IsWriter_example =
    serve-IsWriter disk web put_a server (write_json (envelope stored)) server1 (tt, tt) serve-put_a

serve-Grants_example :
    ((p : Principal) × Bears disk web put_a server p
      × Grants server.engine p (git_path (codes "a")) action_read)
    ⊎ (((p : Principal) × IsWriter disk web put_a server p) × (codes "a" ≡ document_path put_a))
unfolding cut_prefix
serve-Grants_example =
    serve-Grants disk web put_a server (write_json (envelope stored)) server1 (codes "a") (tt, tt)
      serve-put_a refl

-- The document is not there, so that a writer that expects version 5 is stale.
abbrev pub put_stale : Request
put_stale = request (codes "PUT") (5 ∷ []) (codes "k: v")

pub serve-get_a : serve disk web get_a server1 ≡ some (write_json (envelope stored), server1)
unfolding serve apply find ◌==◌ join cut_prefix split git_path encrypt marshal_envelope assign
    contains refresh_index_locked publish_all snapshot parse_envelope set publish send_all
    new_broker is_public authenticate_bearer authorize get_document decrypt
serve-get_a = refl

pub serve-put_stale :
    serve disk web put_stale server ≡ some (http_error 409 (codes "conflict"), server)
unfolding serve apply find ◌==◌ join cut_prefix split git_path encrypt marshal_envelope assign
    contains refresh_index_locked publish_all snapshot parse_envelope set publish send_all
    new_broker is_public authenticate_bearer
serve-put_stale = refl

-- The engine before it has read its tokens.
abbrev locked : Engine
locked = record engine { service_tokens = [] }

abbrev changed : Event
changed = record { revision = 1; type = upsert; path = codes "team/a"; metadata = stored.metadata }

-- An event, before and after a token of a file is granted to read.
abbrev came : List (Engine × Event)
came = (locked, changed) ∷ (server.engine, changed) ∷ []

forward_loop-Forwarded_example :
    Forwarded (codes "team") ci came (forward_loop (codes "team") ci came)
forward_loop-Forwarded_example = forward_loop-Forwarded (codes "team") ci came (tt, ((tt, tt), tt))

-- It is sent the second time.
forward_loop-came : forward_loop (codes "team") ci came ≡ changed ∷ []
unfolding forward_loop ◌==◌ cut_prefix cut_suffix authorize git_path path_match
forward_loop-came = refl

-- A path with dots: a grant for team/** covers it, and its file is below system/.
abbrev dotted : Text
dotted = codes "team/../../system/tokens.yaml"

authorize-dotted : authorize engine ci (git_path dotted) action_read ≡ true
unfolding authorize git_path path_match cut_prefix cut_suffix ◌==◌
authorize-dotted = refl

join-dotted : join (codes "/w") (git_path dotted) ≡ codes "/w/system/tokens.yaml"
unfolding join git_path cut_prefix split ◌==◌
join-dotted = refl

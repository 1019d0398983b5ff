-- ===== src/Client/Tests.antt =====
-- Runs of the client against the handler of the server.
use sealhub.Base.{ℕ, true, ◌≡◌, refl, sym, ap, ◌∙◌, none, some, List, [], ◌∷◌}
use sealhub.Base.Text.{Text, codes, ◌==◌, cut_prefix, split}
use sealhub.Base.FilePath.{join}
use sealhub.Base.Result.{Result, ok, err, foreign}
use sealhub.Document.{Envelope, git_path}
use sealhub.Document.Tests.{written, plain_yaml, plain_yaml-IsCodec}
use sealhub.Crypto.Tests.{toy_cipher-IsAuthenticated, old_key, zeros-length}
use sealhub.Auth.Engine.{authorize}
use sealhub.Auth.Bearer.{authenticate_bearer, bootstrap_principal}
use sealhub.Store.Index.{find}
use sealhub.Store.Git.{read_file_at_head}
use sealhub.Store.Tests.{disk, disk-IsWorktree}
use sealhub.Api.Types.{Request, Answer, Server, Handled, Body, json, envelope, write_json}
use sealhub.Api.Documents
use sealhub.Api.Documents.{expected_version}
use sealhub.Api.Routes.{serve}
use sealhub.Api.Tests.{
  web, put_a, get_a, put_stale, server, server1, stored, serve-put_a, serve-get_a,
  authenticate_bearer-root, serve-put_stale,
}
use sealhub.Client.Types.{Sent, Reply, ApplyRequest, Http, Client}
use sealhub.Client.Calls.{round_trip, finish, applied, get_request, get, put_request, apply}
use sealhub.Client.Served.{Reaches, get-apply, apply-stale}

abbrev written_body : Body → Text
written_body (json (envelope env)) = written env
written_body _ = []

abbrev carried : Server disk → Handled disk → Result Reply × Server disk
carried s none = (err (foreign []), s)
carried s (some (a, s')) =
    (ok (record { status = a.status; body = written_body a.body; reads = [] }), s')

abbrev request_of : Sent → Request
request_of q = record {
  method = q.method;
  path = q.url;
  escaped_path = q.url;
  query = [];
  authorization = q.authorization;
  accept = q.accept;
  if_match = q.if_match;
  body = ok q.body;
}

-- A server without a host.
abbrev http : Http
http = record {
  World = Server disk;
  Item = Text;
  check_url = λ u. none;
  with_query = λ u q. some u;
  send = λ q s. carried s (serve disk web (request_of q) s);
  itoa = λ n. n ∷ [];
  marshal_apply = λ ar. ar.document;
  marshal_exchange = λ issuer t. t;
  decode_envelope = λ r. plain_yaml.unmarshal r.body;
  decode_documents = λ r. ok [];
  decode_access_token = λ r. ok r.body;
  unmarshal_event = λ t. err (foreign []);
}

abbrev client : Client
client = record { base_url = []; token = codes "root" }

abbrev changed : ℕ → ApplyRequest
changed version = record {
  document = codes "k: v";
  content_type = [];
  encrypt = some true;
  expected_version = version;
}

abbrev same_world : Server disk → Server disk
same_world s = s

abbrev labels_of : Body → List (Text × Text)
labels_of (json (envelope e)) = e.metadata.labels
labels_of _ = []

-- What comes back from an answer that is known.
came_back :
    (r : Request) (s s1 s' : Server disk) (a b : Answer) (env : Envelope)
    → serve disk web r s ≡ some (b, s1)
    → serve disk web r s ≡ some (a, s')
    → labels_of b.body ≡ []
    → a ≡ write_json (envelope env)
    → plain_yaml.unmarshal (written_body a.body) ≡ ok env
came_back r s s1 s' a b env known h plain e =
    let same : b ≡ a = (let z = sym known ∙ h in cc) in
    ap (λ x. plain_yaml.unmarshal (written_body x.body)) e
    ∙ plain_yaml-IsCodec.reads_back env (written env)
        (sym (ap (λ x. labels_of x.body) (same ∙ e)) ∙ plain) refl

Reaches-put_a :
    Reaches disk web http same_world
      (put_request http client (codes "a") (changed 0))
      (codes "a")
      put_a
      server
unfolding ◌==◌
Reaches-put_a = record {
  url = refl;
  method = refl;
  at = refl;
  clean = refl;
  routed = (codes "a", refl);
  authorization = refl;
  if_match = refl;
  answered = λ a s' h. (
    _,
    s',
    ap (carried server) h,
    refl,
    refl,
    λ env e. came_back put_a server server1 s' a _ env serve-put_a h refl e,
  );
}

Reaches-get_a :
    Reaches disk web http same_world (get_request client (codes "a")) (codes "a") get_a server1
unfolding ◌==◌
Reaches-get_a = record {
  url = refl;
  method = refl;
  at = refl;
  clean = refl;
  routed = (codes "a", refl);
  authorization = refl;
  if_match = refl;
  answered = λ a s' h. (
    _,
    s',
    ap (carried server1) h,
    refl,
    refl,
    λ env e. came_back get_a server1 server1 s' a _ env serve-get_a h refl e,
  );
}

Reaches-put_stale :
    Reaches disk web http same_world
      (put_request http client (codes "a") (changed 5))
      (codes "a")
      put_stale
      server
unfolding ◌==◌
Reaches-put_stale = record {
  url = refl;
  method = refl;
  at = refl;
  clean = refl;
  routed = (codes "a", refl);
  authorization = refl;
  if_match = refl;
  answered = λ a s' h. (
    _,
    s',
    ap (carried server) h,
    refl,
    refl,
    λ env e. came_back put_stale server server s' a _ env serve-put_stale h refl e,
  );
}

apply-changed : apply http client (codes "a") (changed 0) server ≡ (ok stored, server1)
unfolding apply round_trip finish applied ◌==◌
apply-changed = ap (λ x. finish http (carried server x) (applied http)) serve-put_a

get-apply_example :
    (◌≡◌ {A = Result Envelope} (ok stored) (ok stored))
    × (server1 ≡ server1)
    × ((world2 : Server disk) × (get http client (codes "a") server1 ≡ (ok stored, world2))
        × (world2 ≡ server1))
unfolding authenticate_bearer ◌==◌ cut_prefix authorize
get-apply_example =
    get-apply disk web http same_world disk-IsWorktree plain_yaml-IsCodec toy_cipher-IsAuthenticated
      client client (codes "a") (changed 0) put_a get_a server server1 bootstrap_principal
      bootstrap_principal stored (ok stored) server1 old_key [] zeros-length refl (refl, tt) refl
      (λ e. cc) refl ((λ e. cc), refl) Reaches-put_a serve-put_a apply-changed
      ((λ e. cc), authenticate_bearer-root) refl Reaches-get_a

apply-stale_example :
    (world' : Server disk) × (apply http client (codes "a") (changed 5) server
      ≡ (err (foreign (codes "conflict")), world'))
    × (world' ≡ server)
unfolding authenticate_bearer ◌==◌ cut_prefix authorize find join git_path read_file_at_head split
    Documents.put_request expected_version
apply-stale_example =
    apply-stale disk web http same_world client (codes "a") (changed 5) put_stale server
      bootstrap_principal
      (record {
        document = codes "k: v";
        content_type = [];
        encrypt = some true;
        expected_version = 0;
      })
      (λ e. cc) refl refl ((λ e. cc), refl) refl Reaches-put_stale refl refl (λ e. cc) refl refl

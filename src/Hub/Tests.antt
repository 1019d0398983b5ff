-- ===== src/Hub/Tests.antt =====
-- Runs of the creation of a token.
use sealhub.Base.{
  ◌≡◌, ◌↔◌, refl, sym, ap, ◌∙◌, true, none, List, [], ◌∷◌, ◌++◌, take-length-append,
  drop-length-append, Any,
}
use sealhub.Base.Fields.{put, taken}
use sealhub.Base.Text.{Text, codes, ◌==◌, trim_prefix, eq_refl}
use sealhub.Base.Result.{Result, ok, err, foreign, ok-injective}
use sealhub.Document.{Envelope, data_dir}
use sealhub.Auth.Engine.{
  token, TokenRecord, Engine, AuthYaml, unwrap, load_tokens_yaml, authorize, action_write,
}
use sealhub.Auth.Authorize.{Fits, api_path_of}
use sealhub.Auth.Bearer.{authenticate_bearer}
use sealhub.Auth.ClearTokens.{clear_jwt, hashing}
use sealhub.Client.Types.{Http, new_client}
use sealhub.Client.Calls.{apply}
use sealhub.Hub.Token.{
  tokens_body, append_unique, nothing_wanted, scan, created, TokenTools, tokens_path,
  tokens_request, run_token_create,
}
use sealhub.Hub.Scopes.{scopes, authorize-created}
use sealhub.Hub.Created.{IsHash, run_token_create-authenticate_bearer}

abbrev two_flags : List Text
two_flags =
    codes "--id" ∷ codes "ci" ∷ codes "--read" ∷ codes "a" ∷ codes "--write" ∷ codes "b" ∷ []

abbrev engine : Engine
engine = record {
  bootstrap_token = codes "root";
  jwt_secret = codes "secret";
  service_tokens = created (scan nothing_wanted two_flags) (codes "#t") ∷ [];
  issuers = [];
  issuer_rules = [];
}

-- The flag --write is given for "b" only.
authorize-created_example :
    (authorize engine
        (record { kind = token; id = codes "ci"; groups = [] })
        (codes "data/a")
        action_write
      ≡ true)
    ↔ (Any (λ g. g.0 ≡ action_write) (scopes two_flags)
        × Any
            (λ g. Fits (api_path_of (codes "data/a")) (trim_prefix g.1 data_dir))
            (scopes two_flags))
unfolding scan ◌==◌
authorize-created_example =
    authorize-created two_flags (codes "#t") engine
      (record { kind = token; id = codes "ci"; groups = [] }) (codes "data/a") action_write refl
      refl refl

hashing-IsHash : IsHash hashing
hashing-IsHash = record {
  compares = λ cost plain hash e.
      ap (λ t. t == codes "#" ++ plain) (sym (ok-injective e)) ∙ eq_refl (codes "#" ++ plain);
}

-- A server that answers every request.
abbrev http : Http
http = record {
  World = Unit {0};
  Item = Text;
  check_url = λ u. none;
  with_query = λ u q. none;
  send = λ q w. (ok (record { status = 200; body = []; reads = [] }), w);
  itoa = λ n. [];
  marshal_apply = λ ar. ar.document;
  marshal_exchange = λ issuer t. t;
  decode_envelope = λ r. ok (record {
    schema = 1;
    metadata = record { version = 1; content_type = []; encrypted = true; labels = []; owner = [] };
    document = [];
  });
  decode_documents = λ r. err (foreign []);
  decode_access_token = λ r. err (foreign []);
  unmarshal_event = λ t. err (foreign []);
}

-- A file of one token with one scope.
abbrev one_scope : Text → Text → List Text → List Text → Result Text
one_scope id hash (p ∷ []) (a ∷ []) = ok (put id (put hash (put p a)))
one_scope id hash _ _ = err (foreign [])

abbrev one_token : List TokenRecord → Result Text
one_token (tr ∷ []) = one_scope tr.id tr.hash tr.paths tr.actions
one_token _ = err (foreign [])

abbrev read_token : Text → Result (List TokenRecord)
read_token raw =
    let (id, r1) = taken raw in
    let (hash, r2) = taken r1 in
    let (path, action) = taken r2 in
    ok (record { id = id; hash = hash; paths = path ∷ []; actions = action ∷ [] } ∷ [])

abbrev tools : TokenTools http
tools = record {
  random = λ n w. (ok (codes "x"), w);
  encode_to_string = λ b. b;
  bcrypt = hashing;
  marshal_tokens = one_token;
}

abbrev yaml : AuthYaml
yaml = record {
  unmarshal_wrap = λ t. err (foreign []);
  unmarshal_tokens = read_token;
  unmarshal_issuers = λ t. err (foreign []);
}

read_token-one_scope :
    (id hash raw : Text) (paths actions : List Text)
    → one_scope id hash paths actions ≡ ok raw
    → read_token raw ≡ ok (record { id = id; hash = hash; paths = paths; actions = actions } ∷ [])
read_token-one_scope id hash raw (p ∷ []) (a ∷ []) e =
    let r1 = put hash (put p a) in
    let r2 = put p a in
    rw (sym (ok-injective e)) (
      rw
        (
          take-length-append id r1,
          drop-length-append id r1,
          take-length-append hash r2,
          drop-length-append hash r2,
          take-length-append p a,
          drop-length-append p a,
        )
        refl)
read_token-one_scope id hash raw [] actions e = cc
read_token-one_scope id hash raw (p ∷ q ∷ ps) actions e = cc
read_token-one_scope id hash raw (p ∷ []) [] e = cc
read_token-one_scope id hash raw (p ∷ []) (a ∷ b ∷ bs) e = cc

read_token-one_token :
    (ts : List TokenRecord) (raw : Text) → one_token ts ≡ ok raw → read_token raw ≡ ok ts
read_token-one_token [] raw e = cc
read_token-one_token (tr ∷ []) raw e = read_token-one_scope tr.id tr.hash raw tr.paths tr.actions e
read_token-one_token (tr ∷ u ∷ us) raw e = cc

abbrev one_flag : List Text
one_flag = codes "--id" ∷ codes "ci" ∷ codes "--read" ∷ codes "a" ∷ []

run_token_create-one_flag :
    run_token_create http tools [] (codes "root") one_flag tt ≡ (ok (codes "ci", codes "hub_x"), tt)
unfolding run_token_create ◌==◌
run_token_create-one_flag = refl

abbrev body : Text
body = put (codes "ci") (put (codes "#hub_x") (put (codes "a") (codes "read")))

run_token_create-authenticate_bearer_example :
    ((before : Unit {0}) × (env : Envelope) × (apply http
          (new_client [] (codes "root"))
          tokens_path
          (tokens_request body)
          before
        ≡ (ok env, tt)))
    × ((hash : Text) × (e' : Engine) × (load_tokens_yaml yaml body engine ≡ ok e')
        × (e'.service_tokens ≡ created (scan nothing_wanted one_flag) hash ∷ [])
        × (authenticate_bearer hashing clear_jwt 5 e' (codes "hub_x")
            ≡ ok (record { kind = token; id = codes "ci"; groups = [] })))
unfolding tokens_body scan append_unique ◌==◌ unwrap
run_token_create-authenticate_bearer_example =
    run_token_create-authenticate_bearer http tools yaml
      (record { reads_back = read_token-one_token }) hashing-IsHash [] (codes "root") one_flag tt tt
      (codes "ci") (codes "hub_x") body body clear_jwt 5 engine run_token_create-one_flag refl refl
      (λ e. cc)

-- ===== src/Operator/Tests.antt =====
-- A reconciliation in a cluster that keeps one object.
use sealhub.Base.{◌≡◌, ◌⊎◌, refl, Bool, true, false, Option, none, some, []}
use sealhub.Base.Text.{Text, codes, ◌==◌}
use sealhub.Base.Result.{Result, Error, ok, err, not_found, foreign}
use sealhub.Client.Types.{Http}
use sealhub.Operator.Reconcile.{HubPull, Object, Cluster, two_minutes, reconcile}
use sealhub.Operator.Watches.{new_manager, sync, watch_prefix}
use sealhub.Operator.Intervals.{Due}
use sealhub.Operator.Synced.{reconcile-interval}

abbrev http : Http
http = record {
  World = Option Object;
  Item = Text;
  check_url = λ u. none;
  with_query = λ u q. some u;
  send = λ q w. (ok (record { status = 200; body = []; reads = [] }), w);
  itoa = λ n. [];
  marshal_apply = λ ar. [];
  marshal_exchange = λ issuer t. [];
  decode_envelope = λ r. ok (record {
    schema = 1;
    metadata = record { version = 4; content_type = []; encrypted = true; labels = []; owner = [] };
    document = codes "k: v";
  });
  decode_documents = λ r. ok [];
  decode_access_token = λ r. ok [];
  unmarshal_event = λ t. err (foreign []);
}

abbrev pull : HubPull
pull = record {
  namespace = codes "team";
  name = codes "app";
  server = codes "https://hub.example/";
  document_path = codes "a";
  watch = none;
  refresh_interval = codes "1h";
  secret_name = codes "hub";
  secret_key = codes "token";
  kind = [];
  template = [];
  observed_version = 0;
  last_sync_time = [];
}

abbrev kept : Option Object → Result Object
kept none = err not_found
kept (some object) = ok object

abbrev is_not_found : Error → Bool
is_not_found not_found = true
is_not_found _ = false

abbrev cluster : Cluster http
cluster = record {
  Template = Unit {0};
  Json = Unit {0};
  get_pull = λ namespace name w. ok pull;
  get_secret_data = λ namespace name w. ok (λ key. codes "root");
  get_object = λ kind namespace name w. kept w;
  create = λ kind object w. (ok tt, some object);
  update = λ kind object w. (ok tt, some object);
  update_status = λ p w. (ok tt, w);
  is_not_found = is_not_found;
  parse_template = λ t. ok tt;
  unmarshal_any = λ t. tt;
  execute = λ t document j m. ok document;
  unmarshal_object =
      λ kind raw. ok (record { namespace = []; name = []; resource_version = []; content = raw });
  to_lower = λ t. t;
  quote = λ t. t;
  parse_duration = λ t. ok 3600000000000;
  now = λ w. [];
}

abbrev made : Option Object
made = some (record {
  namespace = codes "team";
  name = codes "app";
  resource_version = [];
  content = codes "k: v";
})

reconcile-pull : reconcile http cluster (codes "team") (codes "app") none ≡ (ok two_minutes, made)
unfolding reconcile ◌==◌
reconcile-pull = refl

reconcile-interval_example :
    ((x : Error) × (◌≡◌ {A = Result HubPull} (ok pull) (err x))
      × (is_not_found x ≡ true)
      × (two_minutes ≡ 0)
      × (made ≡ none))
    ⊎ ((p : HubPull) × (◌≡◌ {A = Result HubPull} (ok pull) (ok p)) × Due http cluster p two_minutes)
reconcile-interval_example =
    reconcile-interval http cluster (codes "team") (codes "app") none made two_minutes
      reconcile-pull

-- The pull, when it is no longer to be watched.
abbrev unwatched : HubPull
unwatched = record pull { watch = some false }

-- The stream is cancelled.
sync-pull : (sync 8 unwatched (sync 7 pull new_manager)).done 0 ≡ true
unfolding sync ◌==◌
sync-pull = refl

watch_prefix-nested :
    watch_prefix (record pull { document_path = codes "team/app/env" }) ≡ codes "team/app"
unfolding watch_prefix
watch_prefix-nested = refl

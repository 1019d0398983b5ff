-- ===== src/Operator/Reconcile.antt =====
-- hubpull_controller.go: Reconcile, over a cluster.
use sealhub.Base.{Bool, true, not, ◌&&◌, ◌||◌, Option, none, some, [], ◌++◌, if◌then◌else◌}
use sealhub.Base.Text.{Text, codes, ◌==◌}
use sealhub.Base.Int.{Int64, lt_int}
use sealhub.Base.Action.{after}
use sealhub.Base.Result.{Result, Error, ok, err, foreign}
use sealhub.Document.{Metadata, Envelope}
use sealhub.Client.Types.{Http, new_client}
use sealhub.Client.Calls.{get}

-- What Reconcile reads and writes of a HubPull.
pub record HubPull : Type 0 where
  pub namespace : Text
  pub name : Text
  pub server : Text
  pub document_path : Text
  pub watch : Option Bool
  pub refresh_interval : Text
  pub secret_name : Text
  pub secret_key : Text
  pub kind : Text
  pub template : Text
  pub observed_version : Int64
  pub last_sync_time : Text

-- A corev1.Secret or corev1.ConfigMap.
pub data ObjectKind : Type 0 where
  secret config_map : ObjectKind

pub record Object : Type 0 where
  pub namespace : Text
  pub name : Text
  pub resource_version : Text
  pub content : Text

-- controller-runtime, text/template, encoding/json, sigs.k8s.io/yaml and time. `unmarshal_any` gives
-- what json.Unmarshal leaves in its target, also beside an error.
pub record Cluster (h : Http) : Type 1 where
  pub Template : Type 0
  pub Json : Type 0
  pub get_pull : Text → Text → h.World → Result HubPull
  pub get_secret_data : Text → Text → h.World → Result (Text → Text)
  pub get_object : ObjectKind → Text → Text → h.World → Result Object
  pub create : ObjectKind → Object → h.World → Result (Unit {0}) × h.World
  pub update : ObjectKind → Object → h.World → Result (Unit {0}) × h.World
  pub update_status : HubPull → h.World → Result (Unit {0}) × h.World
  pub is_not_found : Error → Bool
  pub parse_template : Text → Result Template
  pub unmarshal_any : Text → Json
  pub execute : Template → Text → Json → Metadata → Result Text
  pub unmarshal_object : ObjectKind → Text → Result Object
  pub to_lower : Text → Text
  pub quote : Text → Text
  pub parse_duration : Text → Result Int64
  pub now : h.World → Text

-- In nanoseconds.
abbrev pub two_minutes : Int64
two_minutes = 120000000000

abbrev pub five_minutes : Int64
five_minutes = 300000000000

abbrev pub is_watched : HubPull → Bool
is_watched pull = elim pull.watch [ none ↦ true | some b ↦ b ]

-- The kind of the target in lower case; anything else is an error, which quotes the kind.
unfoldable pub target_kind : Text → Text → Result ObjectKind
target_kind kind quoted =
    if kind == codes "secret" || (kind == codes "secrets" || kind == [])
    then ok secret
    else if kind == codes "configmap"
    then ok config_map
    else err (foreign (codes "unsupported kind " ++ quoted))

module _ (h : Http) (k : Cluster h) where
  unfoldable pub token_for : HubPull → h.World → Result Text
  token_for pull w = elim (k.get_secret_data pull.namespace pull.secret_name w) [
    | err x ↦ err x
    | ok fields ↦ ok (fields pull.secret_key)
  ]

  unfoldable pub render_target : Text → Envelope → Result Text
  render_target template env = elim (k.parse_template template) [
    | err x ↦ err x
    | ok t ↦ k.execute t env.document (k.unmarshal_any env.document) env.metadata
  ]

  -- The object with the namespace and, where it has none, the name of the pull.
  abbrev pub placed : HubPull → Object → Object
  placed pull object = record object {
    namespace = pull.namespace;
    name = if object.name == [] then pull.name else object.name;
  }

  unfoldable pub put_object : ObjectKind → Object → h.World → Result (Unit {0}) × h.World
  put_object kind object w = elim (k.get_object kind object.namespace object.name w) [
    | ok existing ↦ k.update kind (record object { resource_version = existing.resource_version }) w
    | err x ↦ if k.is_not_found x then k.create kind object w else (err x, w)
  ]

  unfoldable pub apply_rendered : HubPull → Text → h.World → Result (Unit {0}) × h.World
  unfolding target_kind put_object
  apply_rendered pull raw w =
      after (target_kind (k.to_lower pull.kind) (k.quote pull.kind), w)
        (λ kind w1.
          after (k.unmarshal_object kind raw, w1)
            (λ object w2. put_object kind (placed pull object) w2))

  -- The interval that is asked for, or five minutes.
  unfoldable pub asked_interval : HubPull → Int64
  asked_interval pull =
      if not (pull.refresh_interval == [])
      then elim (k.parse_duration pull.refresh_interval) [ err x ↦ five_minutes | ok d ↦ d ]
      else five_minutes

  unfoldable pub interval_of : HubPull → Int64
  unfolding asked_interval
  interval_of pull =
      let interval = asked_interval pull in
      if is_watched pull && lt_int two_minutes interval then two_minutes else interval

  abbrev pub observed : HubPull → Envelope → h.World → HubPull
  observed pull env w = record pull {
    observed_version = env.metadata.version;
    last_sync_time = k.now w;
  }

  -- With the document; an error of the update of the status is only logged.
  unfoldable pub sync_document : HubPull → Envelope → h.World → Result Int64 × h.World
  unfolding render_target apply_rendered interval_of
  sync_document pull env w =
      after (render_target pull.template env, w)
        (λ rendered w1.
          after (apply_rendered pull rendered w1)
            (λ _ w2. (ok (interval_of pull), (k.update_status (observed pull env w2) w2).1)))

  unfoldable pub sync_pull : HubPull → h.World → Result Int64 × h.World
  unfolding token_for sync_document get new_client
  sync_pull pull w =
      after (token_for pull w, w)
        (λ tok w1.
          after (get h (new_client pull.server tok) pull.document_path w1)
            (λ env w2. sync_document pull env w2))

  -- The field RequeueAfter; a pull that is gone is not an error.
  unfoldable pub reconcile : Text → Text → h.World → Result Int64 × h.World
  unfolding sync_pull
  reconcile namespace name w = elim (k.get_pull namespace name w) [
    | err x ↦ if k.is_not_found x then (ok 0, w) else (err x, w)
    | ok pull ↦ sync_pull pull w
  ]

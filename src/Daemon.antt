-- ===== src/Daemon.antt =====
-- cmd/hubd/main.go: the start of the server, and its goroutines: the requests and the polls of the
-- repository. Listening, signals and the shutdown are outside of the model.
pub mod Run
pub mod Kept
pub mod Configured
pub mod Sound
mod Tests
use sealhub.Base.{ℕ, not, ◌&&◌, Option, none, some, List, [], ◌∷◌, ◌++◌, if◌then◌else◌, nat_eq}
use sealhub.Base.Int.{Int64, lt_int}
use sealhub.Base.Text.{Text, codes, ◌==◌}
use sealhub.Base.Result.{Result, ok, err, Error}
use sealhub.Crypto.{KeyRing, load_key_ring}
use sealhub.Config.{Config, load, clone_url, git_auth_ssh, poll_duration}
use sealhub.Auth.Engine.{new_engine}
use sealhub.Auth.Bearer.{load_jwt_secret}
use sealhub.Store.Git.{Outside, Sys}
use sealhub.Store.Documents.{poll}
use sealhub.Store.Opening.{Options, Repositories, open_or_clone}
use sealhub.Api.Types.{Web, Server}
use sealhub.Api.System.{reload_system_auth}

-- What the process is given: the variables SEALHUB_CONFIG and SEALHUB_BOOTSTRAP_TOKEN, its arguments
-- with its own name first, and yaml.v3 and time.ParseDuration.
pub record Process : Type 0 where
  pub env_config : Text
  pub env_bootstrap : Text
  pub args : List Text
  pub unmarshal_config : Text → Result Config
  pub parse_duration : Text → Result Int64

abbrev pub first_argument : List Text → Text
first_argument (name ∷ path ∷ _) = path
first_argument _ = []

unfoldable pub config_path : Process → Text
config_path p =
    let given = if p.env_config == [] then first_argument p.args else p.env_config in
    if given == [] then codes "config.yaml" else given

-- The message that log.Fatalf ends the process with.
pub data Fatal : Type 0 where
  config_failed keyring_failed jwt_secret_failed store_failed : Error → Fatal

-- A server that started, a message that ended the process, or a panic.
pub data Start (A : Type 0) : Type 0 where
  started : A → Start A
  stopped : Fatal → Start A
  panicked : Start A

unfoldable pub store_options : Config → KeyRing → Options
store_options cfg kr = record {
  local_path = cfg.git.local_path;
  clone_url = clone_url cfg;
  branch = cfg.github.branch;
  pat_file = cfg.github.auth.pat_file;
  use_ssh = git_auth_ssh cfg;
  keyring = kr;
  broker = none;
  commit_name = cfg.git.commit_name;
  commit_email = cfg.git.commit_email;
}

-- time.NewTicker panics for an interval that is not positive.
unfoldable pub tick_interval : Process → Config → Option Int64
unfolding poll_duration
tick_interval p cfg =
    let d = poll_duration p.parse_duration cfg in if lt_int 0 d then some d else none

module _ (o : Outside) where
  module _ (g : Repositories o) (w : Web) (p : Process) where
    -- The store is opened, and the engine is loaded from its files.
    unfoldable pub serve_store : Config → KeyRing → Text → o.State → Start (Server o)
    unfolding store_options open_or_clone new_engine reload_system_auth
    serve_store cfg kr jwt_secret u = elim (open_or_clone o g (store_options cfg kr) u) [
      | none ↦ panicked
      | some (err x, _) ↦ stopped (store_failed x)
      | some (ok _, sys) ↦ started (
          reload_system_auth o w
            (record { engine = new_engine cfg.auth.bootstrap_token jwt_secret; sys = sys }))
    ]

    -- main up to NewServer and the first ReloadSystemAuth.
    unfoldable pub start : o.State → Start (Config × Server o)
    unfolding config_path load load_key_ring load_jwt_secret serve_store
    start u = elim (load p.unmarshal_config p.env_bootstrap (o.read_file u (config_path p))) [
      | err x ↦ stopped (config_failed x)
      | ok cfg ↦ elim (load_key_ring o.cipher (o.read_file u cfg.encryption.keyring_file)) [
        | err x ↦ stopped (keyring_failed x)
        | ok kr ↦ elim (load_jwt_secret (o.read_file u) cfg.auth.jwt_secret_file) [
          | err x ↦ stopped (jwt_secret_failed x)
          | ok secret ↦ elim (serve_store cfg kr secret u) [
            | panicked ↦ panicked
            | stopped x ↦ stopped x
            | started s ↦ started (cfg, s)
          ]
        ]
      ]
    ]

  -- One turn of the loop over the ticker: an error of Poll is logged.
  unfoldable pub tick : Web → Server o → Option (Server o)
  unfolding poll reload_system_auth
  tick w s = elim (poll o s.sys) [
    | none ↦ none
    | some (err _, sys) ↦ some (record s { sys = sys })
    | some (ok _, sys) ↦ some (reload_system_auth o w (record s { sys = sys }))
  ]

-- ===== src/Daemon/Tests.antt =====
-- A run of hubd, over a repository whose branch moves to a second commit when it is merged.
use sealhub.Base.{◌≡◌, refl, Bool, false, Option, none, some, List, [], ◌∷◌, ◌++◌, if◌then◌else◌}
use sealhub.Base.Text.{Text, codes, ◌==◌, trim_space, cut_suffix, split}
use sealhub.Base.FilePath.{join}
use sealhub.Base.Result.{Result, ok}
use sealhub.Document.{parse_envelope}
use sealhub.Document.Tests.{written, plain_yaml}
use sealhub.Changes.{new_broker, publish, send_all}
use sealhub.Changes.History.{publish_all}
use sealhub.Crypto.Tests.{toy_cipher, old_key, zeros}
use sealhub.Config.{Config, git_auth_ssh}
use sealhub.Auth.Engine.{new_engine}
use sealhub.Store.Index.{set, snapshot}
use sealhub.Store.Git.{Outside, TreeFile, refresh_index_locked}
use sealhub.Store.Documents.{must_git}
use sealhub.Store.Opening.{Repositories, opened, new_git_store}
use sealhub.Store.Serving.{IsAppendOnly}
use sealhub.Api.Types.{Server}
use sealhub.Api.Tests.{web, stored}
use sealhub.Daemon.{Process, Start, started, config_path, store_options, start, tick}
use sealhub.Daemon.Run.{begun, moved, ticks}
use sealhub.Daemon.Sound.{Started, IsSound, start-Reach}

abbrev file : Text → TreeFile
file name = record { name = name; hash = codes "h"; contents = ok (written stored) }

-- The second commit has one more document.
abbrev commits : Text → Result (List TreeFile)
commits sha =
    if sha == codes "c1"
    then ok (file (codes "data/a") ∷ [])
    else ok (file (codes "data/a") ∷ file (codes "data/b") ∷ [])

abbrev is_merge : List Text → Bool
is_merge (c ∷ work_dir ∷ cmd ∷ args) = cmd == codes "merge"
is_merge _ = false

-- The head of the branch.
abbrev upstream : Outside
upstream = record {
  State = Text;
  read_file = λ w p. if p == codes "/k" then ok (old_key ++ b'\n' ∷ []) else ok (codes "server:");
  mkdir_all = λ p w. (ok tt, w);
  write_file = λ p t w. (ok tt, w);
  git = λ args w. (record { output = []; failed = false }, if is_merge args then codes "c2" else w);
  head = λ w. ok w;
  tree_files = λ w sha. commits sha;
  remote_url = λ w. none;
  draw = λ w. zeros;
  yaml = plain_yaml;
  cipher = toy_cipher;
}

upstream-IsAppendOnly : IsAppendOnly upstream
upstream-IsAppendOnly = record {
  git = λ args w sha files h. h;
  mkdir_all = λ p w sha files h. h;
  write_file = λ p raw w sha files h. h;
}

abbrev repositories : Repositories upstream
repositories = record {
  plain_open = λ p w. opened;
  plain_clone = λ p url token branch w. (ok tt, w);
}

abbrev config : Config
config = record {
  server = record { listen = codes ":1"; external_url = codes "https://hub" };
  github = record {
    owner = codes "o";
    repo = codes "r";
    branch = codes "main";
    auth = record { type = codes "ssh"; pat_file = [] };
  };
  git = record { local_path = codes "/w"; commit_name = codes "n"; commit_email = codes "e" };
  encryption = record { keyring_file = codes "/k" };
  auth = record { bootstrap_token = codes "root"; jwt_secret_file = [] };
  freshness = record { poll_interval = codes "1s" };
}

abbrev process : Process
process = record {
  env_config = [];
  env_bootstrap = [];
  args = codes "hubd" ∷ [];
  unmarshal_config = λ raw. ok config;
  parse_duration = λ t. ok 1000000000;
}

config_path-process : config_path process ≡ codes "config.yaml"
unfolding config_path ◌==◌
config_path-process = refl

abbrev state_of : Start (Config × Server upstream) → Server upstream
state_of (started (_, s)) = s
state_of _ = record {
  engine = new_engine [] [];
  sys = record {
    store = new_git_store (store_options config (record { keys = [] }));
    outside = codes "c1";
  };
}

abbrev first : Server upstream
first = state_of (start upstream repositories web process (codes "c1"))

start-process : start upstream repositories web process (codes "c1") ≡ started (config, first)
unfolding start ◌==◌ split trim_space cut_suffix must_git refresh_index_locked publish_all snapshot
    parse_envelope set publish send_all new_broker join git_auth_ssh
start-process = refl

abbrev after : Option (Server upstream) → Server upstream
after none = first
after (some s) = s

abbrev second : Server upstream
second = after (tick upstream web first)

tick-first : tick upstream web first ≡ some second
unfolding tick start ◌==◌ split trim_space cut_suffix must_git refresh_index_locked publish_all
    snapshot parse_envelope set publish send_all new_broker join git_auth_ssh
tick-first = refl

start-Reach_example :
    (it : Started upstream repositories web process (codes "c1") config first) × IsSound upstream
      repositories web process config it.keyring it.jwt_secret second
start-Reach_example =
    start-Reach upstream repositories web process upstream-IsAppendOnly (codes "c1") config first
      second start-process (moved begun (ticks web.now tick-first))

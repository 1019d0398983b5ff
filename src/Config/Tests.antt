-- ===== src/Config/Tests.antt =====
-- Runs of the loading of the configuration.
use sealhub.Base.{◌≡◌, ◌↔◌, [], refl}
use sealhub.Base.Text.{Text, codes}
use sealhub.Base.Result.{Result, ok}
use sealhub.Config.{Config, apply_defaults, load, clone_url}
use sealhub.Config.Loading.{IsComplete, HasDefaults, load_iff}

abbrev given : Config
given = record {
  server = record { listen = []; external_url = codes "https://hub" };
  github = record {
    owner = codes "o";
    repo = codes "r";
    branch = [];
    auth = record { type = codes "ssh"; pat_file = [] };
  };
  git = record { local_path = codes "/w"; commit_name = []; commit_email = [] };
  encryption = record { keyring_file = codes "/k" };
  auth = record { bootstrap_token = []; jwt_secret_file = [] };
  freshness = record { poll_interval = [] };
}

load_iff_example :
    (load (λ raw. ok given) [] (ok (codes "server:")) ≡ ok (apply_defaults [] given)) ↔ (
      (c : Config) × (◌≡◌ {A = Result Config} (ok given) (ok c))
      × (apply_defaults [] c ≡ apply_defaults [] given)
      × IsComplete (apply_defaults [] given)
      × HasDefaults (apply_defaults [] given))
load_iff_example = load_iff (λ raw. ok given) [] (codes "server:") (apply_defaults [] given)

-- The configuration loads.
load-given : load (λ raw. ok given) [] (ok (codes "server:")) ≡ ok (apply_defaults [] given)
unfolding load sealhub.Base.Text.◌==◌
load-given = refl

clone_url-given : clone_url given ≡ codes "git@github.com:o/r.git"
unfolding clone_url sealhub.Base.Text.◌==◌
clone_url-given = refl

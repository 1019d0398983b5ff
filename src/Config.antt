-- ===== src/Config.antt =====
-- pkg/config/config.go: the configuration of hubd, its defaults and its checks.
pub mod Loading
mod Tests
use sealhub.Base.{◌≡◌, Bool, true, false, not, ◌&&◌, ◌||◌, List, [], ◌∷◌, ◌++◌, if◌then◌else◌, ℕ}
use sealhub.Base.Int.{Int64, lt_int}
use sealhub.Base.Text.{Text, codes, ◌==◌}
use sealhub.Base.Result.{Result, ok, err, missing_setting, ◌>>=◌}

pub record ServerConfig : Type 0 where
  pub listen : Text
  pub external_url : Text

-- "type" is "pat", or "" for it, or "ssh".
pub record GithubAuth : Type 0 where
  pub type : Text
  pub pat_file : Text

pub record GithubConfig : Type 0 where
  pub owner : Text
  pub repo : Text
  pub branch : Text
  pub auth : GithubAuth

pub record GitConfig : Type 0 where
  pub local_path : Text
  pub commit_name : Text
  pub commit_email : Text

pub record EncryptionConfig : Type 0 where
  pub keyring_file : Text

pub record AuthConfig : Type 0 where
  pub bootstrap_token : Text
  pub jwt_secret_file : Text

pub record FreshnessConfig : Type 0 where
  pub poll_interval : Text

pub record Config : Type 0 where
  pub server : ServerConfig
  pub github : GithubConfig
  pub git : GitConfig
  pub encryption : EncryptionConfig
  pub auth : AuthConfig
  pub freshness : FreshnessConfig

-- if x == "" { x = d }
abbrev pub default_to : Text → Text → Text
default_to d x = if x == [] then d else x

-- The argument is the value of SEALHUB_BOOTSTRAP_TOKEN.
unfoldable pub apply_defaults : Text → Config → Config
apply_defaults tok c = record {
  server = record c.server { listen = default_to (codes ":8080") c.server.listen };
  github = record c.github { branch = default_to (codes "main") c.github.branch };
  git = record c.git {
    commit_name = default_to (codes "SealHub hubd") c.git.commit_name;
    commit_email = default_to (codes "sealhub@localhost") c.git.commit_email;
  };
  encryption = c.encryption;
  auth = record c.auth {
    bootstrap_token =
        if not (tok == []) && c.auth.bootstrap_token == [] then tok else c.auth.bootstrap_token;
    jwt_secret_file = default_to [] c.auth.jwt_secret_file;
  };
  freshness = record { poll_interval = default_to (codes "15s") c.freshness.poll_interval };
}

abbrev pub require : Bool → Text → Result (Unit {0})
require missing what = if missing then err (missing_setting what) else ok tt

unfoldable pub validate : Config → Result (Unit {0})
validate c = do
  _ ← require (c.server.external_url == []) (codes "server.externalURL")
  _ ← require (c.github.owner == [] || c.github.repo == []) (codes "github.owner and github.repo")
  _ ←
      require
        (default_to (codes "pat") c.github.auth.type == codes "pat" && c.github.auth.pat_file == [])
        (codes "github.auth.patFile")
  _ ← require (c.git.local_path == []) (codes "git.localPath")
  require (c.encryption.keyring_file == []) (codes "encryption.keyringFile")

-- Load on what reading the file gave; `unmarshal` is yaml.v3's.
unfoldable pub load : (Text → Result Config) → Text → Result Text → Result Config
unfolding apply_defaults validate
load unmarshal tok file = do
  raw ← file
  c ← unmarshal raw
  _ ← validate (apply_defaults tok c)
  ok (apply_defaults tok c)

-- time.ParseDuration is the argument. Durations are in nanoseconds.
unfoldable pub poll_duration : (Text → Result Int64) → Config → Int64
poll_duration parse_duration c = elim (parse_duration c.freshness.poll_interval) [
  | err _ ↦ 15000000000
  | ok d ↦ d
]

unfoldable pub git_auth_ssh : Config → Bool
git_auth_ssh c = c.github.auth.type == codes "ssh"

unfoldable pub clone_url : Config → Text
clone_url c =
    if c.github.auth.type == codes "ssh"
    then codes "git@github.com:" ++ c.github.owner ++ codes "/" ++ c.github.repo ++ codes ".git"
    else codes "https://github.com/" ++ c.github.owner ++ codes "/" ++ c.github.repo ++ codes ".git"

-- ===== src/Hub/Credentials.antt =====
-- internal/cli/auth/credentials.go: the file with the token of a login.
use sealhub.Base.{◌||◌, [], if◌then◌else◌}
use sealhub.Base.Text.{Text, codes, ◌==◌}
use sealhub.Base.FilePath.{join, dir}
use sealhub.Base.Action.{after}
use sealhub.Base.Result.{Result, ok, err, foreign, ◌>>=◌}
use sealhub.Client.Types.{Http, new_client}
use sealhub.Client.Calls.{exchange_id_token}
use sealhub.Pocket.Machine.{Machine}

pub record CredFile : Type 0 where
  pub access_token : Text
  pub server : Text

-- os.UserConfigDir, os.Remove with its error, and encoding/json.
pub record Home (h : Http) : Type 0 where
  pub user_config_dir : Result Text
  pub remove_file : Text → h.World → Result (Unit {0}) × h.World
  pub marshal_cred : CredFile → Result Text
  pub unmarshal_cred : Text → Result CredFile

module _ (h : Http) (m : Machine h) (u : Home h) where
  unfoldable pub cred_path : Result Text
  unfolding join
  cred_path = do d ← u.user_config_dir; ok (join d (codes "hub/credentials.json"))

  unfoldable pub save_token : Text → Text → h.World → Result (Unit {0}) × h.World
  unfolding cred_path dir
  save_token server token w =
      after (cred_path, w)
        (λ p w1. after (m.mkdir_all (dir p) w1) (λ _ w2.
          after (u.marshal_cred (record { access_token = token; server = server }), w2)
            (λ b w3. m.write_file p b w3)))

  unfoldable pub load_token : h.World → Result Text
  unfolding cred_path
  load_token w = do p ← cred_path; b ← m.read_file p w; c ← u.unmarshal_cred b; ok c.access_token

  unfoldable pub logout : h.World → Result (Unit {0}) × h.World
  unfolding cred_path
  logout w = after (cred_path, w) u.remove_file

  unfoldable pub login : Text → h.World → Result (Unit {0}) × h.World
  unfolding exchange_id_token new_client save_token
  login server w =
      let id_tok = m.getenv (codes "SEALHUB_ID_TOKEN") in
      let issuer = m.getenv (codes "SEALHUB_OIDC_ISSUER") in
      if id_tok == [] || issuer == []
      then (err (foreign (codes "set SEALHUB_ID_TOKEN and SEALHUB_OIDC_ISSUER")), w)
      else after (exchange_id_token h (new_client server []) issuer id_tok w) (save_token server)

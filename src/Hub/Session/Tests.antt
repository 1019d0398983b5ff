-- ===== src/Hub/Session/Tests.antt =====
-- Runs of a login and of the flags of hub apply.
use sealhub.Base.{
  ◌≡◌, ◌↔◌, ◌⊎◌, refl, true, false, none, List, [], ◌∷◌, take-length-append, drop-length-append,
}
use sealhub.Base.Fields.{put, taken}
use sealhub.Base.Text.{Text, codes, ◌==◌}
use sealhub.Base.FilePath.{join}
use sealhub.Base.Result.{Result, ok, err, foreign, ok-injective}
use sealhub.Document.{default_encrypt_for_path}
use sealhub.Auth.ClearTokens.{hashing}
use sealhub.Client.Types.{new_client}
use sealhub.Client.Calls.{exchange_id_token}
use sealhub.Store.Index.{Table, find, assign, remove}
use sealhub.Pocket.Machine.{Machine}
use sealhub.Pocket.Uploaded.{IsDisk}
use sealhub.Pocket.Tests
use sealhub.Pocket.Tests.{http, machine-IsDisk}
use sealhub.Hub.Token.{TokenTools}
use sealhub.Hub.Credentials.{CredFile, Home, login}
use sealhub.Hub.Command.{Flags, CommandLine, apply_encrypt_flag, dispatch}
use sealhub.Hub.Session.{IsCredCodec, dispatch-login}
use sealhub.Hub.Encryption.{
  ComesFirst, Absent, encrypt_flag, no_encrypt_flag, apply_encrypt_flag_iff,
}

-- A machine whose environment has every variable.
abbrev machine : Machine http
machine = record Tests.machine { getenv = λ k. codes "x" }

machine-IsDisk_env : IsDisk http machine
machine-IsDisk_env = record {
  reads_written = machine-IsDisk.reads_written;
  leaves = machine-IsDisk.leaves;
  removes = machine-IsDisk.removes;
}

abbrev read_cred : Text → Result CredFile
read_cred raw =
    let (token, server) = taken raw in ok (record { access_token = token; server = server })

abbrev home : Home http
home = record {
  user_config_dir = ok (codes "/c");
  remove_file = λ p w. (ok tt, remove p w);
  marshal_cred = λ c. ok (put c.access_token c.server);
  unmarshal_cred = read_cred;
}

home-IsCredCodec : IsCredCodec http machine home
home-IsCredCodec = record {
  reads_back = λ c raw e.
      let same : put c.access_token c.server ≡ raw = ok-injective e in
      rw
        (
          ← same,
          take-length-append c.access_token c.server,
          drop-length-append c.access_token c.server,
        )
        refl;
}

abbrev tools : TokenTools http
tools = record {
  random = λ n w. (ok (codes "x"), w);
  encode_to_string = λ b. b;
  bcrypt = hashing;
  marshal_tokens = λ ts. err (foreign []);
}

abbrev command_line : CommandLine http
command_line = record {
  parse_flags = λ server token. none;
  parse_pocket = λ args. none;
  print_event = λ ev w. w;
}

abbrev after_login : Table Text
after_login = (login http machine home (codes "s") []).1

login-first : login http machine home (codes "s") [] ≡ (ok tt, after_login)
unfolding login find assign ◌==◌ join
login-first = refl

dispatch-login_example :
    (access : Text) × (w1 : Table Text) × (exchange_id_token http
        (new_client (codes "s") [])
        (codes "x")
        (codes "x")
        []
      ≡ (ok access, w1))
    × ((f : Flags) (cmd : Text) (rest : List Text)
        → dispatch http machine home tools command_line
            (record f { token = [] })
            cmd
            rest
            after_login
          ≡ dispatch http machine home tools command_line
              (record f { token = access })
              cmd
              rest
              after_login)
dispatch-login_example =
    dispatch-login http machine home tools command_line machine-IsDisk_env home-IsCredCodec
      (codes "s") [] after_login tt login-first

abbrev flags : List Text
flags = codes "secrets/a" ∷ codes "-f" ∷ codes "x" ∷ codes "-no-encrypt" ∷ codes "-encrypt" ∷ []

apply_encrypt_flag_iff_example : (apply_encrypt_flag (codes "secrets/a") flags ≡ true) ↔ (
    ComesFirst encrypt_flag no_encrypt_flag flags
    ⊎ (Absent encrypt_flag flags
        × Absent no_encrypt_flag flags
        × (default_encrypt_for_path (codes "secrets/a") ≡ true)))
apply_encrypt_flag_iff_example = apply_encrypt_flag_iff (codes "secrets/a") flags

apply_encrypt_flag-flags : apply_encrypt_flag (codes "secrets/a") flags ≡ false
unfolding apply_encrypt_flag ◌==◌
apply_encrypt_flag-flags = refl

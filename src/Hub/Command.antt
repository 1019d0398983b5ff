-- ===== src/Hub/Command.antt =====
-- cmd/hub/main.go and cmd/hub/pocket.go: the command line of the client.
use sealhub.Base.{Bool, true, false, not, Option, none, some, List, [], ◌∷◌, ◌++◌, if◌then◌else◌}
use sealhub.Base.Text.{Text, codes, ◌==◌}
use sealhub.Base.Result.{Result, Error, ok, err, foreign}
use sealhub.Document.{Envelope, default_encrypt_for_path}
use sealhub.Changes.{Event}
use sealhub.Client.Types.{ApplyRequest, Http, Client, new_client}
use sealhub.Client.Calls.{get, list, apply, delete}
use sealhub.Client.Watch.{Watching, ended, waiting, watch}
use sealhub.Pocket.Machine.{Options, Machine}
use sealhub.Pocket.Transfer.{backup, restore}
use sealhub.Hub.Token.{TokenTools, run_token_create}
use sealhub.Hub.Credentials.{Home, load_token, logout, login}

-- The flags of hub, or of hub pocket, with the arguments behind them.
pub record Flags : Type 0 where
  pub server : Text
  pub token : Text
  pub args : List Text

pub record PocketFlags : Type 0 where
  pub home : Text
  pub instance_name : Text
  pub no_stop : Bool

-- Package flag, on the defaults of server and token; `none` is the end of the process that it causes
-- itself. `print_event` writes an event in JSON.
pub record CommandLine (h : Http) : Type 0 where
  pub parse_flags : Text → Text → Option Flags
  pub parse_pocket : List Text → Option PocketFlags
  pub print_event : Event → h.World → h.World

-- What a command writes before it ends with the status 0, or with the status 1 or 2. The output format
-- is not read: either is JSON.
pub data Shown (h : Http) : Type 0 where
  envelope : Envelope → Shown h
  documents : List h.Item → Shown h
  created_token : Text × Text → Shown h
  line : Text → Shown h
  nothing : Shown h

pub data Exit (h : Http) : Type 0 where
  done : Shown h → Exit h
  fatal : Error → Exit h
  usage flag_exit : Exit h
  running : Text → Exit h

abbrev pub usage_of : {h : Http} → Text → Exit h
usage_of t = fatal (foreign (codes "usage: hub " ++ t))

-- The second argument, or nothing.
abbrev pub prefix_of : List Text → Text
prefix_of [] = []
prefix_of (p ∷ _) = p

-- What follows a call: its value is shown, its error ends the process.
abbrev pub shown :
    {h : Http} {A : Type 0} → (A → Shown h) → Result A × h.World → Option (Exit h × h.World)
shown show (ok a, w) = some (done (show a), w)
shown show (err x, w) = some (fatal x, w)

-- The loop of applyEncryptFlag: the first of the two flags counts.
unfoldable pub apply_encrypt_flag : Text → List Text → Bool
unfolding default_encrypt_for_path
apply_encrypt_flag path [] = default_encrypt_for_path path
apply_encrypt_flag path (a ∷ rest) =
    let later = apply_encrypt_flag path rest in
    if a == codes "-encrypt" then true else if a == codes "-no-encrypt" then false else later

-- The loop of readApplyBody: the file that follows the first "-f" which is not the last argument.
unfoldable pub body_file : List Text → Option Text
body_file [] = none
body_file (a ∷ []) = none
body_file (a ∷ name ∷ rest) =
    let later = body_file (name ∷ rest) in if a == codes "-f" then some name else later

module _ (h : Http) (m : Machine h) (u : Home h) (t : TokenTools h) (l : CommandLine h) where
  unfoldable pub env_or : Text → Text → Text
  env_or k def = let v = m.getenv k in if not (v == []) then v else def

  unfoldable pub resolve_token : Text → h.World → Text
  unfolding load_token
  resolve_token flag_tok w =
      if not (flag_tok == [])
      then flag_tok
      else elim (load_token h m u w) [ ok tok ↦ tok | err _ ↦ [] ]

  -- Without -f a file with the name "-" is read.
  unfoldable pub read_apply_body : List Text → h.World → Result Text
  unfolding body_file
  read_apply_body rest w = elim (body_file rest) [
    | some name ↦ m.read_file name w
    | none ↦ elim (m.read_file (codes "-") w) [
      | ok b ↦ ok b
      | err _ ↦ err (foreign (codes "apply requires -f file"))
    ]
  ]

  abbrev pub apply_request : Text → List Text → Text → ApplyRequest
  apply_request path rest body = record {
    document = body;
    content_type = [];
    encrypt = some (apply_encrypt_flag path rest);
    expected_version = 0;
  }

  -- The arguments that are searched begin with the path.
  unfoldable pub hub_apply : Client → List Text → h.World → Option (Exit h × h.World)
  unfolding read_apply_body apply_encrypt_flag apply
  hub_apply c [] w = some (usage_of (codes "apply <path> [-f file] [-encrypt|-no-encrypt]"), w)
  hub_apply c (path ∷ rest) w = elim (read_apply_body (path ∷ rest) w) [
    | err x ↦ some (fatal x, w)
    | ok body ↦
        shown (λ env. envelope env) (apply h c path (apply_request path (path ∷ rest) body) w)
  ]

  unfoldable pub hub_get : Client → List Text → h.World → Option (Exit h × h.World)
  unfolding get
  hub_get c [] w = some (usage_of (codes "get <path>"), w)
  hub_get c (path ∷ _) w = shown (λ env. envelope env) (get h c path w)

  unfoldable pub hub_list : Client → List Text → h.World → Option (Exit h × h.World)
  unfolding list
  hub_list c rest w = elim (list h c (prefix_of rest) w) [
    | none ↦ none
    | some r ↦ shown (λ ds. documents ds) r
  ]

  unfoldable pub hub_delete : Client → List Text → h.World → Option (Exit h × h.World)
  unfolding delete
  hub_delete c [] w = some (usage_of (codes "delete <path>"), w)
  hub_delete c (path ∷ _) w = shown (λ _. nothing) (delete h c path 0 w)

  abbrev pub watched : Watching × h.World → Exit h × h.World
  watched (ended (ok _), w) = (done nothing, w)
  watched (ended (err x), w) = (fatal x, w)
  watched (waiting buf, w) = (running buf, w)

  -- The callback prints the event and returns nil.
  unfoldable pub hub_watch : Client → List Text → h.World → Option (Exit h × h.World)
  unfolding watch
  hub_watch c rest w = elim (watch h (λ ev v. (ok tt, l.print_event ev v)) c 0 (prefix_of rest) w) [
    | none ↦ none
    | some r ↦ some (watched r)
  ]

  abbrev pub whoami : Result Text → Exit h
  whoami (ok tok) =
      if tok == []
      then fatal (foreign (codes "not logged in"))
      else done (line (codes "credentials present"))
  whoami (err _) = fatal (foreign (codes "not logged in"))

  unfoldable pub hub_auth : Text → List Text → h.World → Option (Exit h × h.World)
  unfolding login logout load_token
  hub_auth server [] w = some (usage_of (codes "auth login|logout|whoami"), w)
  hub_auth server (sub ∷ _) w =
      if sub == codes "login"
      then shown (λ _. nothing) (login h m u server w)
      else if sub == codes "logout"
      then shown (λ _. nothing) (logout h m u w)
      else if sub == codes "whoami"
      then some (whoami (load_token h m u w), w)
      else some (fatal (foreign (codes "unknown auth subcommand")), w)

  unfoldable pub hub_token : Text → Text → List Text → h.World → Option (Exit h × h.World)
  unfolding run_token_create resolve_token
  hub_token server token [] w = some (usage_of (codes "token create ..."), w)
  hub_token server token (sub ∷ rest) w =
      if sub == codes "create"
      then shown (λ p. created_token p) (run_token_create h t server (resolve_token token w) rest w)
      else some (usage_of (codes "token create --id NAME --read path"), w)

  abbrev pub pocket_options : PocketFlags → Options
  pocket_options f = record {
    home = f.home;
    instance_name = f.instance_name;
    stop_compose = not f.no_stop;
  }

  -- runPocket; ClientWithTimeout sets the time limit of the copy that it returns.
  unfoldable pub run_pocket : Client → List Text → h.World → Option (Exit h × h.World)
  unfolding backup restore
  run_pocket c [] w = some (usage_of (codes "pocket backup|restore"), w)
  run_pocket c (sub ∷ rest) w = elim (l.parse_pocket rest) [
    | none ↦ some (flag_exit, w)
    | some f ↦
        if sub == codes "backup"
        then shown (λ _. line (codes "ok")) (backup h m c (pocket_options f) w)
        else if sub == codes "restore"
        then shown (λ _. line (codes "ok")) (restore h m c (pocket_options f) w)
        else some (usage_of (codes "pocket backup|restore"), w)
  ]

  -- The switch of main.
  unfoldable pub dispatch : Flags → Text → List Text → h.World → Option (Exit h × h.World)
  unfolding resolve_token new_client hub_get hub_list hub_apply hub_delete hub_watch hub_auth
      hub_token run_pocket
  dispatch f cmd rest w =
      let c = new_client f.server (resolve_token f.token w) in
      if cmd == codes "get"
      then hub_get c rest w
      else if cmd == codes "list"
      then hub_list c rest w
      else if cmd == codes "apply"
      then hub_apply c rest w
      else if cmd == codes "delete"
      then hub_delete c rest w
      else if cmd == codes "watch"
      then hub_watch c rest w
      else if cmd == codes "auth"
      then hub_auth f.server rest w
      else if cmd == codes "token"
      then hub_token f.server f.token rest w
      else if cmd == codes "pocket"
      then run_pocket c rest w
      else some (usage, w)

  unfoldable pub hub : h.World → Option (Exit h × h.World)
  unfolding env_or dispatch
  hub w =
      elim (l.parse_flags (env_or (codes "SEALHUB_SERVER") (codes "http://localhost:8080"))
        (env_or (codes "SEALHUB_TOKEN") (env_or (codes "HUB_TOKEN") []))) [
          | none ↦ some (flag_exit, w)
          | some f ↦ elim f.args [ [] ↦ some (usage, w) | cmd ∷ rest ↦ dispatch f cmd rest w ]
        ]

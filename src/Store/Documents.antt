-- ===== src/Store/Documents.antt =====
-- The methods of the store in pkg/store/gitstore.go. Each holds the store's lock throughout.
pub mod Applied
pub mod Kept
pub mod Saved
pub mod Frame
pub mod Versions
pub mod RoundTrip
use sealhub.Base.{
  ℕ, ◌≡◌, Bool, true, false, not, ◌&&◌, ◌||◌, Option, none, some, List, [], ◌∷◌, ◌++◌,
  if◌then◌else◌, nat_eq,
}
use sealhub.Base.Text.{Text, codes, ◌==◌, has_prefix, cut_prefix, trim_space, split, contains}
use sealhub.Base.Int.{Int64, lt_int, inc_int}
use sealhub.Base.FilePath.{join, dir}
use sealhub.Base.Result.{Result, ok, err, Error, not_found, version_conflict, not_ready, git_failed}
use sealhub.Base.Action.{Act, continue, ◌>>=◌, ◌>>◌, pure, fail, lift, gets}
use sealhub.Document.{Metadata, Envelope, parse_envelope, marshal_envelope, git_path}
use sealhub.Crypto.{encrypt, decrypt}
use sealhub.Store.Index
use sealhub.Store.Index.{DocEntry}
use sealhub.Store.Git.{Output, Outside, GitStore, Sys, refresh_index_locked, read_file_at_head}

abbrev pub token_user : Text
token_user = codes "x-access-token:"

abbrev pub https : Text
https = codes "https://"

-- The URL without an old token; `none` is a panic, where no "@" follows the token.
unfoldable pub strip_token : Text → Option Text
strip_token url =
    if contains url token_user
    then elim (split url b'@') [
      | [] ↦ none
      | first ∷ [] ↦ none
      | first ∷ second ∷ _ ↦ some (https ++ second)
    ]
    else some url

-- The URL with the token.
unfoldable pub add_token : Text → Text → Text
add_token token url = elim (cut_prefix url https) [
  | none ↦ url
  | some rest ↦ if not (token == []) then https ++ token_user ++ token ++ codes "@" ++ rest else url
]

abbrev pub default_content_type : Text → Text
default_content_type ct = if ct == [] then codes "application/yaml" else ct

-- The envelope that Apply writes.
abbrev pub new_envelope : Int64 → Text → Bool → Text → Text → Envelope
new_envelope version content_type enc owner doc_body = record {
  schema = 0;
  metadata = record {
    version = version;
    content_type = default_content_type content_type;
    encrypted = enc;
    labels = [];
    owner = owner;
  };
  document = doc_body;
}

-- The envelope that Apply returns: the stored one with the body in plain text.
abbrev pub shown : Bool → Text → Envelope → Envelope
shown enc body env =
    if enc
    then record env { document = body; metadata = record env.metadata { encrypted = false } }
    else env

module _ (o : Outside) where
  -- exec.CommandContext("git", "-C", workDir, …).CombinedOutput()
  unfoldable pub run_git : List Text → Act (Sys o) Output
  run_git args s =
      let (out, w) = o.git (codes "-C" ∷ s.store.work_dir ∷ args) s.outside in
      some (ok out, record s { outside = w })

  -- setRemoteURL; the callers drop its result.
  unfoldable pub set_remote_url : Text → Act (Sys o) (Unit {0})
  unfolding strip_token add_token run_git
  set_remote_url token s =
      if s.store.use_ssh then some (ok tt, s) else elim (o.remote_url s.outside) [
        | none ↦ some (ok tt, s)
        | some url ↦ elim (strip_token url) [
          | none ↦ none
          | some bare ↦
              (run_git
                    (codes "remote" ∷ codes "set-url" ∷ codes "origin" ∷ add_token token bare ∷ [])
                  >> pure tt)
                s
        ]
      ]

  -- gs.pat, for a store that does not use SSH.
  unfoldable pub pat : Sys o → Result Text
  pat s = elim (o.read_file s.outside s.store.pat_file) [ err x ↦ err x | ok b ↦ ok (trim_space b) ]

  -- if !gs.useSSH { token, err := gs.pat(); …; _ = gs.setRemoteURL(token) }
  unfoldable pub refresh_remote : Act (Sys o) (Unit {0})
  unfolding pat set_remote_url
  refresh_remote s =
      if s.store.use_ssh then some (ok tt, s) else ((λ s. some (pat s, s)) >>= set_remote_url) s

  -- A git command whose failure ends the method, unless it printed the text that is excused.
  unfoldable pub must_git : Text → Option Text → List Text → Act (Sys o) (Unit {0})
  unfolding run_git
  must_git what excuse args = run_git args >>= λ out.
      if out.failed && not (elim excuse [ none ↦ false | some t ↦ contains out.output t ])
      then fail (git_failed what out.output)
      else pure tt

  abbrev pub up_to_date : Text
  up_to_date = codes "Already up to date"

  unfoldable pub poll : Act (Sys o) (Unit {0})
  unfolding refresh_remote must_git
  poll = do
    refresh_remote
    branch ← gets (λ s. s.store.branch)
    must_git (codes "fetch") (some up_to_date) (codes "fetch" ∷ codes "origin" ∷ branch ∷ [])
    must_git (codes "merge") (some up_to_date)
        (codes "merge" ∷ codes "--ff-only" ∷ codes "FETCH_HEAD" ∷ [])
    refresh_index_locked o false

  -- The envelope as the API shows it.
  unfoldable pub opened : Sys o → Envelope → Result Envelope
  opened s env =
      if env.metadata.encrypted
      then elim (decrypt o.cipher s.store.keyring env.document) [
        | err x ↦ err x
        | ok plain ↦
            ok (record env {
              document = plain;
              metadata = record env.metadata { encrypted = false };
            })
      ]
      else ok env

  unfoldable pub get_document : Text → Sys o → Result Envelope
  unfolding opened read_file_at_head
  get_document path s =
      if not s.store.ready then err not_ready else elim (read_file_at_head o (git_path path) s) [
        | err _ ↦ err not_found
        | ok raw ↦ elim (parse_envelope o.yaml raw) [ err x ↦ err x | ok env ↦ opened s env ]
      ]

  unfoldable pub list : Text → Text → Text → Sys o → List DocEntry
  list prefix label_key label_val s = Index.list prefix label_key label_val s.store.index

  -- The version check of Apply: the version to write.
  unfoldable pub next_version : Result Text → Int64 → Result Int64
  next_version (ok raw) expected = elim (parse_envelope o.yaml raw) [
    | err x ↦ err x
    | ok existing ↦
        if lt_int 0 expected && not (nat_eq existing.metadata.version expected)
        then err version_conflict
        else ok (inc_int existing.metadata.version)
  ]
  next_version (err _) expected = if lt_int 1 expected then err version_conflict else ok 1

  -- The body as it is stored.
  unfoldable pub stored_body : Bool → Text → Act (Sys o) Text
  stored_body enc body s =
      if enc
      then elim (encrypt o.cipher (o.draw s.outside) s.store.keyring body) [
        | none ↦ none
        | some r ↦ some (r, s)
      ]
      else some (ok body, s)

  -- os.MkdirAll and os.WriteFile
  unfoldable pub write_document : Text → Text → Act (Sys o) (Unit {0})
  write_document abs raw =
      (λ s. let (r, w) = o.mkdir_all (dir abs) s.outside in some (r, record s { outside = w }))
      >> (λ s. let (r, w) = o.write_file abs raw s.outside in some (r, record s { outside = w }))

  -- git add, gitCommit and git push, with the index refreshed behind them. The identity of gitCommit
  -- goes into the environment of the command.
  unfoldable pub publish_commit : List Text → Text → Option Text → Text → Act (Sys o) (Unit {0})
  unfolding must_git
  publish_commit first what excuse msg = do
    must_git what none first
    must_git (codes "git commit") excuse (codes "commit" ∷ codes "-m" ∷ msg ∷ [])
    branch ← gets (λ s. s.store.branch)
    must_git (codes "git push") none
        (codes "push" ∷ codes "origin" ∷ (codes "HEAD:" ++ branch) ∷ [])
    refresh_index_locked o false

  -- Apply from the writing of the file to the refresh of the index.
  unfoldable pub save : Text → Text → Act (Sys o) (Unit {0})
  unfolding write_document refresh_remote publish_commit
  save path raw = do
    abs ← gets (λ s. join s.store.work_dir (git_path path))
    write_document abs raw
    refresh_remote
    publish_commit (codes "add" ∷ git_path path ∷ []) (codes "git add")
        (some (codes "nothing to commit")) (codes "sealhub: apply " ++ path)

  -- Apply once the envelope is marshalled.
  unfoldable pub apply_raw : Text → Text → Bool → Envelope → Text → Act (Sys o) Envelope
  apply_raw path body enc env raw = save path raw >> pure (shown enc body env)

  -- Apply once the body is encrypted.
  unfoldable pub apply_body : Text → Text → Text → Bool → Text → Int64 → Text → Act (Sys o) Envelope
  apply_body path body content_type enc owner version doc_body =
      let (text, env) =
        marshal_envelope o.yaml (new_envelope version content_type enc owner doc_body) in
      lift text >>= apply_raw path body enc env

  -- Apply once the version is checked.
  unfoldable pub apply_version : Text → Text → Text → Bool → Text → Int64 → Act (Sys o) Envelope
  apply_version path body content_type enc owner version =
      stored_body enc body >>= apply_body path body content_type enc owner version

  -- The version check of Apply, on the file at the path.
  unfoldable pub check_apply : Text → Int64 → Act (Sys o) Int64
  unfolding next_version read_file_at_head
  check_apply path expected s =
      some (next_version (read_file_at_head o (git_path path) s) expected, s)

  unfoldable pub apply : Text → Text → Text → Bool → Int64 → Text → Act (Sys o) Envelope
  unfolding check_apply apply_version apply_body apply_raw stored_body save
  apply path body content_type enc expected owner =
      check_apply path expected >>= apply_version path body content_type enc owner

  -- The checks of Delete.
  unfoldable pub check_delete : Result Text → Int64 → Result (Unit {0})
  check_delete (err _) expected = err not_found
  check_delete (ok raw) expected = elim (parse_envelope o.yaml raw) [
    | err x ↦ err x
    | ok existing ↦
        if lt_int 0 expected && not (nat_eq existing.metadata.version expected)
        then err version_conflict
        else ok tt
  ]

  unfoldable pub delete : Text → Int64 → Act (Sys o) (Unit {0})
  unfolding check_delete publish_commit refresh_remote read_file_at_head
  delete path expected = do
    (λ s. some (check_delete (read_file_at_head o (git_path path) s) expected, s))
    refresh_remote
    publish_commit (codes "rm" ∷ git_path path ∷ []) (codes "git rm") none
        (codes "sealhub: delete " ++ path)

  unfoldable pub read_system_file : Text → Sys o → Result Text
  unfolding read_file_at_head
  read_system_file rel s = read_file_at_head o rel s

-- ===== src/Store/Opening.antt =====
-- The opening of the store in pkg/store/gitstore.go: Options and OpenOrClone.
pub mod Served
use sealhub.Base.{Bool, true, false, ◌||◌, List, [], ◌∷◌, ◌++◌, if◌then◌else◌, Option, none, some}
use sealhub.Base.Text.{Text, codes, ◌==◌, has_prefix}
use sealhub.Base.Action.{Act, ◌>>=◌, ◌>>◌, pure, fail, gets}
use sealhub.Base.Result.{Result, ok, err, Error, git_failed, foreign}
use sealhub.Changes.{Broker, new_broker}
use sealhub.Crypto.{KeyRing}
use sealhub.Store.Index.{new_index}
use sealhub.Store.Git.{Output, Outside, GitStore, Sys, refresh_index_locked}
use sealhub.Store.Documents.{must_git, pat}

pub record Options : Type 0 where
  pub local_path : Text
  pub clone_url : Text
  pub branch : Text
  pub pat_file : Text
  pub use_ssh : Bool
  pub keyring : KeyRing
  pub broker : Option Broker
  pub commit_name : Text
  pub commit_email : Text

-- The store before the repository is opened.
unfoldable pub new_git_store : Options → GitStore
new_git_store opt = record {
  work_dir = opt.local_path;
  branch = opt.branch;
  pat_file = opt.pat_file;
  keyring = opt.keyring;
  index = new_index;
  broker = elim opt.broker [ none ↦ new_broker | some b ↦ b ];
  served_sha = [];
  ready = false;
  use_ssh = opt.use_ssh || has_prefix opt.clone_url (codes "git@");
  commit_name = if opt.commit_name == [] then codes "SealHub hubd" else opt.commit_name;
  commit_email = if opt.commit_email == [] then codes "sealhub@localhost" else opt.commit_email;
}

unfoldable pub is_ready : GitStore → Bool
is_ready gs = gs.ready

module _ (o : Outside) where
  unfoldable pub ensure_git_identity : Act (Sys o) (Unit {0})
  ensure_git_identity s =
      (must_git o (codes "git config user.name") none
            (codes "config" ∷ codes "user.name" ∷ s.store.commit_name ∷ [])
          >> must_git o (codes "git config user.email") none
              (codes "config" ∷ codes "user.email" ∷ s.store.commit_email ∷ []))
        s

  -- gs.ready = true
  abbrev pub set_ready : Act (Sys o) (Unit {0})
  set_ready s = some (ok tt, record s { store = record s.store { ready = true } })

  -- OpenOrClone once the repository is open.
  unfoldable pub start_store : Act (Sys o) (Unit {0})
  unfolding ensure_git_identity
  start_store = ensure_git_identity >> refresh_index_locked o true >> set_ready

-- What git.PlainOpen gives: the repository, git.ErrRepositoryNotExists, or another error.
pub data Opened : Type 0 where
  opened not_exists : Opened
  unopened : Error → Opened

-- The error of the second PlainOpen.
unfoldable pub reopened : Opened → Result (Unit {0})
reopened opened = ok tt
reopened not_exists = err (foreign (codes "repository does not exist"))
reopened (unopened x) = err x

-- go-git's PlainOpen of a path, and its PlainCloneContext to a path, from a URL, with a password, of a
-- branch alone and one commit deep.
pub record Repositories (o : Outside) : Type 0 where
  pub plain_open : Text → o.State → Opened
  pub plain_clone : Text → Text → Text → Text → o.State → Result (Unit {0}) × o.State

module _ (o : Outside) (g : Repositories o) where
  -- os.MkdirAll(opt.LocalPath, 0o755)
  unfoldable pub make_local_path : Options → Act (Sys o) (Unit {0})
  make_local_path opt s =
      let (r, w) = o.mkdir_all opt.local_path s.outside in some (r, record s { outside = w })

  -- git clone, and the repository opened behind it.
  unfoldable pub clone_by_ssh : Options → Act (Sys o) (Unit {0})
  unfolding reopened
  clone_by_ssh opt s =
      let (out, w) =
        o.git
          (codes "clone"
            ∷ codes "--branch"
            ∷ opt.branch
            ∷ codes "--single-branch"
            ∷ opt.clone_url
            ∷ opt.local_path
            ∷ [])
          s.outside in
      some (
        if out.failed
            then err (git_failed (codes "git clone") out.output)
            else reopened (g.plain_open opt.local_path w),
        record s { outside = w },
      )

  unfoldable pub clone_by_token : Options → Act (Sys o) (Unit {0})
  unfolding pat
  clone_by_token opt s = elim (pat o s) [
    | err x ↦ some (err x, s)
    | ok token ↦
        let (r, w) = g.plain_clone opt.local_path opt.clone_url token opt.branch s.outside in
        some (r, record s { outside = w })
  ]

  -- What follows PlainOpen: a clone where there is no repository.
  unfoldable pub open_as : Options → Opened → Act (Sys o) (Unit {0})
  unfolding clone_by_ssh clone_by_token
  open_as opt opened = pure tt
  open_as opt (unopened x) = fail x
  open_as opt not_exists = λ s. (if s.store.use_ssh then clone_by_ssh opt else clone_by_token opt) s

  unfoldable pub open_repository : Options → Act (Sys o) (Unit {0})
  unfolding open_as
  open_repository opt s = open_as opt (g.plain_open opt.local_path s.outside) s

  -- OpenOrClone, from a state outside: the store is there where it returns a value.
  unfoldable pub open_or_clone : Options → o.State → Option (Result (Unit {0}) × Sys o)
  unfolding new_git_store make_local_path open_repository start_store
  open_or_clone opt w =
      (make_local_path opt >> open_repository opt >> start_store o)
        (record { store = new_git_store opt; outside = w })

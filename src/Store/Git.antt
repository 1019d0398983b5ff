-- ===== src/Store/Git.antt =====
-- pkg/store/gitstore.go: the documents of a git worktree. The disk, the repository and the remote
-- are outside of the program: a state with the calls that the store makes of them.
pub mod Refresh
pub mod Cases
use sealhub.Base.{
  ℕ, ◌≡◌, ◌≢◌, ◌+◌, Bool, true, false, not, ◌&&◌, ◌||◌, Option, none, some, List, [], ◌∷◌, ◌++◌,
  if◌then◌else◌, nat_eq, is_some,
}
use sealhub.Base.Text.{
  Text, codes, ◌==◌, has_prefix, trim_prefix, cut_prefix, trim_space, split, contains,
}
use sealhub.Base.Int.{Int64, lt_int, inc_int}
use sealhub.Base.FilePath.{join, dir}
use sealhub.Base.Result.{Result, ok, err, Error, not_found, version_conflict, not_ready, git_failed}
use sealhub.Base.Action.{Act}
use sealhub.Document.{
  Metadata, Envelope, EnvelopeYaml, parse_envelope, marshal_envelope, git_path, data_dir,
}
use sealhub.Changes.{Event, EventType, upsert, delete, Broker}
use sealhub.Changes.History.{publish_all}
use sealhub.Crypto.{KeyRing, Primitives, encrypt, decrypt}
use sealhub.Store.Index.{DocEntry, Table, find, Index, new_index, set, snapshot}

-- What a command printed, and its error if it failed.
pub record Output : Type 0 where
  pub output : Text
  pub failed : Bool

-- A file of a commit's tree.
pub record TreeFile : Type 0 where
  pub name : Text
  pub hash : Text
  pub contents : Result Text

-- package os, the git command and go-git, with yaml and the cipher. `draw` gives the bytes of the
-- random source, `head` is the hash of repo.Head and `tree_files` are the files of a commit's tree in
-- the order of ForEach; `remote_url` is the first URL of origin, where it has one.
pub record Outside : Type 1 where
  pub State : Type 0
  pub read_file : State → Text → Result Text
  pub mkdir_all : Text → State → Result (Unit {0}) × State
  pub write_file : Text → Text → State → Result (Unit {0}) × State
  pub git : List Text → State → Output × State
  pub head : State → Result Text
  pub tree_files : State → Text → Result (List TreeFile)
  pub remote_url : State → Option Text
  pub draw : State → ℕ → Result Text
  pub yaml : EnvelopeYaml
  pub cipher : Primitives

pub record GitStore : Type 0 where
  pub work_dir : Text
  pub branch : Text
  pub pat_file : Text
  pub keyring : KeyRing
  pub index : Index
  pub broker : Broker
  pub served_sha : Text
  pub ready : Bool
  pub use_ssh : Bool
  pub commit_name : Text
  pub commit_email : Text

abbrev pub no_metadata : Metadata
no_metadata = record { version = 0; content_type = []; encrypted = false; labels = []; owner = [] }

abbrev pub upsert_event : Text → DocEntry → Event
upsert_event p e = record { revision = 0; type = upsert; path = p; metadata = e.metadata }

abbrev pub delete_event : Text → Event
delete_event p = record { revision = 0; type = delete; path = p; metadata = no_metadata }

-- The first loop of refreshIndexLocked, over the new snapshot.
unfoldable pub upserts : Table DocEntry → Table DocEntry → List Event
unfolding find
upserts old [] = []
upserts old ((p, e) ∷ new) =
    let rest = upserts old new in
    if not (is_some (find p old)) then upsert_event p e ∷ rest else rest

-- The second loop, over the old snapshot.
unfoldable pub deletes : Table DocEntry → Table DocEntry → List Event
unfolding find
deletes [] new = []
deletes ((p, e) ∷ old) new =
    let rest = deletes old new in if not (is_some (find p new)) then delete_event p ∷ rest else rest

module _ (o : Outside) where
  -- The store beside the state outside.
  pub record Sys : Type 0 where
    pub store : GitStore
    pub outside : o.State

  -- visit: the function that refreshIndexLocked hands to ForEach; `none` stops the iteration.
  unfoldable pub visit : TreeFile → Index → Option Index
  visit f idx = if not (has_prefix f.name data_dir) then some idx else elim f.contents [
    | err _ ↦ none
    | ok raw ↦ elim (parse_envelope o.yaml raw) [
      | err _ ↦ some idx
      | ok env ↦
          let api_path = trim_prefix f.name data_dir in
          some (
            set api_path (record { path = api_path; blob_sha = f.hash; metadata = env.metadata })
              idx)
    ]
  ]

  unfoldable pub index_files : List TreeFile → Index → Index
  unfolding visit
  index_files [] idx = idx
  index_files (f ∷ fs) idx = elim (visit f idx) [ none ↦ idx | some idx' ↦ index_files fs idx' ]

  -- The rest of refreshIndexLocked, once the tree is there.
  unfoldable pub serve_files : Text → List TreeFile → Table DocEntry → Act Sys (Unit {0})
  unfolding index_files upserts deletes
  serve_files sha files old s =
      let idx = index_files files new_index in
      let new = snapshot idx in
      elim (publish_all (upserts old new ++ deletes old new) s.store.broker) [
        | none ↦ none
        | some b ↦ some (
          ok tt,
          record s { store = record s.store { index = idx; served_sha = sha; broker = b } },
        )
      ]

  unfoldable pub refresh_index_locked : Bool → Act Sys (Unit {0})
  unfolding serve_files
  refresh_index_locked initial s = elim (o.head s.outside) [
    | err x ↦ some (err x, s)
    | ok sha ↦
        if sha == s.store.served_sha && not initial
        then some (ok tt, s)
        else (let old = snapshot s.store.index in
            let s' = record s { store = record s.store { index = new_index } } in
            elim (o.tree_files s.outside sha) [
              | err x ↦ some (err x, s')
              | ok files ↦ serve_files sha files old s'
            ])
  ]

  unfoldable pub read_file_at_head : Text → Sys → Result Text
  read_file_at_head rel s = o.read_file s.outside (join s.store.work_dir rel)

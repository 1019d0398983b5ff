-- ===== src/Store/Tests.antt =====
-- Runs of the index and of the store, over a worktree that is a table of files.
use sealhub.Base.{
  ◌≡◌, ◌↔◌, refl, ap, ◌∙◌, Bool, true, false, Option, none, some, [], ◌∷◌, ◌++◌, if◌then◌else◌,
}
use sealhub.Base.Text.{Text, codes, ◌==◌, eq_refl, cut_prefix, split, contains}
use sealhub.Base.FilePath.{join}
use sealhub.Base.Int.{Int64}
use sealhub.Base.Result.{Result, ok, err, foreign, version_conflict}
use sealhub.Document.{Metadata, Envelope, parse_envelope, marshal_envelope, git_path}
use sealhub.Document.Tests.{written, plain_yaml, plain_yaml-IsCodec}
use sealhub.Changes.{new_broker, publish, send_all}
use sealhub.Changes.History.{publish_all}
use sealhub.Crypto.{encrypt}
use sealhub.Crypto.Tests.{
  toy_cipher, toy_cipher-IsAuthenticated, old_ring, old_key, zeros, zeros-length,
}
use sealhub.Store.Index.{DocEntry, Table, find, assign, Index, new_index, set, get, list, snapshot}
use sealhub.Store.Index.Contents.{find-assign, IsIndexed, new_index-IsIndexed, set-IsIndexed}
use sealhub.Store.Index.Matching.{Matches}
use sealhub.Store.Index.Listing.{IsSorted, In, list_iff}
use sealhub.Store.Git.{Outside, Sys, refresh_index_locked, read_file_at_head}
use sealhub.Store.Git.Refresh.{Published, refresh_index_locked-Published}
use sealhub.Store.Opening.{Options, Repositories, opened, not_exists, open_or_clone}
use sealhub.Store.Documents.{apply, get_document}
use sealhub.Store.Documents.Kept.{IsWorktree}
use sealhub.Store.Documents.RoundTrip.{get_document-apply}
use sealhub.Store.Documents.Versions.{IsNext, apply-IsNext, apply-apply}

abbrev meta : Text → Metadata
meta owner = record {
  version = 1;
  content_type = codes "application/yaml";
  encrypted = false;
  labels = [];
  owner = owner;
}

abbrev entry : Text → DocEntry
entry p = record { path = p; blob_sha = []; metadata = meta [] }

abbrev one : Index
one = set (codes "a") (entry (codes "a")) new_index

one-IsIndexed : IsIndexed one
one-IsIndexed = set-IsIndexed (codes "a") (entry (codes "a")) new_index refl new_index-IsIndexed

list_iff_example :
    IsSorted (list (codes "a") [] [] one)
    × ((e : DocEntry)
        → In e (list (codes "a") [] [] one)
          ↔ ((get e.path one ≡ some e) × Matches (codes "a") [] [] e))
list_iff_example = list_iff (codes "a") [] [] one one-IsIndexed

abbrev pub or_missing : Option Text → Result Text
or_missing none = err (foreign (codes "no such file"))
or_missing (some t) = ok t

abbrev pub disk : Outside
disk = record {
  State = Table Text;
  read_file = λ w p. or_missing (find p w);
  mkdir_all = λ p w. (ok tt, w);
  write_file = λ p t w. (ok tt, assign p t w);
  git = λ args w. (record { output = []; failed = false }, w);
  head = λ w. ok (codes "c1");
  tree_files = λ w sha. ok (
      record {
        name = codes "data/a";
        hash = codes "h";
        contents = or_missing (find (codes "/w/data/a") w);
      }
      ∷ []);
  remote_url = λ w. some (codes "https://git.example/r");
  draw = λ w. zeros;
  yaml = plain_yaml;
  cipher = toy_cipher;
}

same_key : (p raw : Text) (w : Table Text) → (if p == p then some raw else find p w) ≡ some raw
same_key p raw w = rw (eq_refl p) refl

pub disk-IsWorktree : IsWorktree disk
disk-IsWorktree = record {
  reads_written = λ p raw w h. ap or_missing (find-assign p p raw w ∙ same_key p raw w);
  leaves_files = λ where_to cmd p args w known. refl;
}

abbrev pub start : Sys disk
start = record {
  store = record {
    work_dir = codes "/w";
    branch = codes "main";
    pat_file = codes "/pat";
    keyring = old_ring;
    index = new_index;
    broker = new_broker;
    served_sha = [];
    ready = true;
    use_ssh = false;
    commit_name = [];
    commit_email = [];
  };
  outside = (codes "/pat", codes "tok") ∷ [];
}

abbrev state_of : {A : Type 0} → Option (Result A × Sys disk) → Sys disk
state_of none = start
state_of (some (_, s)) = s

abbrev saved : Int64 → Bool → Envelope
saved version enc = record {
  schema = 1;
  metadata = record (meta (codes "ann")) { version = version };
  document = codes "k: v";
}

-- The document "a", written encrypted by "ann" for a caller that expects no version.
abbrev write : Int64 → Sys disk → Option (Result Envelope × Sys disk)
write expected s = apply disk (codes "a") (codes "k: v") [] true expected (codes "ann") s

abbrev first : Sys disk
first = state_of (write 0 start)

abbrev second : Sys disk
second = state_of (write 1 first)

write-first : write 0 start ≡ some (ok (saved 1 true), first)
unfolding apply find ◌==◌ join cut_prefix split git_path encrypt marshal_envelope assign contains
    refresh_index_locked publish_all snapshot parse_envelope set publish send_all new_broker
write-first = refl

write-second : write 1 first ≡ some (ok (saved 2 true), second)
unfolding apply find ◌==◌ join cut_prefix split git_path encrypt marshal_envelope assign contains
    refresh_index_locked publish_all snapshot parse_envelope set publish send_all new_broker
write-second = refl

get_document-apply_example : get_document disk (codes "a") first ≡ ok (saved 1 true)
get_document-apply_example =
    get_document-apply disk disk-IsWorktree plain_yaml-IsCodec toy_cipher-IsAuthenticated start
      first old_key [] zeros-length refl (refl, tt) refl (codes "a") (codes "k: v") [] true 0
      (codes "ann") (saved 1 true) write-first

apply-IsNext_example : IsNext disk (read_file_at_head disk (git_path (codes "a")) start) 0 1
apply-IsNext_example =
    apply-IsNext disk (codes "a") (codes "k: v") [] true 0 (codes "ann") start first (saved 1 true)
      write-first

abbrev stored : Text
stored = written (record (saved 1 true) {
  metadata = record (saved 1 true).metadata { encrypted = true };
  document = 0 ∷ 0 ∷ (old_key ++ codes "k: v");
})

read_file_at_head-first : read_file_at_head disk (git_path (codes "a")) first ≡ ok stored
unfolding apply find ◌==◌ join cut_prefix split git_path encrypt marshal_envelope assign contains
    refresh_index_locked publish_all snapshot parse_envelope set publish send_all new_broker
read_file_at_head-first = refl

apply-apply_example :
    apply disk (codes "a") (codes "other") [] false 1 (codes "bob") second
    ≡ some (err version_conflict, second)
apply-apply_example =
    apply-apply disk disk-IsWorktree plain_yaml-IsCodec (codes "a") (codes "k: v") [] true 1
      (codes "ann") first second (saved 2 true) stored read_file_at_head-first refl write-second
      (codes "other") [] false (codes "bob")

-- The worktree with the document, before the index has it.
abbrev behind : Sys disk
behind = record start { outside = first.outside }

abbrev refreshed : Sys disk
refreshed = state_of (refresh_index_locked disk false behind)

refresh_index_locked-behind : refresh_index_locked disk false behind ≡ some (ok tt, refreshed)
unfolding apply find ◌==◌ join cut_prefix split git_path encrypt marshal_envelope assign contains
    refresh_index_locked publish_all snapshot parse_envelope set publish send_all new_broker
refresh_index_locked-behind = refl

refresh_index_locked-Published_example : Published disk behind refreshed
refresh_index_locked-Published_example =
    refresh_index_locked-Published disk false behind refreshed tt refresh_index_locked-behind

-- A repository is there once it was cloned.
abbrev repositories : Repositories disk
repositories = record {
  plain_open = λ p w. elim (find (p ++ codes "/.git") w) [ none ↦ not_exists | some t ↦ opened ];
  plain_clone = λ p url token branch w. (ok tt, assign (p ++ codes "/.git") token w);
}

abbrev options : Options
options = record {
  local_path = codes "/w";
  clone_url = codes "https://git.example/r";
  branch = codes "main";
  pat_file = codes "/pat";
  use_ssh = false;
  keyring = old_ring;
  broker = none;
  commit_name = [];
  commit_email = [];
}

abbrev cloned : Sys disk
cloned = state_of (open_or_clone disk repositories options behind.outside)

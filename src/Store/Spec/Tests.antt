-- ===== src/Store/Spec/Tests.antt =====
-- Runs of the store beside the map of documents.
use sealhub.Base.{
  ◌≡◌, ◌≢◌, refl, ap, ◌∙◌, true, false, Option, none, some, List, [], ◌∷◌, Any, inl, inr,
  if◌then◌else◌, Bool-cases,
}
use sealhub.Base.Text.{Text, codes, ◌==◌, eq_iff, eq_refl, cut_prefix, split, contains}
use sealhub.Base.FilePath.{join}
use sealhub.Base.Result.{Result, ok, err, foreign, version_conflict}
use sealhub.Document.{git_path, parse_envelope, marshal_envelope}
use sealhub.Document.Tests.{plain_yaml-IsCodec}
use sealhub.Changes.{new_broker, publish, send_all}
use sealhub.Changes.History.{publish_all}
use sealhub.Crypto.{encrypt}
use sealhub.Crypto.Tests.{toy_cipher-IsAuthenticated, old_key, zeros-length}
use sealhub.Store.Index
use sealhub.Store.Index.{Table, find, assign, set, snapshot}
use sealhub.Store.Index.Contents.{find-assign, find-remove}
use sealhub.Store.Git.{Outside, Sys, refresh_index_locked}
use sealhub.Store.Documents.{get_document}
use sealhub.Store.Documents.Kept.{IsWorktree, bookkeeping}
use sealhub.Store.Documents.Frame.{is_plain, IsPlain, Alike, IsFramed}
use sealhub.Store.Spec.{Docs, get, Call, puts, removes, run}
use sealhub.Store.Spec.Calls.{IsKeyed, in_dir, run_calls}
use sealhub.Store.Spec.Simulation.{Stores, StoresPlain}
use sealhub.Store.Spec.Refinement.{Shows, run_calls-run}
use sealhub.Store.Spec.Refused.{run_calls-refused}
use sealhub.Store.Tests.{disk, start, or_missing, disk-IsWorktree}

-- `git rm` takes a file of the worktree away; the other commands leave the files alone.
abbrev removal : List Text → Table Text → Table Text
removal (c ∷ work_dir ∷ cmd ∷ rel ∷ rest) w =
    if cmd == codes "rm" then Index.remove (join work_dir rel) w else w
removal _ w = w

abbrev bench : Outside
bench = record disk { git = λ args w. (record { output = []; failed = false }, removal args w) }

apart_of_length : (a b : Text) → (a == b) ≡ false → a ≢ b
apart_of_length a b h e = let z = (eq_iff a b).1 e in cc

kept_by :
    (cmd work_dir : Text) (args : List Text) (w : Table Text)
    → Any (λ c. cmd ≡ c) bookkeeping
    → removal (codes "-C" ∷ work_dir ∷ cmd ∷ args) w ≡ w
unfolding ◌==◌
kept_by cmd work_dir [] w known = refl
kept_by cmd work_dir (rel ∷ rest) w (inl e) = rw e refl
kept_by cmd work_dir (rel ∷ rest) w (inr (inl e)) = rw e refl
kept_by cmd work_dir (rel ∷ rest) w (inr (inr (inl e))) = rw e refl
kept_by cmd work_dir (rel ∷ rest) w (inr (inr (inr (inl e)))) = rw e refl
kept_by cmd work_dir (rel ∷ rest) w (inr (inr (inr (inr z)))) = absurd z

bench-IsWorktree : IsWorktree bench
bench-IsWorktree = record {
  reads_written = disk-IsWorktree.reads_written;
  leaves_files = λ where_to cmd p args w known.
      ap (λ v. or_missing (find p v)) (kept_by cmd where_to args w known);
}

self : (p : Text) (t : Option Text) (w : Table Text) → (if p == p then t else find p w) ≡ t
self p t w = rw (eq_refl p) refl

other :
    (p q : Text) (t : Option Text) (w : Table Text)
    → p ≢ q
    → (if p == q then t else find q w) ≡ find q w
other p q t w h = elim (Bool-cases (p == q)) [
  | inl e ↦ absurd (h ((eq_iff p q).0 e))
  | inr e ↦ rw e refl
]

alike : (a b : Result Text) → b ≡ a → Alike bench a b
alike a b e = record { same = λ raw h. e ∙ h; missing = λ x h. (x, e ∙ h) }

bench-IsFramed : IsFramed bench
unfolding ◌==◌
bench-IsFramed = record {
  makes_directories = λ d p q w _ _. alike (or_missing (find (join d (git_path q)) w)) _ refl;
  writes_one = λ d p q raw w _ _ apart.
      let a = join d (git_path p) in
      let b = join d (git_path q) in
      alike (or_missing (find b w)) _
        (ap or_missing (find-assign a b raw w ∙ other a b (some raw) w apart));
  removes = λ d p w _ fine.
      let a = join d (git_path p) in
      (foreign (codes "no such file"), ap or_missing (find-remove a a w ∙ self a none w));
  removes_one = λ d p q w _ _ apart.
      let a = join d (git_path p) in
      let b = join d (git_path q) in
      alike (or_missing (find b w)) _ (ap or_missing (find-remove a b w ∙ other a b none w apart));
}

abbrev empty : Sys bench
empty = record { store = record start.store { use_ssh = true }; outside = [] }

abbrev no_docs : Docs
no_docs f = none

empty-Stores : Stores bench empty no_docs
unfolding find
empty-Stores = record { holds = λ path. (foreign (codes "no such file"), refl) }

empty-StoresPlain : StoresPlain bench empty no_docs
empty-StoresPlain = record { holds = λ path plain. empty-Stores.holds path }

empty-IsKeyed : IsKeyed bench empty
empty-IsKeyed = record {
  ready = refl;
  first = old_key;
  older = [];
  ring = refl;
  sized = (refl, tt);
}

abbrev calls : List Call
calls =
    puts (codes "a") (codes "k: v") [] true 0 (codes "ann")
    ∷ puts (codes "a") (codes "k: w") [] false 1 (codes "bob")
    ∷ removes (codes "a") 2
    ∷ []

abbrev after : Option (Result (Unit {0}) × Sys bench) → Sys bench
after none = empty
after (some (_, s)) = s

abbrev done : Sys bench
done = after (run_calls bench calls empty)

run_calls-empty : run_calls bench calls empty ≡ some (ok tt, done)
unfolding run_calls find ◌==◌ join cut_prefix split git_path encrypt marshal_envelope assign
    contains refresh_index_locked publish_all snapshot parse_envelope set publish send_all
    new_broker
run_calls-empty = refl

run_calls-run_example :
    (docs : Docs) × (run (in_dir (codes "/w")) calls no_docs ≡ ok docs)
    × ((path : Text)
        → IsPlain path
        → Shows (get (in_dir (codes "/w") path) docs) (get_document bench path done))
unfolding is_plain contains cut_prefix
run_calls-run_example =
    run_calls-run bench bench-IsWorktree bench-IsFramed plain_yaml-IsCodec
      toy_cipher-IsAuthenticated (λ u. zeros-length) calls empty done tt no_docs empty-IsKeyed
      empty-StoresPlain (refl, (refl, (refl, tt))) run_calls-empty

refused_run :
    run (in_dir (codes "/w")) (puts (codes "a") [] [] false 2 [] ∷ []) no_docs
    ≡ err version_conflict
unfolding run
refused_run = refl

run_calls-refused_example :
    run_calls bench (puts (codes "a") [] [] false 2 [] ∷ []) empty
    ≡ some (err version_conflict, empty)
run_calls-refused_example =
    run_calls-refused bench (puts (codes "a") [] [] false 2 []) empty no_docs version_conflict
      empty-Stores refused_run

-- ===== src/Store/Documents/Frame.antt =====
-- The documents that an Apply or a Delete of another one leaves alone.
use mathlib.Core.Path.{subst}
use sealhub.Base.{
  Bool, true, not, ◌&&◌, ◌≡◌, ◌≢◌, refl, sym, false, none, some, List, [], ◌∷◌, ap, ◌∙◌, inl, inr,
  Bool-cases,
}
use sealhub.Base.Text.{Text, codes, contains}
use sealhub.Base.Result.{Result, ok, err, Error}
use sealhub.Base.Action.{>>=-eq-ok}
use sealhub.Base.FilePath.{join, dir}
use sealhub.Base.Int.{Int64}
use sealhub.Document.{git_path}
use sealhub.Store.Git.{Outside, Sys, read_file_at_head}
use sealhub.Store.Documents.{
  run_git, must_git, refresh_remote, write_document, save, check_delete, delete,
}
use sealhub.Store.Documents.Kept.{IsWorktree, Kept, Keeps-refresh_remote, publish_commit-split}
use sealhub.Store.Documents.Saved.{save-split, Kept-of_write}

-- A path of which git makes no pattern and the file system no other path: it has none of `*`, `?`, `[`,
-- the backslash and the colon, and no two dots in a row.
unfoldable pub is_plain : Text → Bool
unfolding contains
is_plain path =
    not (contains path (codes "*"))
    && not (contains path (codes "?"))
    && not (contains path (codes "["))
    && not (contains path (b'\\' ∷ []))
    && not (contains path (codes ":"))
    && not (contains path (codes ".."))

abbrev pub IsPlain : Text → Type 0
IsPlain path = is_plain path ≡ true

module _ (o : Outside) where
  -- A file is read as before: the same text, or there is none, if for another reason.
  pub record Alike (a b : Result Text) : Type 0 where
    pub same : (raw : Text) → a ≡ ok raw → b ≡ ok raw
    pub missing : (x : Error) → a ≡ err x → (y : Error) × (b ≡ err y)

  -- What is relied on of the files of two plain paths that are not the same file, in a worktree without
  -- symbolic links on a file system that tells upper from lower case: writing one, with the directories
  -- that it needs, and `git rm` of one leave the other as it is, and a `git rm` that does not fail
  -- removes its own.
  pub record IsFramed : Type 0 where
    pub makes_directories :
        (work_dir path other : Text) (w : o.State)
        → IsPlain path
        → IsPlain other
        → Alike (o.read_file w (join work_dir (git_path other))) (
            o.read_file
              (o.mkdir_all (dir (join work_dir (git_path path))) w).1
              (join work_dir (git_path other)))
    pub writes_one :
        (work_dir path other raw : Text) (w : o.State)
        → IsPlain path
        → IsPlain other
        → join work_dir (git_path path) ≢ join work_dir (git_path other)
        → Alike (o.read_file w (join work_dir (git_path other))) (
            o.read_file
              (o.write_file (join work_dir (git_path path)) raw w).1
              (join work_dir (git_path other)))
    pub removes :
        (work_dir path : Text) (w : o.State)
        → IsPlain path
        → (o.git (codes "-C" ∷ work_dir ∷ codes "rm" ∷ git_path path ∷ []) w).0.failed ≡ false
        → (x : Error) × (o.read_file
              (o.git (codes "-C" ∷ work_dir ∷ codes "rm" ∷ git_path path ∷ []) w).1
              (join work_dir (git_path path))
            ≡ err x)
    pub removes_one :
        (work_dir path other : Text) (w : o.State)
        → IsPlain path
        → IsPlain other
        → join work_dir (git_path path) ≢ join work_dir (git_path other)
        → Alike (o.read_file w (join work_dir (git_path other))) (
            o.read_file
              (o.git (codes "-C" ∷ work_dir ∷ codes "rm" ∷ git_path path ∷ []) w).1
              (join work_dir (git_path other)))

  Alike-trans : (a b c : Result Text) → Alike a b → Alike b c → Alike a c
  Alike-trans a b c h k = record {
    same = λ raw e. k.same raw (h.same raw e);
    missing = λ x e. let (y, e') = h.missing x e in k.missing y e';
  }

  Alike-of : (a b : Result Text) → b ≡ a → Alike a b
  Alike-of a b e = record { same = λ raw h. e ∙ h; missing = λ x h. (x, e ∙ h) }

  -- The file of a document.
  abbrev pub file_of : Text → Sys o → Text
  file_of path s = join s.store.work_dir (git_path path)

  -- The settings that reading a document needs are the same, and the files of the plain paths that are
  -- not that file are as before.
  pub record KeepsOthers (file : Text) (s t : Sys o) : Type 0 where
    pub work_dir : t.store.work_dir ≡ s.store.work_dir
    pub keyring : t.store.keyring ≡ s.store.keyring
    pub ready : t.store.ready ≡ s.store.ready
    pub others :
        (q : Text)
        → IsPlain q
        → file ≢ file_of q s
        → Alike (o.read_file s.outside (file_of q s)) (o.read_file t.outside (file_of q s))

  KeepsOthers-Kept :
      (file : Text) (s t u : Sys o) → KeepsOthers file s t → Kept o t u → KeepsOthers file s u
  KeepsOthers-Kept file s t u h k = record {
    work_dir = k.work_dir ∙ h.work_dir;
    keyring = k.keyring ∙ h.keyring;
    ready = k.ready ∙ h.ready;
    others = λ q plain apart.
        Alike-trans _ _ _ (h.others q plain apart)
          (Alike-of _ _ (k.files (join s.store.work_dir (git_path q))));
  }

  module _ (w : IsWorktree o) (f : IsFramed) where
    write_document-others :
        (d path raw : Text) (s t : Sys o) (b : Unit {0}) (q : Text)
        → IsPlain path
        → IsPlain q
        → join d (git_path path) ≢ join d (git_path q)
        → write_document o (join d (git_path path)) raw s ≡ some (ok b, t)
        → Alike
            (o.read_file s.outside (join d (git_path q)))
            (o.read_file t.outside (join d (git_path q)))
    unfolding write_document
    write_document-others d path raw s t b q plain_path plain apart h =
        let abs = join d (git_path path) in
        let file = join d (git_path q) in
        let (_, u, first, second) =
          >>=-eq-ok
            (λ s.
              let (r, v) = o.mkdir_all (dir abs) s.outside in some (r, record s { outside = v }))
            (λ _ s.
              let (r, v) = o.write_file abs raw s.outside in some (r, record s { outside = v }))
            s h in
        let made : (o.mkdir_all (dir abs) s.outside).1 ≡ u.outside = cc in
        let written : (o.write_file abs raw u.outside).1 ≡ t.outside = cc in
        subst (λ v. Alike (o.read_file s.outside file) (o.read_file v file)) written
          (Alike-trans _ _ _
            (subst (λ v. Alike (o.read_file s.outside file) (o.read_file v file)) made
              (f.makes_directories d path q s.outside plain_path plain))
            (f.writes_one d path q raw u.outside plain_path plain apart))

    pub save-KeepsOthers :
        (path raw : Text) (s t : Sys o) (b : Unit {0})
        → IsPlain path
        → save o path raw s ≡ some (ok b, t)
        → KeepsOthers (file_of path s) s t
    save-KeepsOthers path raw s t b plain_path h =
        let (u, writing, kept) = save-split o w path raw s t b h in
        let (same, _) = Kept-of_write o w (file_of path s) raw s u tt writing in
        KeepsOthers-Kept (file_of path s) s u t
          (record {
            work_dir = ap (λ g. g.work_dir) same;
            keyring = ap (λ g. g.keyring) same;
            ready = ap (λ g. g.ready) same;
            others = λ q plain apart.
                write_document-others s.store.work_dir path raw s u tt q plain_path plain apart
                  writing;
          })
          kept

    -- A command that must not fail did not.
    must_git-ok :
        (what : Text) (args : List Text) (s t : Sys o) (b : Unit {0})
        → must_git o what none args s ≡ some (ok b, t)
        → ((o.git (codes "-C" ∷ s.store.work_dir ∷ args) s.outside).0.failed ≡ false)
          × (record s { outside = (o.git (codes "-C" ∷ s.store.work_dir ∷ args) s.outside).1 } ≡ t)
    unfolding must_git run_git
    must_git-ok what args s t b h =
        elim (Bool-cases (o.git (codes "-C" ∷ s.store.work_dir ∷ args) s.outside).0.failed) [
          | inl bad ↦ (let h' = rw (bad, must_git) at h in cc)
          | inr fine ↦ (let h' = rw (fine, must_git) at h in (fine, cc))
        ]

    -- `git rm` that did not fail.
    record Removed (path : Text) (s t : Sys o) : Type 0 where
      gone : (x : Error) × (o.read_file t.outside (file_of path s) ≡ err x)
      keeps : KeepsOthers (file_of path s) s t

    must_git-Removed :
        (path : Text) (s t : Sys o) (b : Unit {0})
        → IsPlain path
        → must_git o (codes "git rm") none (codes "rm" ∷ git_path path ∷ []) s ≡ some (ok b, t)
        → Removed path s t
    must_git-Removed path s t b plain_path h =
        let (fine, e) = must_git-ok (codes "git rm") (codes "rm" ∷ git_path path ∷ []) s t b h in
        subst (Removed path s) e (record {
          gone = f.removes s.store.work_dir path s.outside plain_path fine;
          keeps = record {
            work_dir = refl;
            keyring = refl;
            ready = refl;
            others = λ q plain apart.
                f.removes_one s.store.work_dir path q s.outside plain_path plain apart;
          };
        })

    Removed-Kept : (path : Text) (s t u : Sys o) → Kept o s t → Removed path t u → Removed path s u
    Removed-Kept path s t u k r =
        let same : file_of path t ≡ file_of path s = ap (λ d. join d (git_path path)) k.work_dir in
        record {
          gone = subst (λ p. (x : Error) × (o.read_file u.outside p ≡ err x)) same r.gone;
          keeps = record {
            work_dir = r.keeps.work_dir ∙ k.work_dir;
            keyring = r.keeps.keyring ∙ k.keyring;
            ready = r.keeps.ready ∙ k.ready;
            others = λ q plain apart.
                let at : file_of q t ≡ file_of q s = ap (λ d. join d (git_path q)) k.work_dir in
                let apart' : file_of path t ≢ file_of q t = λ e. apart (sym same ∙ e ∙ at) in
                subst (λ p. Alike (o.read_file s.outside p) (o.read_file u.outside p)) at
                  (Alike-trans _ _ _ (Alike-of _ _ (k.files (file_of q t)))
                    (r.keeps.others q plain apart'));
          };
        }

    -- A Delete that returns no error: its file was checked, and is gone.
    pub record Deleted (path : Text) (expected : Int64) (s t : Sys o) : Type 0 where
      pub checked : check_delete o (read_file_at_head o (git_path path) s) expected ≡ ok tt
      pub gone : (x : Error) × (o.read_file t.outside (file_of path s) ≡ err x)
      pub keeps : KeepsOthers (file_of path s) s t

    pub delete-Deleted :
        (path : Text) (expected : Int64) (s t : Sys o) (b : Unit {0})
        → IsPlain path
        → delete o path expected s ≡ some (ok b, t)
        → Deleted path expected s t
    unfolding delete
    delete-Deleted path expected s t b plain_path h =
        let (_, s1, checking, h1) =
          >>=-eq-ok (λ s. some (check_delete o (read_file_at_head o (git_path path) s) expected, s))
            _ s h in
        let (_, s2, remote, h2) = >>=-eq-ok (refresh_remote o) _ s1 h1 in
        let (s3, removing, published) =
          publish_commit-split o w (codes "rm" ∷ git_path path ∷ []) (codes "git rm") _ none s2 t b
            h2 in
        let e1 : s ≡ s1 = cc in
        let remote_kept : Kept o s s2 =
          subst (λ u. Kept o u s2) (sym e1) ((Keeps-refresh_remote o w).at s1 s2 _ remote) in
        let r =
          Removed-Kept path s s2 s3 remote_kept
            (must_git-Removed path s2 s3 tt plain_path removing) in
        let (x, gone) = r.gone in
        record {
          checked = cc;
          gone = (x, published.files (file_of path s) ∙ gone);
          keeps = KeepsOthers-Kept (file_of path s) s s3 t r.keeps published;
        }

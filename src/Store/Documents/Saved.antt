-- ===== src/Store/Documents/Saved.antt =====
-- What a successful Apply or Delete leaves in the worktree.
use mathlib.Core.Path.{subst}
use sealhub.Base.{◌≡◌, refl, sym, none, some, [], ◌∷◌, ap, ◌∙◌, inl}
use sealhub.Base.Text.{Text, codes}
use sealhub.Base.Result.{ok}
use sealhub.Base.Action.{>>=-eq-ok}
use sealhub.Base.FilePath.{join, dir}
use sealhub.Document.{git_path}
use sealhub.Store.Git.{Outside, Sys, read_file_at_head}
use sealhub.Store.Documents.{refresh_remote, write_document, save}
use sealhub.Store.Documents.Kept.{
  IsWorktree, Kept, Kept-trans, Keeps-must_git, Keeps-refresh_remote, publish_commit-split,
}

module _ (o : Outside) where
  module _ (w : IsWorktree o) where
    pub Kept-of_write :
        (abs raw : Text) (s t : Sys o) (b : Unit {0})
        → write_document o abs raw s ≡ some (ok b, t)
        → (t.store ≡ s.store) × (o.read_file t.outside abs ≡ ok raw)
    unfolding write_document
    Kept-of_write abs raw s t b h =
        let (_, u, first, second) =
          >>=-eq-ok
            (λ s.
              let (r, v) = o.mkdir_all (dir abs) s.outside in some (r, record s { outside = v }))
            (λ _ s.
              let (r, v) = o.write_file abs raw s.outside in some (r, record s { outside = v }))
            s h in
        let written : (o.write_file abs raw u.outside).0 ≡ ok tt = cc in
        let outside : (o.write_file abs raw u.outside).1 ≡ t.outside = cc in
        let made : u.store ≡ s.store = cc in
        let same : t.store ≡ u.store = cc in
        (
          same ∙ made,
          subst (λ v. o.read_file v abs ≡ ok raw) outside
              (w.reads_written abs raw u.outside written),
        )

    -- A save writes the file, and its git commands leave the files alone.
    pub save-split :
        (path raw : Text) (s t : Sys o) (b : Unit {0})
        → save o path raw s ≡ some (ok b, t)
        → (u : Sys o) × (write_document o (join s.store.work_dir (git_path path)) raw s
            ≡ some (ok tt, u))
          × Kept o u t
    unfolding save
    save-split path raw s t b h =
        let abs = join s.store.work_dir (git_path path) in
        let (_, u, writing, h1) = >>=-eq-ok (write_document o abs raw) _ s h in
        let (_, v, remote, h2) = >>=-eq-ok (refresh_remote o) _ u h1 in
        let (x, adding, published) =
          publish_commit-split o w (codes "add" ∷ git_path path ∷ []) (codes "git add") _
            (some (codes "nothing to commit")) v t b h2 in
        let added : Kept o v x =
          (Keeps-must_git o w (codes "git add") none (codes "add") (git_path path ∷ [])
              (inl refl)).at
            v x tt adding in
        (
          u,
          writing,
          Kept-trans o u v t ((Keeps-refresh_remote o w).at u v _ remote)
              (Kept-trans o v x t added published),
        )

    -- After a save, the file is there and the settings are the same.
    pub save-reads :
        (path raw : Text) (s t : Sys o) (b : Unit {0})
        → save o path raw s ≡ some (ok b, t)
        → (read_file_at_head o (git_path path) t ≡ ok raw)
          × (t.store.keyring ≡ s.store.keyring)
          × (t.store.ready ≡ s.store.ready)
    unfolding read_file_at_head
    save-reads path raw s t b h =
        let abs = join s.store.work_dir (git_path path) in
        let (u, writing, kept) = save-split path raw s t b h in
        let (same, there) = Kept-of_write abs raw s u _ writing in
        let where_to : t.store.work_dir ≡ s.store.work_dir =
          kept.work_dir ∙ ap (λ g. g.work_dir) same in
        (
          subst (λ d. o.read_file t.outside (join d (git_path path)) ≡ ok raw) (sym where_to)
              (kept.files abs ∙ there),
          kept.keyring ∙ ap (λ g. g.keyring) same,
          kept.ready ∙ ap (λ g. g.ready) same,
        )

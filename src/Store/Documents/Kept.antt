-- ===== src/Store/Documents/Kept.antt =====
-- What the commands around a write leave alone: the files of the worktree, and the store's settings.
use mathlib.Core.Path.{subst}
use sealhub.Base.{
  ◌≡◌, refl, sym, Bool, true, false, not, ◌&&◌, Option, none, some, List, [], ◌∷◌, ◌++◌, ◌∙◌, Any,
  inl, inr, Bool-cases, Option-cases, if◌then◌else◌,
}
use sealhub.Base.Text.{Text, codes, ◌==◌, contains}
use sealhub.Base.Result.{Result, ok, Result-cases, Error, git_failed}
use sealhub.Base.Action.{Act, ◌>>=◌, >>=-eq-ok, pure, fail, gets}
use sealhub.Changes.History.{publish_all}
use sealhub.Store.Index.{DocEntry, Table, new_index, snapshot}
use sealhub.Store.Git.{
  Outside, TreeFile, Sys, index_files, upserts, deletes, serve_files, refresh_index_locked,
}
use sealhub.Store.Documents.{
  run_git, set_remote_url, strip_token, add_token, pat, refresh_remote, must_git, publish_commit,
}

-- The git commands that change the index of git, its history, the remote or its URL, and no file of
-- the worktree.
abbrev pub bookkeeping : List Text
bookkeeping = codes "add" ∷ codes "commit" ∷ codes "push" ∷ codes "remote" ∷ []

module _ (o : Outside) where
  -- What is relied on of the file system and of git: a file that was written is read back, and the
  -- commands above leave the files of the worktree as they are.
  pub record IsWorktree : Type 0 where
    pub reads_written :
        (p raw : Text) (w : o.State)
        → (o.write_file p raw w).0 ≡ ok tt
        → o.read_file (o.write_file p raw w).1 p ≡ ok raw
    pub leaves_files :
        (where_to cmd p : Text) (args : List Text) (w : o.State)
        → Any (λ c. cmd ≡ c) bookkeeping
        → o.read_file (o.git (codes "-C" ∷ where_to ∷ cmd ∷ args) w).1 p ≡ o.read_file w p

  pub record Kept (s t : Sys o) : Type 0 where
    pub work_dir : t.store.work_dir ≡ s.store.work_dir
    pub keyring : t.store.keyring ≡ s.store.keyring
    pub ready : t.store.ready ≡ s.store.ready
    pub files : (p : Text) → o.read_file t.outside p ≡ o.read_file s.outside p

  pub Kept-refl : (s : Sys o) → Kept s s
  Kept-refl s = record { work_dir = refl; keyring = refl; ready = refl; files = λ p. refl }

  pub Kept-trans : (s t u : Sys o) → Kept s t → Kept t u → Kept s u
  Kept-trans s t u h k = record {
    work_dir = k.work_dir ∙ h.work_dir;
    keyring = k.keyring ∙ h.keyring;
    ready = k.ready ∙ h.ready;
    files = λ p. k.files p ∙ h.files p;
  }

  -- An action that leaves them alone where it returns a value.
  pub record Keeps {A : Type 0} (m : Act (Sys o) A) : Type 0 where
    pub at : (s t : Sys o) (a : A) → m s ≡ some (ok a, t) → Kept s t

  Keeps-bind :
      {A B : Type 0} (m : Act (Sys o) A) (f : A → Act (Sys o) B)
      → Keeps m
      → ((a : A) → Keeps (f a))
      → Keeps (m >>= f)
  Keeps-bind m f km kf = record {
    at = λ s t b h.
        let (a, u, first, later) = >>=-eq-ok m f s h in
        Kept-trans s u t (km.at s u a first) ((kf a).at u t b later);
  }

  -- The state in which a value is returned is known.
  Kept-returned :
      {A : Type 0} (s s' t : Sys o) (a b : A)
      → Kept s s'
      → ◌≡◌ {A = Option (Result A × Sys o)} (some (ok a, s')) (some (ok b, t))
      → Kept s t
  Kept-returned s s' t a b k h = let e : s' ≡ t = cc in subst (Kept s) e k

  Keeps-gets : {A : Type 0} (f : Sys o → A) → Keeps (gets f)
  Keeps-gets f = record { at = λ s t a h. Kept-returned s s t (f s) a (Kept-refl s) h }

  Keeps-pure : {A : Type 0} (a : A) → Keeps (pure a)
  Keeps-pure a = record { at = λ s t b h. Kept-returned s s t a b (Kept-refl s) h }

  Keeps-fail : {A : Type 0} (x : Error) → Keeps (fail {A = A} x)
  Keeps-fail x = record { at = λ s t b h. cc }

  -- Only the index, the commit and the broker change.
  Keeps-serve_files :
      (sha : Text) (files : List TreeFile) (old : Table DocEntry)
      → Keeps (serve_files o sha files old)
  unfolding serve_files
  Keeps-serve_files sha files old = record {
    at = λ s t b h.
        let new = snapshot (index_files o files new_index) in
        elim (Option-cases (publish_all (upserts old new ++ deletes old new) s.store.broker)) [
          | inl e ↦ (let h' = rw (e, serve_files) at h in cc)
          | inr (br, e) ↦
              (let h' = rw (e, serve_files) at h in
                Kept-returned s _ t tt b
                  (record { work_dir = refl; keyring = refl; ready = refl; files = λ p. refl }) h')
        ];
  }

  Keeps-refresh_index_locked : (initial : Bool) → Keeps (refresh_index_locked o initial)
  unfolding refresh_index_locked
  Keeps-refresh_index_locked initial = record {
    at = λ s t b h. elim (Result-cases (o.head s.outside)) [
      | inr (x, e) ↦ (let h' = rw (e, refresh_index_locked) at h in cc)
      | inl (sha, e) ↦ elim (Bool-cases (sha == s.store.served_sha && not initial)) [
        | inl same ↦
            (let h' = rw (e, same, refresh_index_locked) at h in
              Kept-returned s s t tt b (Kept-refl s) h')
        | inr other ↦ elim (Result-cases (o.tree_files s.outside sha)) [
          | inr (x, k) ↦ (let h' = rw (e, other, k, refresh_index_locked) at h in cc)
          | inl (files, k) ↦
              (let h' = rw (e, other, k, refresh_index_locked) at h in
                let u = record s { store = record s.store { index = new_index } } in
                Kept-trans s u t
                  (record { work_dir = refl; keyring = refl; ready = refl; files = λ p. refl })
                  ((Keeps-serve_files sha files (snapshot s.store.index)).at u t b h'))
        ]
      ]
    ];
  }

  module _ (w : IsWorktree) where
    Keeps-run_git :
        (cmd : Text) (args : List Text)
        → Any (λ c. cmd ≡ c) bookkeeping
        → Keeps (run_git o (cmd ∷ args))
    unfolding run_git
    Keeps-run_git cmd args known = record {
      at = λ s t b h.
          Kept-returned s _ t _ b
            (record {
              work_dir = refl;
              keyring = refl;
              ready = refl;
              files = λ p. w.leaves_files s.store.work_dir cmd p args s.outside known;
            })
            h;
    }

    pub Keeps-must_git :
        (what : Text) (excuse : Option Text) (cmd : Text) (args : List Text)
        → Any (λ c. cmd ≡ c) bookkeeping
        → Keeps (must_git o what excuse (cmd ∷ args))
    unfolding must_git
    Keeps-must_git what excuse cmd args known =
        Keeps-bind (run_git o (cmd ∷ args))
          (λ out.
            if out.failed && not (elim excuse [ none ↦ false | some t ↦ contains out.output t ])
            then fail (git_failed what out.output)
            else pure tt)
          (Keeps-run_git cmd args known)
          (λ out.
            elim (Bool-cases
              (out.failed && not (elim excuse [ none ↦ false | some t ↦ contains out.output t ]))) [
                | inl e ↦ rw e (Keeps-fail _)
                | inr e ↦ rw e (Keeps-pure tt)
              ])

    abbrev with_ssh : Bool → Sys o → Sys o
    with_ssh b s = record s { store = record s.store { use_ssh = b } }

    Kept-with_ssh : (b : Bool) (s : Sys o) → Kept s (with_ssh b s)
    Kept-with_ssh b s = record { work_dir = refl; keyring = refl; ready = refl; files = λ p. refl }

    Keeps-set_remote_url : (token : Text) → Keeps (set_remote_url o token)
    unfolding set_remote_url
    Keeps-set_remote_url token = record {
      at = λ s t b h. elim (Bool-cases s.store.use_ssh) [
        | inl e ↦
            Kept-returned s (with_ssh true s) t tt b (Kept-with_ssh true s)
              (rw (e, set_remote_url) at h)
        | inr e ↦ elim (Option-cases (o.remote_url s.outside)) [
          | inl k ↦ Kept-returned s s t tt b (Kept-refl s) (rw (e, k, set_remote_url) at h)
          | inr (url, k) ↦ elim (Option-cases (strip_token url)) [
            | inl z ↦ (let h' = rw (e, k, z, set_remote_url) at h in cc)
            | inr (bare, z) ↦
                ((Keeps-bind _ (λ _. pure tt)
                    (Keeps-run_git (codes "remote")
                      (codes "set-url" ∷ codes "origin" ∷ add_token token bare ∷ [])
                      (inr (inr (inr (inl refl)))))
                    (λ _. Keeps-pure tt)).at
                  s t b (rw (e, k, z, set_remote_url) at h))
          ]
        ]
      ];
    }

    pub Keeps-refresh_remote : Keeps (refresh_remote o)
    unfolding refresh_remote
    Keeps-refresh_remote = record {
      at = λ s t b h. elim (Bool-cases s.store.use_ssh) [
        | inl e ↦
            Kept-returned s (with_ssh true s) t tt b (Kept-with_ssh true s)
              (rw (e, refresh_remote) at h)
        | inr e ↦
            (let h' = rw (e, refresh_remote) at h in
              let (token, u, first, later) =
                >>=-eq-ok (λ s. some (pat o s, s)) (set_remote_url o) (with_ssh false s) h' in
              let same : with_ssh false s ≡ u = cc in
              Kept-trans s (with_ssh false s) t (Kept-with_ssh false s)
                (subst (λ v. Kept v t) (sym same) ((Keeps-set_remote_url token).at u t b later)))
      ];
    }

    -- What follows the first command.
    pub publish_commit-split :
        (first : List Text) (what msg : Text) (excuse : Option Text) (s t : Sys o) (b : Unit {0})
        → publish_commit o first what excuse msg s ≡ some (ok b, t)
        → (u : Sys o) × (must_git o what none first s ≡ some (ok tt, u)) × Kept u t
    unfolding publish_commit
    publish_commit-split first what msg excuse s t b h =
        let (_, u, did, later) = >>=-eq-ok (must_git o what none first) _ s h in
        (
          u,
          did,
          (Keeps-bind _ _
                (Keeps-must_git (codes "git commit") excuse (codes "commit") _ (inr (inl refl)))
                λ _. Keeps-bind _ _ (Keeps-gets (λ s. s.store.branch)) λ branch.
                  Keeps-bind _ _
                    (Keeps-must_git (codes "git push") none (codes "push") _ (inr (inr (inl refl))))
                    λ _. Keeps-refresh_index_locked false).at
              u t b later,
        )

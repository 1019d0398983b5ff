-- ===== src/Store/Stable.antt =====
-- What holds of a store through every call: a property that each call outside and each refresh of the
-- index keeps is kept by the methods of the store, whether they return a value or an error.
use mathlib.Core.Path.{subst}
use sealhub.Base.{
  ◌≡◌, refl, ap, Bool, true, false, not, ◌&&◌, Option, none, some, List, [], ◌∷◌, ◌++◌, inl, inr,
  Bool-cases, Option-cases, if◌then◌else◌,
}
use sealhub.Base.Text.{Text, codes, contains}
use sealhub.Base.FilePath.{join, dir}
use sealhub.Base.Int.{Int64}
use sealhub.Base.Result.{Result, ok, err, git_failed}
use sealhub.Base.Action.{Act, ◌>>=◌, continue, pure, fail, lift, gets}
use sealhub.Crypto.{encrypt}
use sealhub.Document.{git_path, marshal_envelope}
use sealhub.Store.Git.{Outside, Sys, refresh_index_locked, read_file_at_head}
use sealhub.Store.Documents.{
  run_git, set_remote_url, strip_token, add_token, pat, refresh_remote, must_git, poll, up_to_date,
  publish_commit, write_document, save, stored_body, shown, new_envelope, apply_raw, apply_body,
  apply_version, check_apply, next_version, apply, check_delete, delete,
}

module _ (o : Outside) (P : Sys o → Type 0) where
  pub record IsStable : Type 0 where
    pub git :
        (args : List Text) (s : Sys o) → P s → P (record s { outside = (o.git args s.outside).1 })
    pub mkdir_all :
        (p : Text) (s : Sys o) → P s → P (record s { outside = (o.mkdir_all p s.outside).1 })
    pub write_file :
        (p raw : Text) (s : Sys o)
        → P s
        → P (record s { outside = (o.write_file p raw s.outside).1 })
    pub refresh :
        (initial : Bool) (s t : Sys o) (r : Result (Unit {0}))
        → refresh_index_locked o initial s ≡ some (r, t)
        → P s
        → P t

  -- An action that keeps the property, however it returns.
  pub record Stays {A : Type 0} (m : Act (Sys o) A) : Type 0 where
    pub at : (s t : Sys o) (r : Result A) → P s → m s ≡ some (r, t) → P t

  -- The state in which it returns is known.
  pub returned :
      {A : Type 0} (a b : Result A) (s t : Sys o)
      → P s
      → ◌≡◌ {A = Option (Result A × Sys o)} (some (a, s)) (some (b, t))
      → P t
  returned a b s t p h = let e : s ≡ t = cc in subst P e p

  pub Stays-bind :
      {A B : Type 0} (m : Act (Sys o) A) (f : A → Act (Sys o) B)
      → Stays m
      → ((a : A) → Stays (f a))
      → Stays (m >>= f)
  Stays-bind {A} {B} m f km kf = record { at = λ s t b p h. go s t b p (m s) refl h }
    where
      go :
          (s t : Sys o) (b : Result B)
          → P s
          → (r : Option (Result A × Sys o)) → m s ≡ r
          → ◌≡◌ {A = Option (Result B × Sys o)}
              (elim r [ none ↦ none | some q ↦ continue f q ])
              (some (b, t))
          → P t
      go s t b p none e h = cc
      go s t b p (some (ok a, u)) e h = (kf a).at u t b (km.at s u (ok a) p e) h
      go s t b p (some (err x, u)) e h = returned (err x) b u t (km.at s u (err x) p e) h

  Stays-lift : {A : Type 0} (r : Result A) → Stays (lift r)
  Stays-lift r = record { at = λ s t a p h. returned r a s t p h }

  Stays-gets : {A : Type 0} (f : Sys o → A) → Stays (gets f)
  Stays-gets f = record { at = λ s t a p h. returned (ok (f s)) a s t p h }

  -- A value that is read of the state.
  Stays-look : {A : Type 0} (f : Sys o → Result A) → Stays (λ s. some (f s, s))
  Stays-look f = record { at = λ s t a p h. returned (f s) a s t p h }

  module _ (k : IsStable) where
    Stays-run_git : (args : List Text) → Stays (run_git o args)
    unfolding run_git
    Stays-run_git args = record { at = λ s t r p h. returned _ r _ t (k.git _ s p) h }

    pub Stays-must_git :
        (what : Text) (excuse : Option Text) (args : List Text)
        → Stays (must_git o what excuse args)
    unfolding must_git
    Stays-must_git what excuse args =
        Stays-bind (run_git o args)
          (λ out.
            if out.failed && not (elim excuse [ none ↦ false | some t ↦ contains out.output t ])
            then fail (git_failed what out.output)
            else pure tt)
          (Stays-run_git args)
          (λ out.
            elim (Bool-cases
              (out.failed && not (elim excuse [ none ↦ false | some t ↦ contains out.output t ]))) [
                | inl e ↦ rw e (Stays-lift (err (git_failed what out.output)))
                | inr e ↦ rw e (Stays-lift (ok tt))
              ])

    abbrev with_ssh : Bool → Sys o → Sys o
    with_ssh b s = record s { store = record s.store { use_ssh = b } }

    -- A setting that is known.
    known_ssh : (b : Bool) (s : Sys o) → s.store.use_ssh ≡ b → P s → P (with_ssh b s)
    known_ssh b s e p = subst P (ap (λ c. with_ssh c s) e) p

    Stays-set_remote_url : (token : Text) → Stays (set_remote_url o token)
    unfolding set_remote_url
    Stays-set_remote_url token = record {
      at = λ s t r p h. elim (Bool-cases s.store.use_ssh) [
        | inl ssh ↦
            returned (ok tt) r (with_ssh true s) t (known_ssh true s ssh p)
              (rw (ssh, set_remote_url) at h)
        | inr https ↦ elim (Option-cases (o.remote_url s.outside)) [
          | inl e ↦ returned (ok tt) r s t p (rw (https, e, set_remote_url) at h)
          | inr (url, e) ↦ elim (Option-cases (strip_token url)) [
            | inl z ↦ (let h' = rw (https, e, z, set_remote_url) at h in cc)
            | inr (bare, z) ↦
                (Stays-bind
                    (run_git o (
                      codes "remote"
                      ∷ codes "set-url"
                      ∷ codes "origin"
                      ∷ add_token token bare
                      ∷ []))
                    (λ _. pure tt) (Stays-run_git _) (λ _. Stays-lift (ok tt))).at
                  s t r p (rw (https, e, z, set_remote_url) at h)
          ]
        ]
      ];
    }

    pub Stays-refresh_remote : Stays (refresh_remote o)
    unfolding refresh_remote
    Stays-refresh_remote = record {
      at = λ s t r p h. elim (Bool-cases s.store.use_ssh) [
        | inl ssh ↦
            returned (ok tt) r (with_ssh true s) t (known_ssh true s ssh p)
              (rw (ssh, refresh_remote) at h)
        | inr https ↦
            (Stays-bind (λ u. some (pat o u, u)) (set_remote_url o) (Stays-look (pat o))
                Stays-set_remote_url).at
              (with_ssh false s) t r (known_ssh false s https p) (rw (https, refresh_remote) at h)
      ];
    }

    Stays-refresh : (initial : Bool) → Stays (refresh_index_locked o initial)
    Stays-refresh initial = record { at = λ s t r p h. k.refresh initial s t r h p }

    pub poll-Stays : Stays (poll o)
    unfolding poll
    poll-Stays = Stays-bind (refresh_remote o) _ Stays-refresh_remote λ _.
        Stays-bind (gets (λ s. s.store.branch)) _ (Stays-gets _) λ branch.
          Stays-bind _ _
            (Stays-must_git (codes "fetch") (some (up_to_date o))
              (codes "fetch" ∷ codes "origin" ∷ branch ∷ []))
            λ _.
              Stays-bind _ _
                (Stays-must_git (codes "merge") (some (up_to_date o))
                  (codes "merge" ∷ codes "--ff-only" ∷ codes "FETCH_HEAD" ∷ []))
                λ _. Stays-refresh false

    Stays-publish_commit :
        (first : List Text) (what : Text) (excuse : Option Text) (msg : Text)
        → Stays (publish_commit o first what excuse msg)
    unfolding publish_commit
    Stays-publish_commit first what excuse msg =
        Stays-bind (must_git o what none first) _ (Stays-must_git what none first) λ _.
          Stays-bind (must_git o (codes "git commit") excuse _) _
            (Stays-must_git (codes "git commit") excuse _)
            λ _. Stays-bind (gets (λ s. s.store.branch)) _ (Stays-gets _) λ branch.
              Stays-bind (must_git o (codes "git push") none _) _
                (Stays-must_git (codes "git push") none _) λ _. Stays-refresh false

    -- os.MkdirAll and os.WriteFile.
    Stays-mkdir_all :
        (p : Text)
        → Stays (λ s. let (r, w) = o.mkdir_all p s.outside in some (r, record s { outside = w }))
    Stays-mkdir_all p = record { at = λ s t r h e. returned _ r _ t (k.mkdir_all p s h) e }

    Stays-write_file :
        (p raw : Text)
        → Stays
            (λ s. let (r, w) = o.write_file p raw s.outside in some (r, record s { outside = w }))
    Stays-write_file p raw = record {
      at = λ s t r h e. returned _ r _ t (k.write_file p raw s h) e;
    }

    Stays-save : (path raw : Text) → Stays (save o path raw)
    unfolding save write_document
    Stays-save path raw =
        Stays-bind (gets (λ s. join s.store.work_dir (git_path path))) _ (Stays-gets _) λ abs.
          Stays-bind (write_document o abs raw) _
            (Stays-bind _ _ (Stays-mkdir_all (dir abs)) (λ _. Stays-write_file abs raw))
            λ _. Stays-bind (refresh_remote o) _ Stays-refresh_remote λ _.
              Stays-publish_commit (codes "add" ∷ git_path path ∷ []) (codes "git add")
                (some (codes "nothing to commit")) (codes "sealhub: apply " ++ path)

    Stays-stored_body : (enc : Bool) (body : Text) → Stays (stored_body o enc body)
    unfolding stored_body
    Stays-stored_body true body = record {
      at = λ s t r p h.
          elim (Option-cases (encrypt o.cipher (o.draw s.outside) s.store.keyring body)) [
            | inl z ↦ (let h' = rw (z, stored_body) at h in cc)
            | inr (b, z) ↦ returned b r s t p (rw (z, stored_body) at h)
          ];
    }
    Stays-stored_body false body = Stays-lift (ok body)

    pub apply-Stays :
        (path body content_type : Text) (enc : Bool) (expected : Int64) (owner : Text)
        → Stays (apply o path body content_type enc expected owner)
    unfolding apply apply_version apply_body apply_raw check_apply
    apply-Stays path body content_type enc expected owner =
        Stays-bind (check_apply o path expected) _
          (Stays-look (λ s. next_version o (read_file_at_head o (git_path path) s) expected))
          λ version. Stays-bind (stored_body o enc body) _ (Stays-stored_body enc body) λ doc_body.
            let (text, env) =
              marshal_envelope o.yaml (new_envelope version content_type enc owner doc_body) in
            Stays-bind (lift text) _ (Stays-lift text) λ raw.
              Stays-bind (save o path raw) _ (Stays-save path raw)
                λ _. Stays-lift (ok (shown enc body env))

    pub delete-Stays : (path : Text) (expected : Int64) → Stays (delete o path expected)
    unfolding delete
    delete-Stays path expected =
        Stays-bind (λ s. some (check_delete o (read_file_at_head o (git_path path) s) expected, s))
          _ (Stays-look _)
          λ _. Stays-bind (refresh_remote o) _ Stays-refresh_remote λ _.
            Stays-publish_commit (codes "rm" ∷ git_path path ∷ []) (codes "git rm") none
              (codes "sealhub: delete " ++ path)

-- ===== src/Store/Opening/Served.antt =====
-- What a store that was opened serves.
use mathlib.Core.Path.{subst}
use sealhub.Base.{
  ◌≡◌, refl, sym, ap, Bool, true, false, none, some, [], ◌∷◌, if◌then◌else◌, inl, inr,
}
use sealhub.Base.Text.{Text, codes}
use sealhub.Base.Result.{ok, Result-cases}
use sealhub.Base.Action.{Act, >>=-eq-ok, ◌>>◌}
use sealhub.Changes.Subscribers.{IsOpen}
use sealhub.Changes.Interleaving.{published-IsOpen}
use sealhub.Crypto.{KeyRing}
use sealhub.Store.Git.{Outside, GitStore, Sys, refresh_index_locked}
use sealhub.Store.Git.Cases.{refresh_index_locked-cases}
use sealhub.Store.Documents.{pat}
use sealhub.Store.Stable.{IsStable, Stays, Stays-bind, Stays-must_git, returned}
use sealhub.Store.Serving.{settings, IsCurrent}
use sealhub.Store.Opening.{
  Options, Opened, opened, not_exists, unopened, Repositories, new_git_store, ensure_git_identity,
  set_ready, start_store, make_local_path, clone_by_ssh, clone_by_token, open_as, open_repository,
  open_or_clone,
}

abbrev Settings : Type 0
Settings = Text × Text × Text × KeyRing × Bool × Bool × Text × Text

abbrev made_ready : Settings → Settings
made_ready (work_dir, branch, pat_file, keyring, _, use_ssh, commit_name, commit_email) =
    (work_dir, branch, pat_file, keyring, true, use_ssh, commit_name, commit_email)

module _ (o : Outside) where
  -- The settings are those of another store, and the subscribers are open.
  record IsUnchanged (g : GitStore) (s : Sys o) : Type 0 where
    same : settings s.store ≡ settings g
    subscribers : IsOpen s.store.broker

  IsUnchanged-IsStable : (g : GitStore) → IsStable o (IsUnchanged g)
  IsUnchanged-IsStable g = record {
    git = λ args s v. record { same = v.same; subscribers = v.subscribers };
    mkdir_all = λ p s v. record { same = v.same; subscribers = v.subscribers };
    write_file = λ p raw s v. record { same = v.same; subscribers = v.subscribers };
    refresh = λ initial s t r h v. elim (refresh_index_locked-cases o initial s t r h) [
      | inl (e, _) ↦ subst (IsUnchanged g) (sym e) v
      | inr (inl (e, _, _)) ↦
          subst (IsUnchanged g) (sym e) (record { same = v.same; subscribers = v.subscribers })
      | inr (inr (sha, files, br, k, _, e)) ↦ subst (IsUnchanged g) (sym e) (record {
        same = v.same;
        subscribers = published-IsOpen _ s.store.broker br k.told v.subscribers;
      })
    ];
  }

  -- An initial refresh that returns no error serves the commit at the head.
  refresh_index_locked-head :
      (s t : Sys o) (b : Unit {0})
      → refresh_index_locked o true s ≡ some (ok b, t)
      → (o.head t.outside ≡ ok t.store.served_sha) × IsCurrent o t
  refresh_index_locked-head s t b h = elim (refresh_index_locked-cases o true s t (ok b) h) [
    | inl (_, k) ↦ (let never = (k refl).0 in cc)
    | inr (inl (_, bad, _)) ↦ absurd (bad refl)
    | inr (inr (sha, files, br, k, _, e)) ↦
        subst (λ (u : Sys o). (o.head u.outside ≡ ok u.store.served_sha) × IsCurrent o u) (sym e)
          (k.at_head, (files, k.read, refl))
  ]

  ensure_git_identity-Stays : (g : GitStore) → Stays o (IsUnchanged g) (ensure_git_identity o)
  unfolding ensure_git_identity
  ensure_git_identity-Stays g = record {
    at = λ s t r v h.
        (Stays-bind o (IsUnchanged g) _ _
            (Stays-must_git o (IsUnchanged g) (IsUnchanged-IsStable g)
              (codes "git config user.name") none
              (codes "config" ∷ codes "user.name" ∷ s.store.commit_name ∷ []))
            (λ _.
              Stays-must_git o (IsUnchanged g) (IsUnchanged-IsStable g)
                (codes "git config user.email") none
                (codes "config" ∷ codes "user.email" ∷ s.store.commit_email ∷ []))).at
          s t r v h;
  }

  -- a store is unchanged wherever the state outside is.
  moved :
      (g : GitStore) (w : o.State) (s : Sys o)
      → IsUnchanged g s
      → IsUnchanged g (record s { outside = w })
  moved g w s v = record { same = v.same; subscribers = v.subscribers }

  module _ (g : Repositories o) (opt : Options) (st : GitStore) where
    make_local_path-Stays : Stays o (IsUnchanged st) (make_local_path o g opt)
    unfolding make_local_path
    make_local_path-Stays = record {
      at = λ s t r v h. returned o (IsUnchanged st) _ r _ t (moved st _ s v) h;
    }

    clone_by_ssh-Stays : Stays o (IsUnchanged st) (clone_by_ssh o g opt)
    unfolding clone_by_ssh
    clone_by_ssh-Stays = record {
      at = λ s t r v h. returned o (IsUnchanged st) _ r _ t (moved st _ s v) h;
    }

    clone_by_token-Stays : Stays o (IsUnchanged st) (clone_by_token o g opt)
    unfolding clone_by_token
    clone_by_token-Stays = record {
      at = λ s t r v h. elim (Result-cases (pat o s)) [
        | inr (x, e) ↦ returned o (IsUnchanged st) _ r s t v (rw (e, clone_by_token) at h)
        | inl (token, e) ↦
            returned o (IsUnchanged st) _ r _ t (moved st _ s v) (rw (e, clone_by_token) at h)
      ];
    }

    either :
        (b : Bool) (m n : Act (Sys o) (Unit {0}))
        → Stays o (IsUnchanged st) m
        → Stays o (IsUnchanged st) n
        → Stays o (IsUnchanged st) (if b then m else n)
    either true m n km kn = km
    either false m n km kn = kn

    open_as-Stays : (p : Opened) → Stays o (IsUnchanged st) (open_as o g opt p)
    unfolding open_as
    open_as-Stays opened = record { at = λ s t r v h. returned o (IsUnchanged st) _ r s t v h }
    open_as-Stays (unopened x) = record {
      at = λ s t r v h. returned o (IsUnchanged st) _ r s t v h;
    }
    open_as-Stays not_exists = record {
      at = λ s t r v h.
          (either s.store.use_ssh _ _ clone_by_ssh-Stays clone_by_token-Stays).at s t r v h;
    }

    open_repository-Stays : Stays o (IsUnchanged st) (open_repository o g opt)
    unfolding open_repository
    open_repository-Stays = record {
      at = λ s t r v h. (open_as-Stays (g.plain_open opt.local_path s.outside)).at s t r v h;
    }

  pub open_or_clone-Serves :
      (g : Repositories o) (opt : Options) (w : o.State) (s : Sys o) (b : Unit {0})
      → IsOpen (new_git_store opt).broker
      → open_or_clone o g opt w ≡ some (ok b, s)
      → (settings s.store ≡ settings (record (new_git_store opt) { ready = true }))
        × (o.head s.outside ≡ ok s.store.served_sha)
        × IsCurrent o s
        × IsOpen s.store.broker
  unfolding open_or_clone start_store
  open_or_clone-Serves g opt w s b v h =
      let st = new_git_store opt in
      let first : Sys o = record { store = st; outside = w } in
      let (_, s2, h2, last) =
        >>=-eq-ok (make_local_path o g opt >> open_repository o g opt) (λ _. start_store o) first
          h in
      let v2 =
        (Stays-bind o (IsUnchanged st) _ _ (make_local_path-Stays g opt st)
            (λ _. open_repository-Stays g opt st)).at
          first s2 _ (record { same = refl; subscribers = v }) h2 in
      let (_, s4, h4, ready) =
        >>=-eq-ok (ensure_git_identity o >> refresh_index_locked o true) (λ _. set_ready o) s2
          last in
      let (_, s3, identity, refreshing) =
        >>=-eq-ok (ensure_git_identity o) (λ _. refresh_index_locked o true) s2 h4 in
      let v3 = (ensure_git_identity-Stays st).at s2 s3 _ v2 identity in
      let v4 = (IsUnchanged-IsStable st).refresh true s3 s4 _ refreshing v3 in
      let (head, current) = refresh_index_locked-head s3 s4 _ refreshing in
      let done : record s4 { store = record s4.store { ready = true } } ≡ s = cc in
      subst
        (λ (t : Sys o).
          (settings t.store ≡ settings (record st { ready = true }))
          × (o.head t.outside ≡ ok t.store.served_sha)
          × IsCurrent o t
          × IsOpen t.store.broker)
        done (ap made_ready v4.same, head, current, v4.subscribers)

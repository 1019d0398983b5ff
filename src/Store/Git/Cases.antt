-- ===== src/Store/Git/Cases.antt =====
-- The ways in which refreshIndexLocked returns.
use sealhub.Base.{
  ◌≡◌, ◌⊎◌, refl, ◌∙◌, ap, Bool, true, false, not, ◌&&◌, some, List, ◌++◌, inl, inr, Bool-cases,
  Option-cases,
}
use sealhub.Base.Text.{Text, ◌==◌, eq_iff}
use sealhub.Base.Result.{Result, Error, ok, err, Result-cases}
use sealhub.Changes.{Broker}
use sealhub.Changes.History.{publish_all}
use sealhub.Store.Index.{new_index, snapshot}
use sealhub.Store.Git.{
  Outside, Sys, TreeFile, upserts, deletes, index_files, serve_files, refresh_index_locked,
}

both : (a b : Bool) → (a && not b) ≡ true → (a ≡ true) × (b ≡ false)
both true false h = (refl, refl)
both true true h = cc
both false b h = cc

module _ (o : Outside) where
  -- The store where the commit's files cannot be read.
  abbrev pub cleared : Sys o → Sys o
  cleared s = record s { store = record s.store { index = new_index } }

  -- The store that serves the files of a commit.
  abbrev pub serving : Text → List TreeFile → Broker → Sys o → Sys o
  serving sha files br s = record s {
    store = record s.store { index = index_files o files new_index; served_sha = sha; broker = br };
  }

  -- The commit at the head, with its files, and what the broker is after their events.
  pub record Reads (s : Sys o) (sha : Text) (files : List TreeFile) (br : Broker) : Type 0 where
    pub at_head : o.head s.outside ≡ ok sha
    pub read : o.tree_files s.outside sha ≡ ok files
    pub told :
        publish_all
          (upserts (snapshot s.store.index) (snapshot (index_files o files new_index))
            ++ deletes (snapshot s.store.index) (snapshot (index_files o files new_index)))
          s.store.broker
        ≡ some br

  -- The commit at the head has files that cannot be read.
  abbrev pub Unread : Sys o → Type 0
  Unread s =
      (sha : Text) × (x : Error) × (o.head s.outside ≡ ok sha)
      × (o.tree_files s.outside sha ≡ err x)

  -- What a refresh leaves: the store as it was, the store without an index and an error, or the store
  -- that serves the head.
  abbrev pub Refreshed : Bool → Sys o → Result (Unit {0}) → Sys o → Type 0
  Refreshed initial s r t =
      ((t ≡ s) × ((r ≡ ok tt) → (initial ≡ false) × (o.head s.outside ≡ ok s.store.served_sha)))
      ⊎ (((t ≡ cleared s) × ¬ (r ≡ ok tt) × Unread s)
          ⊎ ((sha : Text) × (files : List TreeFile) × (br : Broker) × Reads s sha files br
              × (r ≡ ok tt)
              × (t ≡ serving sha files br s)))

  pub refresh_index_locked-cases :
      (initial : Bool) (s t : Sys o) (r : Result (Unit {0}))
      → refresh_index_locked o initial s ≡ some (r, t)
      → Refreshed initial s r t
  unfolding refresh_index_locked serve_files
  refresh_index_locked-cases initial s t r h = elim (Result-cases (o.head s.outside)) [
    | inr (x, e) ↦ (let h' = rw (e, refresh_index_locked) at h in inl (cc, λ k. cc))
    | inl (sha, e) ↦ elim (Bool-cases (sha == s.store.served_sha && not initial)) [
      | inl same ↦
          (let h' = rw (e, same, refresh_index_locked) at h in
            let (equal, later) = both (sha == s.store.served_sha) initial same in
            let at : sha ≡ s.store.served_sha = (eq_iff sha s.store.served_sha).0 equal in
            inl (cc, λ k. (later, e ∙ ap ok at)))
      | inr other ↦ elim (Result-cases (o.tree_files s.outside sha)) [
        | inr (x, k) ↦
            (let h' = rw (e, other, k, refresh_index_locked) at h in
              inr (inl (cc, (λ z. cc), (sha, x, e, k))))
        | inl (files, k) ↦
            (let h' = rw (e, other, k, refresh_index_locked) at h in
              let old = snapshot s.store.index in
              let new = snapshot (index_files o files new_index) in
              elim (Option-cases
                (publish_all (upserts old new ++ deletes old new) s.store.broker)) [
                  | inl z ↦ (let h'' = rw (z, serve_files) at h' in cc)
                  | inr (br, z) ↦
                      (let h'' = rw (z, serve_files) at h' in
                        inr (
                          inr (sha, files, br, record { at_head = e; read = k; told = z }, cc, cc)))
                ])
      ]
    ]
  ]

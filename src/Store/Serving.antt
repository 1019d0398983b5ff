-- ===== src/Store/Serving.antt =====
-- What a store serves: the settings that it was opened with, subscribers that are open, and the index
-- of the commit that it remembers.
use mathlib.Core.Path.{subst}
use sealhub.Base.{ℕ, ◌≡◌, ◌⊎◌, sym, refl, Bool, List, some, inl, inr}
use sealhub.Base.Text.{Text}
use sealhub.Base.Result.{Result, ok}
use sealhub.Changes.{Broker, subscribe}
use sealhub.Changes.Subscribers.{IsOpen, subscribe-IsOpen}
use sealhub.Changes.Interleaving.{published-IsOpen}
use sealhub.Crypto.{KeyRing}
use sealhub.Store.Index.{new_index}
use sealhub.Store.Git.{Outside, GitStore, Sys, TreeFile, index_files, refresh_index_locked}
use sealhub.Store.Git.Cases.{serving, Reads, Unread, refresh_index_locked-cases}
use sealhub.Store.Stable.{IsStable}

-- The fields that OpenOrClone sets.
abbrev pub settings : GitStore → Text × Text × Text × KeyRing × Bool × Bool × Text × Text
settings g =
    (g.work_dir, g.branch, g.pat_file, g.keyring, g.ready, g.use_ssh, g.commit_name, g.commit_email)

module _ (o : Outside) where
  -- What is relied on of git: commits do not change, and no call takes one away.
  pub record IsAppendOnly : Type 0 where
    pub git :
        (args : List Text) (w : o.State) (sha : Text) (files : List TreeFile)
        → o.tree_files w sha ≡ ok files
        → o.tree_files (o.git args w).1 sha ≡ ok files
    pub mkdir_all :
        (p : Text) (w : o.State) (sha : Text) (files : List TreeFile)
        → o.tree_files w sha ≡ ok files
        → o.tree_files (o.mkdir_all p w).1 sha ≡ ok files
    pub write_file :
        (p raw : Text) (w : o.State) (sha : Text) (files : List TreeFile)
        → o.tree_files w sha ≡ ok files
        → o.tree_files (o.write_file p raw w).1 sha ≡ ok files

  -- The index is of the files of the commit that the store remembers.
  abbrev pub IsCurrent : Sys o → Type 0
  IsCurrent s =
      (files : List TreeFile) × (o.tree_files s.outside s.store.served_sha ≡ ok files)
      × (s.store.index ≡ index_files o files new_index)

  -- What is outside of the program came to be of another state by what the program did outside.
  pub data Leads (first : o.State) : o.State → Type 0 where
    unchanged : Leads first first
    ran : {w : o.State} (args : List Text) → Leads first w → Leads first (o.git args w).1
    made : {w : o.State} (p : Text) → Leads first w → Leads first (o.mkdir_all p w).1
    wrote : {w : o.State} (p raw : Text) → Leads first w → Leads first (o.write_file p raw w).1

  -- The index was emptied when the files of the commit at the head could not be read.
  pub record IsEmptied (s : Sys o) : Type 0 where
    pub empty : s.store.index ≡ new_index
    pub then : Sys o
    pub unread : Unread o then
    pub since : Leads then.outside s.outside

  -- The store has the settings of another, its subscribers are open, and it has the index of the commit
  -- that it remembers, or none since the files of the commit at a head could not be read.
  pub record IsServing (g : GitStore) (s : Sys o) : Type 0 where
    pub same : settings s.store ≡ settings g
    pub subscribers : IsOpen s.store.broker
    pub indexed : IsEmptied s ⊎ IsCurrent s

  Reads-IsServing :
      (g : GitStore) (sha : Text) (files : List TreeFile) (br : Broker) (s : Sys o)
      → Reads o s sha files br
      → settings s.store ≡ settings g
      → IsOpen s.store.broker
      → IsServing g (serving o sha files br s)
  Reads-IsServing g sha files br s k same v = record {
    same = same;
    subscribers = published-IsOpen _ s.store.broker br k.told v;
    indexed = inr (files, k.read, refl);
  }

  refreshed-IsServing :
      (g : GitStore) (initial : Bool) (s t : Sys o) (r : Result (Unit {0}))
      → refresh_index_locked o initial s ≡ some (r, t)
      → IsServing g s
      → IsServing g t
  refreshed-IsServing g initial s t r h v = elim (refresh_index_locked-cases o initial s t r h) [
    | inl (e, _) ↦ subst (IsServing g) (sym e) v
    | inr (inl (e, _, unread)) ↦ subst (IsServing g) (sym e) (record {
      same = v.same;
      subscribers = v.subscribers;
      indexed = inl (record { empty = refl; then = s; unread = unread; since = unchanged });
    })
    | inr (inr (sha, files, br, k, _, e)) ↦
        subst (IsServing g) (sym e) (Reads-IsServing g sha files br s k v.same v.subscribers)
  ]

  module _ (a : IsAppendOnly) (g : GitStore) where
    -- Another state outside with the same commits.
    abbrev elsewhere : o.State → Sys o → Sys o
    elsewhere w s = record s { outside = w }

    elsewhere-IsServing :
        (w : o.State) (s : Sys o)
        → ((u : o.State) → Leads u s.outside → Leads u w)
        → ((files : List TreeFile)
            → o.tree_files s.outside s.store.served_sha ≡ ok files
            → o.tree_files w s.store.served_sha ≡ ok files)
        → IsServing g s
        → IsServing g (elsewhere w s)
    elsewhere-IsServing w s leads keeps v = record {
      same = v.same;
      subscribers = v.subscribers;
      indexed = elim v.indexed [
        | inl e ↦ inl (record {
          empty = e.empty;
          then = e.then;
          unread = e.unread;
          since = leads e.then.outside e.since;
        })
        | inr (files, read, e) ↦ inr (files, keeps files read, e)
      ];
    }

    pub IsServing-IsStable : IsStable o (IsServing g)
    IsServing-IsStable = record {
      git = λ args s v.
          elsewhere-IsServing (o.git args s.outside).1 s (λ u l. ran args l)
            (a.git args s.outside s.store.served_sha) v;
      mkdir_all = λ p s v.
          elsewhere-IsServing (o.mkdir_all p s.outside).1 s (λ u l. made p l)
            (a.mkdir_all p s.outside s.store.served_sha) v;
      write_file = λ p raw s v.
          elsewhere-IsServing (o.write_file p raw s.outside).1 s (λ u l. wrote p raw l)
            (a.write_file p raw s.outside s.store.served_sha) v;
      refresh = λ initial s t r h v. refreshed-IsServing g initial s t r h v;
    }

  abbrev with_broker : Broker → Sys o → Sys o
  with_broker b s = record s { store = record s.store { broker = b } }

  -- The broker of the store may be any other whose subscribers are open.
  pub with_broker-IsServing :
      (g : GitStore) (b : Broker) (s : Sys o)
      → IsOpen b
      → IsServing g s
      → IsServing g (with_broker b s)
  with_broker-IsServing g b s v k = record {
    same = k.same;
    subscribers = v;
    indexed = elim k.indexed [
      | inl e ↦ inl (record { empty = e.empty; then = e.then; unread = e.unread; since = e.since })
      | inr current ↦ inr current
    ];
  }

  pub subscribed-IsServing :
      (g : GitStore) (n : ℕ) (s : Sys o)
      → IsServing g s
      → IsServing g (with_broker (subscribe n s.store.broker).1 s)
  subscribed-IsServing g n s k =
      with_broker-IsServing g _ s (subscribe-IsOpen n s.store.broker k.subscribers) k

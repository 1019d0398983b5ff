-- ===== src/Operator/Watches.antt =====
-- operator/internal/controller/watch_manager.go: the table of the streams, one for each pull that is
-- watched. A stream is a number, and so is a context. What becomes of a stream that Sync has begun is
-- no part of the table: Watch may return, or the context that Sync was called with may be done.
pub mod Streams
use sealhub.Base.{
  ℕ, suc, ◌≡◌, ◌≢◌, ◌↔◌, ◌<◌, refl, sym, ◌∙◌, ap, Bool, true, false, Option, none, some, List, [],
  ◌∷◌, ◌++◌, if◌then◌else◌, nat_eq, arith, inl, inr, Bool-cases, Option-cases,
}
use sealhub.Base.Text.{Text, codes, ◌==◌, eq_iff}
use sealhub.Changes.{Event}
use sealhub.Client.Types.{Client, new_client}
use sealhub.Store.Index.{Table, find, assign, remove}
use sealhub.Store.Index.Contents.{find-assign, find-remove}
use sealhub.Operator.Reconcile.{HubPull}

-- `cancel` is a map from pulls to streams, or nil; `of_pull`, `parent` and `done` tell of the streams
-- that were made: for which pull, of which context theirs was derived, and whether their own cancel
-- function was called.
pub record WatchManager : Type 0 where
  pub cancel : Option (Table ℕ)
  pub made : ℕ
  pub of_pull : ℕ → Text
  pub parent : ℕ → ℕ
  pub done : ℕ → Bool

abbrev pub new_manager : WatchManager
new_manager = record {
  cancel = none;
  made = 0;
  of_pull = λ k. [];
  parent = λ k. 0;
  done = λ k. false;
}

-- pull.Namespace + "/" + pull.Name
abbrev pub key_of : HubPull → Text
key_of pull = pull.namespace ++ codes "/" ++ pull.name

abbrev pub wants_watch : HubPull → Bool
wants_watch pull = elim pull.watch [ none ↦ true | some b ↦ b ]

-- A read of a map, which may be nil.
abbrev pub stream_of : Text → WatchManager → Option ℕ
stream_of key w = elim w.cancel [ none ↦ none | some t ↦ find key t ]

abbrev pub entries : Option (Table ℕ) → Table ℕ
entries none = []
entries (some t) = t

-- c() and delete(w.cancel, key)
unfoldable pub stop : Text → ℕ → WatchManager → WatchManager
unfolding remove
stop key id w = record w {
  cancel = elim w.cancel [ none ↦ none | some t ↦ some (remove key t) ];
  done = λ k. if nat_eq id k then true else w.done k;
}

-- The map is made where it is nil, and the stream begins.
unfoldable pub begin : ℕ → Text → WatchManager → WatchManager
unfolding assign
begin ctx key w = record {
  cancel = some (assign key w.made (entries w.cancel));
  made = suc w.made;
  of_pull = λ k. if nat_eq w.made k then key else w.of_pull k;
  parent = λ k. if nat_eq w.made k then ctx else w.parent k;
  done = w.done;
}

unfoldable pub sync : ℕ → HubPull → WatchManager → WatchManager
unfolding stop begin find
sync ctx pull w =
    if wants_watch pull
    then elim (stream_of (key_of pull) w) [ some id ↦ w | none ↦ begin ctx (key_of pull) w ]
    else elim (stream_of (key_of pull) w) [ some id ↦ stop (key_of pull) id w | none ↦ w ]

-- The text before the last slash.
unfoldable pub before_last_slash : Text → Option Text
before_last_slash [] = none
before_last_slash (c ∷ s) = elim (before_last_slash s) [
  | some t ↦ some (c ∷ t)
  | none ↦ if nat_eq c b'/' then some [] else none
]

-- The client, the prefix and the test of the goroutine: an event of another document is ignored.
unfoldable pub watch_prefix : HubPull → Text
unfolding before_last_slash
watch_prefix pull = elim (before_last_slash pull.document_path) [
  | none ↦ pull.document_path
  | some t ↦ t
]

abbrev pub watch_client : HubPull → Text → Client
watch_client pull token = new_client pull.server token

unfoldable pub reconciles : HubPull → Event → Bool
reconciles pull ev = ev.path == pull.document_path

-- Calls of Sync one after the other, each with its context.
unfoldable pub sync_all : List (ℕ × HubPull) → WatchManager → WatchManager
unfolding sync
sync_all [] w = w
sync_all ((ctx, p) ∷ ps) w = sync_all ps (sync ctx p w)

-- ===== src/Daemon/Run.antt =====
-- The running server of cmd/hubd/main.go: whole requests, ticks, and the ends of streams, one after
-- the other. In the source an end of a stream may also fall between the moment when a Publish of a
-- request or of a tick releases the lock of the broker and its sends, which ends in a panic
-- (Changes/Interleaving), and a Publish between the Since and the Subscribe of a stream's start; the
-- runs here leave both out.
use sealhub.Base.{ℕ, ◌≡◌, true, some, List, ◌∷◌}
use sealhub.Changes.{Event}
use sealhub.Changes.Subscribers.{listed}
use sealhub.Changes.Interleaving.{receive}
use sealhub.Store.Git.{Outside}
use sealhub.Api.Types.{Request, Answer, Web, Server}
use sealhub.Api.Events.{broker_of, with_broker, close_stream}
use sealhub.Api.Routes.{serve}
use sealhub.Daemon.{tick}

module _ (o : Outside) (w : Web) where
  -- The libraries at a time, in nanoseconds.
  abbrev pub at_time : ℕ → Web
  at_time now = record w { now = now }

  pub data Step (s : Server o) (t : Server o) : Type 0 where
    handles :
        (now : ℕ) (r : Request) (a : Answer) → serve o (at_time now) r s ≡ some (a, t) → Step s t
    ticks : (now : ℕ) → tick o (at_time now) s ≡ some t → Step s t
    receives :
        (ch : ℕ) (ev : Event) (rest : List Event)
        → ((broker_of o w s).chans ch).buffer ≡ ev ∷ rest
        → t ≡ with_broker o w (receive ch rest (broker_of o w s)) s
        → Step s t
    closes :
        (ch : ℕ)
        → listed ch (broker_of o w s).subs ≡ true
        → close_stream o w ch s ≡ some t
        → Step s t

  -- The servers that a sequence of steps reaches.
  pub data Reach (first : Server o) : Server o → Type 0 where
    begun : Reach first first
    moved : {s t : Server o} → Reach first s → Step s t → Reach first t

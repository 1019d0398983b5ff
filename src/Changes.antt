-- ===== src/Changes.antt =====
-- pkg/changes/broker.go: the revision counter, the bounded history and the subscribers' channels.
-- A channel is an address in `chans`, where every channel that was ever made stays: receivers hold
-- the address too. `none` is a panic.
pub mod History
pub mod Since
pub mod Subscribers
pub mod Interleaving
mod Tests
use sealhub.Base.{
  ℕ, suc, ◌+◌, ◌-◌, Bool, true, false, not, ◌&&◌, ◌||◌, Option, none, some, List, [], ◌∷◌, ◌++◌,
  if◌then◌else◌, nat_eq, ltb, length, drop,
}
use sealhub.Base.Text.{Text, ◌==◌, has_prefix}
use sealhub.Base.Int.{Int64, le_int, inc_int}
use sealhub.Document.{Metadata, slash}

-- The field Type, "upsert" or "delete".
pub data EventType : Type 0 where
  upsert delete : EventType

pub record Event : Type 0 where
  pub revision : Int64
  pub type : EventType
  pub path : Text
  pub metadata : Metadata

pub record Chan : Type 0 where
  pub buffer : List Event
  pub cap : ℕ
  pub closed : Bool

pub record Broker : Type 0 where
  pub revision : Int64
  pub subs : List ℕ
  pub history : List Event
  pub max_hist : ℕ
  pub chans : ℕ → Chan
  pub made : ℕ

abbrev pub set_chan : (ℕ → Chan) → ℕ → Chan → ℕ → Chan
set_chan chans ch c k = if nat_eq ch k then c else chans k

abbrev pub no_chan : Chan
no_chan = record { buffer = []; cap = 0; closed = false }

unfoldable pub new_broker : Broker
new_broker = record {
  revision = 0;
  subs = [];
  history = [];
  max_hist = 512;
  chans = λ k. no_chan;
  made = 0;
}

-- The last n elements: h[len(h)-n:] where h is longer.
unfoldable pub last_n {ℓ} : {A : Type ℓ} → ℕ → List A → List A
last_n n h = if ltb n (length h) then drop (length h - n) h else h

-- Publish up to the unlock: the stamped event, the channels to send it to, the new state. The count of
-- the revision, which the source raises just before it takes the lock, is part of this step.
unfoldable pub record_event : Event → Broker → Event × List ℕ × Broker
unfolding last_n
record_event ev b =
    let rev = inc_int b.revision in
    let ev' = record ev { revision = rev } in
    (ev', b.subs, record b { revision = rev; history = last_n b.max_hist (b.history ++ ev' ∷ []) })

-- select { case ch <- ev: default: }. A send on a closed channel panics.
unfoldable pub offer : Event → Chan → Option Chan
offer ev c =
    if c.closed
    then none
    else if ltb (length c.buffer) c.cap
    then some (record c { buffer = c.buffer ++ ev ∷ [] })
    else some c

unfoldable pub send : Event → ℕ → Broker → Option Broker
unfolding offer
send ev ch b = elim (offer ev (b.chans ch)) [
  | none ↦ none
  | some c ↦ some (record b { chans = set_chan b.chans ch c })
]

infixl 5 ◌>>=◌
abbrev pub ◌>>=◌ {ℓ κ} : {A : Type ℓ} {B : Type κ} → Option A → (A → Option B) → Option B
none >>= f = none
some a >>= f = f a

unfoldable pub send_all : Event → List ℕ → Broker → Option Broker
send_all ev [] b = some b
send_all ev (ch ∷ rest) b = send ev ch b >>= send_all ev rest

unfoldable pub publish : Event → Broker → Option Broker
unfolding record_event
publish ev b = let (ev', subs, b') = record_event ev b in send_all ev' subs b'

unfoldable pub subscribe : ℕ → Broker → ℕ × Broker
subscribe buffer b = (
  b.made,
  record b {
    subs = b.subs ++ b.made ∷ [];
    chans = set_chan b.chans b.made (record { buffer = []; cap = buffer; closed = false });
    made = suc b.made;
  },
)

abbrev pub without : ℕ → List ℕ → List ℕ
without ch [] = []
without ch (k ∷ ks) = let rest = without ch ks in if nat_eq ch k then rest else k ∷ rest

-- close(ch) panics on a channel that is closed.
unfoldable pub unsubscribe : ℕ → Broker → Option Broker
unsubscribe ch b =
    if (b.chans ch).closed
    then none
    else some (record b {
      subs = without ch b.subs;
      chans = set_chan b.chans ch (record (b.chans ch) { closed = true });
    })

-- hasPrefix: `prefix` as a whole number of path segments.
unfoldable pub under_prefix : Text → Text → Bool
under_prefix path prefix =
    if prefix == [] then true else path == prefix || has_prefix path (prefix ++ slash)

abbrev pub skipped : Int64 → Text → Event → Bool
skipped rev prefix ev =
    le_int ev.revision rev || (not (prefix == []) && not (under_prefix ev.path prefix))

unfoldable pub since_loop : Int64 → Text → List Event → List Event
since_loop rev prefix [] = []
since_loop rev prefix (ev ∷ evs) =
    let rest = since_loop rev prefix evs in if skipped rev prefix ev then rest else ev ∷ rest

unfoldable pub since : Int64 → Text → Broker → List Event
unfolding since_loop
since rev prefix b = since_loop rev prefix b.history

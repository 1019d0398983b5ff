-- ===== src/Changes/Interleaving.antt =====
-- The broker of pkg/changes/broker.go over time: the steps of whole calls and receives, and a call
-- that comes between the unlock of Publish and its sends.
use mathlib.Core.Path.{subst}
use mathlib.Core.Option.{some-injective}
use sealhub.Base.{
  All-imp, sym, refl, ℕ, ◌≡◌, ◌∙◌, ap, true, false, none, some, List, [], ◌∷◌, nat_eq, arith, inl,
  inr, Bool-cases, Option-cases, length,
}
use sealhub.Changes.{
  Event, Broker, set_chan, new_broker, record_event, send, send_all, publish, subscribe,
  unsubscribe,
}
use sealhub.Changes.History.{publish_all}
use sealhub.Changes.Subscribers.{
  IsOpen, listed, publish-IsOpen, subscribe-IsOpen, unsubscribe-IsOpen,
}

-- ev := <-ch, where the buffer of the channel holds an event.
abbrev pub receive : ℕ → List Event → Broker → Broker
receive ch rest b = record b { chans = set_chan b.chans ch (record (b.chans ch) { buffer = rest }) }

-- One call of the broker, or one receive by a subscriber.
pub data Step (b : Broker) (c : Broker) : Type 0 where
  publishes : (ev : Event) → publish ev b ≡ some c → Step b c
  subscribes : (buffer : ℕ) → c ≡ (subscribe buffer b).1 → Step b c
  unsubscribes : (ch : ℕ) → listed ch b.subs ≡ true → unsubscribe ch b ≡ some c → Step b c
  receives :
      (ch : ℕ) (ev : Event) (rest : List Event)
      → (b.chans ch).buffer ≡ ev ∷ rest
      → c ≡ receive ch rest b
      → Step b c

-- The states that a sequence of steps reaches.
pub data Reach (start : Broker) : Broker → Type 0 where
  begun : Reach start start
  moved : {last d : Broker} → Reach start last → Step last d → Reach start d

pub receive-IsOpen :
    (ch : ℕ) (ev : Event) (rest : List Event) (b : Broker)
    → (b.chans ch).buffer ≡ ev ∷ rest
    → IsOpen b
    → IsOpen (receive ch rest b)
receive-IsOpen ch ev rest b e v = record {
  opened = All-imp (λ k. (b.chans k).closed ≡ false) _ b.subs (λ k h. ground arith) v.opened;
  known = v.known;
  distinct = v.distinct;
  room = λ k. ground (arith, v.room k, ap length e);
}

pub unsubscribed-IsOpen :
    (ch : ℕ) (b c : Broker)
    → listed ch b.subs ≡ true
    → unsubscribe ch b ≡ some c
    → IsOpen b
    → IsOpen c
unsubscribed-IsOpen ch b c l h v =
    let (c', done, v', _, _) = unsubscribe-IsOpen ch b v l in
    subst IsOpen (some-injective c' c (sym done ∙ h)) v'

Step-IsOpen : (b c : Broker) → Step b c → IsOpen b → IsOpen c
Step-IsOpen b c (publishes ev h) v =
    let (c', done, v', _) = publish-IsOpen ev b v in
    subst IsOpen (some-injective c' c (sym done ∙ h)) v'
Step-IsOpen b c (subscribes n h) v = rw h (subscribe-IsOpen n b v)
Step-IsOpen b c (unsubscribes ch l h) v = unsubscribed-IsOpen ch b c l h v
Step-IsOpen b c (receives ch ev rest e h) v = rw h (receive-IsOpen ch ev rest b e v)

pub new_broker-IsOpen : IsOpen new_broker
unfolding new_broker
new_broker-IsOpen = omega arith

Reach-IsOpen : {b c : Broker} → Reach b c → IsOpen b → IsOpen c
Reach-IsOpen begun v = v
Reach-IsOpen (moved r s) v = Step-IsOpen _ _ s (Reach-IsOpen r v)

-- In every state that whole calls and receives reach from NewBroker, the subscribers are open and
-- within their capacity, and publishing any event returns.
pub reachable-publish :
    (b : Broker)
    → Reach new_broker b
    → IsOpen b × ((ev : Event) → (c : Broker) × (publish ev b ≡ some c))
reachable-publish b r =
    let v = Reach-IsOpen r new_broker-IsOpen in
    (v, λ ev. let (c, done, _, _) = publish-IsOpen ev b v in (c, done))

-- Where the subscribers are open, events are published.
pub publish_all-IsOpen :
    (evs : List Event) (b : Broker)
    → IsOpen b
    → (c : Broker) × (publish_all evs b ≡ some c) × IsOpen c
unfolding publish_all
publish_all-IsOpen [] b v = (b, refl, v)
publish_all-IsOpen (ev ∷ evs) b v =
    let (c, done, v', _) = publish-IsOpen ev b v in
    let (d, later, v'') = publish_all-IsOpen evs c v' in (d, rw done later, v'')

pub published-IsOpen :
    (evs : List Event) (b c : Broker) → publish_all evs b ≡ some c → IsOpen b → IsOpen c
published-IsOpen evs b c h v =
    let (c', done, v') = publish_all-IsOpen evs b v in
    subst IsOpen (some-injective c' c (sym done ∙ h)) v'

closed-send :
    (ev : Event) (ch k : ℕ) (b c : Broker)
    → send ev k b ≡ some c
    → (b.chans ch).closed ≡ true
    → (c.chans ch).closed ≡ true
unfolding send
closed-send ev ch k b c h e = ground arith

send-closed : (ev : Event) (ch : ℕ) (b : Broker) → (b.chans ch).closed ≡ true → send ev ch b ≡ none
unfolding send
send-closed ev ch b h = ground arith

send_all-closed :
    (ev : Event) (ch : ℕ) (chs : List ℕ) (b : Broker)
    → listed ch chs ≡ true
    → (b.chans ch).closed ≡ true
    → send_all ev chs b ≡ none
unfolding send_all
send_all-closed ev ch [] b l h = cc
send_all-closed ev ch (k ∷ chs) b l h = elim (Bool-cases (nat_eq ch k)) [
  | inl e ↦ let same : ch ≡ k = ground arith in rw (send-closed ev k b (rw (← same) h))
  | inr e ↦ elim (Option-cases (send ev k b)) [
    | inl lost ↦ rw lost
    | inr (c, sent) ↦
        rw sent (send_all-closed ev ch chs c (rw e at l) (closed-send ev ch k b c sent h))
  ]
]

-- From a state whose subscribers are open: if one of them unsubscribes after Publish has released
-- the lock and before it sends, Publish panics, since it sends on a closed channel.
pub unsubscribe_during_publish :
    (ev : Event) (ch : ℕ) (b : Broker)
    → IsOpen b
    → listed ch b.subs ≡ true
    → (c : Broker) × (unsubscribe ch (record_event ev b).2 ≡ some c)
      × (send_all (record_event ev b).0 (record_event ev b).1 c ≡ none)
unfolding record_event
unsubscribe_during_publish ev ch b v l =
    let (ev', subs, b') = record_event ev b in
    let (c, done, _, gone, _) =
      unsubscribe-IsOpen ch b'
        (record { opened = v.opened; known = v.known; distinct = v.distinct; room = v.room }) l in
    (c, done, send_all-closed ev' ch subs c l gone)

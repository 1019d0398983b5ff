-- ===== src/Changes/Subscribers.antt =====
-- The sends of Publish in pkg/changes/broker.go while no other goroutine runs in between, and the
-- subscribers before and after.
use sealhub.Base.{
  ℕ, suc, ◌≤◌, ◌<◌, ◌≡◌, ◌≢◌, refl, ◌∙◌, Bool, true, false, some, List, [], ◌∷◌, ◌++◌,
  if◌then◌else◌, nat_eq, ltb, length, any, arith, inl, inr, Bool-cases, All, All-append, All-imp,
  All-zip, Distinct, length-append,
}
use sealhub.Base.Int.{inc_int}
use sealhub.Changes.History.{send_all-SameRecord}
use sealhub.Changes.{
  Event, Chan, Broker, set_chan, record_event, send, send_all, publish, subscribe, unsubscribe,
  without,
}

-- The channels are open, made before, not listed twice, and no buffer is over its capacity.
pub record IsOpen (b : Broker) : Type 0 where
  pub opened : All (λ ch. (b.chans ch).closed ≡ false) b.subs
  pub known : All (λ ch. ch < b.made) b.subs
  pub distinct : Distinct b.subs
  pub room : (ch : ℕ) → length (b.chans ch).buffer ≤ (b.chans ch).cap

-- What a channel that is open holds after the event was offered to it.
abbrev pub offered : Event → Chan → Chan
offered ev c = if ltb (length c.buffer) c.cap then record c { buffer = c.buffer ++ ev ∷ [] } else c

abbrev pub listed : ℕ → List ℕ → Bool
listed k = any (nat_eq k)

send_of_open :
    (ev : Event) (ch : ℕ) (b : Broker)
    → (b.chans ch).closed ≡ false
    → send ev ch b ≡ some (record b { chans = set_chan b.chans ch (offered ev (b.chans ch)) })
unfolding send
send_of_open ev ch b h = ground arith

closed-offered : (ev : Event) (c : Chan) → (offered ev c).closed ≡ c.closed
closed-offered ev c = ground arith

offered-room :
    (ev : Event) (c : Chan)
    → length c.buffer ≤ c.cap
    → length (offered ev c).buffer ≤ (offered ev c).cap
offered-room ev c h = ground (arith, length-append c.buffer (ev ∷ []))

-- The channels after the event was offered to those of the list.
abbrev pub offer_all : Event → List ℕ → (ℕ → Chan) → ℕ → Chan
offer_all ev chs chans k = if listed k chs then offered ev (chans k) else chans k

not-listed : (k : ℕ) (chs : List ℕ) → All (λ ch. k ≢ ch) chs → listed k chs ≡ false
not-listed k [] h = refl
not-listed k (ch ∷ chs) h = ground (arith, not-listed k chs h.1)

offer_all-cons :
    (ev : Event) (ch : ℕ) (chs : List ℕ) (chans : ℕ → Chan)
    → All (λ x. ch ≢ x) chs
    → (k : ℕ)
    → offer_all ev chs (set_chan chans ch (offered ev (chans ch))) k
      ≡ offer_all ev (ch ∷ chs) chans k
offer_all-cons ev ch chs chans fresh k = elim (Bool-cases (nat_eq k ch)) [
  | inl e ↦
      let same : k ≡ ch = ground arith in
      let self : nat_eq ch ch ≡ true = ground arith in rw (same, self, not-listed ch chs fresh)
  | inr e ↦ let other : nat_eq ch k ≡ false = ground arith in rw (e, other)
]

send_all_of_open :
    (ev : Event) (chs : List ℕ) (b : Broker)
    → All (λ ch. (b.chans ch).closed ≡ false) chs
    → Distinct chs
    → (c : Broker) × (send_all ev chs b ≡ some c)
      × ((k : ℕ) → c.chans k ≡ offer_all ev chs b.chans k)
unfolding send_all
send_all_of_open ev [] b live d = (b, refl, λ k. refl)
send_all_of_open ev (ch ∷ chs) b live d =
    let b' = record b { chans = set_chan b.chans ch (offered ev (b.chans ch)) } in
    let still =
      All-imp (λ k. (b.chans k).closed ≡ false) (λ k. (b'.chans k).closed ≡ false) chs
        (λ k h. ground (arith, closed-offered ev (b.chans ch))) live.1 in
    let (c, sent, same) = send_all_of_open ev chs b' still d.1 in
    (c, rw (send_of_open ev ch b live.0) sent, λ k. same k ∙ offer_all-cons ev ch chs b.chans d.0 k)

module _ (ev : Event) (b c : Broker) (chs : List ℕ)
    (same : (k : ℕ) → c.chans k ≡ offer_all ev chs b.chans k) where
  closed-offer_all : (k : ℕ) → (c.chans k).closed ≡ (b.chans k).closed
  closed-offer_all k = rw (same k) (ground (arith, closed-offered ev (b.chans k)))

  room-offer_all :
      (k : ℕ)
      → length (b.chans k).buffer ≤ (b.chans k).cap
      → length (c.chans k).buffer ≤ (c.chans k).cap
  room-offer_all k h = rw (same k) (ground (arith, offered-room ev (b.chans k) h))

  offer_all-IsOpen : c.subs ≡ b.subs → c.made ≡ b.made → IsOpen b → IsOpen c
  offer_all-IsOpen subs made v = record {
    opened = rw subs (
        All-imp (λ k. (b.chans k).closed ≡ false) (λ k. (c.chans k).closed ≡ false) b.subs
          (λ k h. closed-offer_all k ∙ h) v.opened);
    known = rw (subs, made) v.known;
    distinct = rw subs v.distinct;
    room = λ k. room-offer_all k (v.room k);
  }

-- Publishing to open subscribers does not panic: it appends the stamped event to the buffer of
-- each subscriber with room, leaves every other channel as it was, and keeps the subscribers open.
pub publish-IsOpen :
    (ev : Event) (b : Broker)
    → IsOpen b
    → (c : Broker) × (publish ev b ≡ some c)
      × IsOpen c
      × ((k : ℕ)
          → c.chans k ≡ offer_all (record ev { revision = inc_int b.revision }) b.subs b.chans k)
unfolding publish
publish-IsOpen ev b v =
    let (ev', subs, b') = record_event ev b in
    let (c, sent, same) = send_all_of_open ev' subs b' v.opened v.distinct in
    let kept = send_all-SameRecord ev' subs b' c sent in
    (
      c,
      sent,
      offer_all-IsOpen ev' b' c subs same kept.subs kept.made
          (record { opened = v.opened; known = v.known; distinct = v.distinct; room = v.room }),
      same,
    )

-- A new channel is not one that was made before.
fresh-subs :
    (n : ℕ) (chs : List ℕ) → All (λ ch. ch < n) chs → Distinct chs → Distinct (chs ++ n ∷ [])
fresh-subs n [] h d = (tt, tt)
fresh-subs n (ch ∷ chs) h d =
    (All-append (λ x. ch ≢ x) chs (n ∷ []) d.0 (omega arith, tt), fresh-subs n chs h.1 d.1)

-- Subscribing keeps the subscribers open.
pub subscribe-IsOpen : (buffer : ℕ) (b : Broker) → IsOpen b → IsOpen (subscribe buffer b).1
unfolding subscribe
subscribe-IsOpen buffer b v =
    let b' = (subscribe buffer b).1 in
    let old =
      All-imp (λ ch. (ch < b.made) × ((b.chans ch).closed ≡ false))
        (λ ch. (b'.chans ch).closed ≡ false) b.subs (λ ch h. ground arith)
        (All-zip _ _ b.subs v.known v.opened) in
    record {
      opened = All-append (λ ch. (b'.chans ch).closed ≡ false) b.subs _ old (ground arith, tt);
      known =
          All-append (λ ch. ch < suc b.made) b.subs _
            (All-imp (λ ch. ch < b.made) _ b.subs (λ ch h. omega arith) v.known) (omega arith, tt);
      distinct = fresh-subs b.made b.subs v.known v.distinct;
      room = λ k. ground (arith, v.room k);
    }

opened_of_listed :
    (chans : ℕ → Chan) (ch : ℕ) (chs : List ℕ)
    → All (λ k. (chans k).closed ≡ false) chs
    → listed ch chs ≡ true
    → (chans ch).closed ≡ false
opened_of_listed chans ch [] h l = cc
opened_of_listed chans ch (k ∷ chs) h l = elim (Bool-cases (nat_eq ch k)) [
  | inl e ↦ let same : ch ≡ k = ground arith in rw same h.0
  | inr e ↦ opened_of_listed chans ch chs h.1 (rw e at l)
]

module _ (P : ℕ → Type 0) where
  All-without : (ch : ℕ) (chs : List ℕ) → All P chs → All (λ k. (ch ≢ k) × P k) (without ch chs)
  All-without ch [] h = tt
  All-without ch (k ∷ chs) h = elim (Bool-cases (nat_eq ch k)) [
    | inl e ↦ rw e (All-without ch chs h.1)
    | inr e ↦ rw e ((ground arith, h.0), All-without ch chs h.1)
  ]

  All-without' : (ch : ℕ) (chs : List ℕ) → All P chs → All P (without ch chs)
  All-without' ch chs h = All-imp _ P (without ch chs) (λ k p. p.1) (All-without ch chs h)

Distinct-without : (ch : ℕ) (chs : List ℕ) → Distinct chs → Distinct (without ch chs)
Distinct-without ch [] d = tt
Distinct-without ch (k ∷ chs) d = elim (Bool-cases (nat_eq ch k)) [
  | inl e ↦ rw e (Distinct-without ch chs d.1)
  | inr e ↦ rw e (All-without' (λ x. k ≢ x) ch chs d.0, Distinct-without ch chs d.1)
]

-- From a state whose subscribers are open, unsubscribing one of them closes its channel, takes it
-- off the list and keeps the others open.
pub unsubscribe-IsOpen :
    (ch : ℕ) (b : Broker)
    → IsOpen b
    → listed ch b.subs ≡ true
    → (c : Broker) × (unsubscribe ch b ≡ some c)
      × IsOpen c
      × ((c.chans ch).closed ≡ true)
      × (listed ch c.subs ≡ false)
unfolding unsubscribe
unsubscribe-IsOpen ch b v h =
    let c = record b {
      subs = without ch b.subs;
      chans = set_chan b.chans ch (record (b.chans ch) { closed = true });
    } in
    let apart = All-without (λ k. (b.chans k).closed ≡ false) ch b.subs v.opened in
    (
      c,
      rw (opened_of_listed b.chans ch b.subs v.opened h),
      record {
        opened = All-imp _ (λ k. (c.chans k).closed ≡ false) c.subs (λ k p. ground arith) apart;
        known = All-without' (λ k. k < b.made) ch b.subs v.known;
        distinct = Distinct-without ch b.subs v.distinct;
        room = λ k. ground (arith, v.room k);
      },
      ground arith,
      not-listed ch c.subs (All-imp _ (λ k. ch ≢ k) c.subs (λ k p. p.0) apart),
    )

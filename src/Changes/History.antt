-- ===== src/Changes/History.antt =====
-- What Since returns after a run of publications: a reader that asks from a revision misses nothing.
use mathlib.Core.List.{append_assoc, append-nil}
use mathlib.Core.Path.{◌≡⟨◌⟩◌, ◌∎}
use mathlib.Core.Path.{subst}
use mathlib.Core.Option.{some-injective}
use sealhub.Base.{
  ℕ, zero, suc, ◌+◌, ◌-◌, ◌≤◌, ◌<◌, ◌≡◌, refl, sym, ap, ◌∙◌, Option, some, List, [], ◌∷◌, ◌++◌, ltb,
  length, drop, arith, inl, inr, Bool-cases, length-append, length-drop, Option-cases, drop-append,
  drop-drop,
}
use sealhub.Base.Int.{Int64, int_half, inc_int}
use sealhub.Changes.{Event, Broker, last_n, record_event, send, send_all, publish, ◌>>=◌}

-- Publications one after the other.
unfoldable pub publish_all : List Event → Broker → Option Broker
publish_all [] b = some b
publish_all (ev ∷ evs) b = publish ev b >>= publish_all evs

-- The events with the revisions that follow `rev`.
abbrev pub stamp : Int64 → List Event → List Event
stamp rev [] = []
stamp rev (ev ∷ evs) = record ev { revision = inc_int rev } ∷ stamp (inc_int rev) evs

-- The part of a broker that sending leaves alone.
pub record SameRecord (b c : Broker) : Type 0 where
  pub revision : c.revision ≡ b.revision
  pub history : c.history ≡ b.history
  pub max_hist : c.max_hist ≡ b.max_hist
  pub subs : c.subs ≡ b.subs
  pub made : c.made ≡ b.made

send-SameRecord : (ev : Event) (ch : ℕ) (b c : Broker) → send ev ch b ≡ some c → SameRecord b c
unfolding send
send-SameRecord ev ch b c h = ground arith

pub send_all-SameRecord :
    (ev : Event) (chs : List ℕ) (b c : Broker) → send_all ev chs b ≡ some c → SameRecord b c
unfolding send_all
send_all-SameRecord ev [] b c h = ground arith
send_all-SameRecord ev (ch ∷ chs) b c h = elim (Option-cases (send ev ch b)) [
  | inl lost ↦ cc (rw (lost, send_all) at h)
  | inr (m, sent) ↦
      let first = send-SameRecord ev ch b m sent in
      let later = send_all-SameRecord ev chs m c (rw sent at h) in ground arith
]

pub length-stamp : (rev : Int64) (evs : List Event) → length (stamp rev evs) ≡ length evs
length-stamp rev [] = refl
length-stamp rev (ev ∷ evs) = ap suc (length-stamp (inc_int rev) evs)

-- Trimming as one goes along leaves what trimming at the end leaves.
pub last_n-eq-drop {ℓ} : {A : Type ℓ} (n : ℕ) (xs : List A) → last_n n xs ≡ drop (length xs - n) xs
unfolding last_n
last_n-eq-drop n xs = elim (Bool-cases (ltb n (length xs))) [
  | inl more ↦ rw more
  | inr fits ↦ let e : length xs - n ≡ 0 = ground arith in rw (fits, e)
]

last_n-append_last_n {ℓ} :
    {A : Type ℓ} (n : ℕ) (xs ys : List A) → last_n n (last_n n xs ++ ys) ≡ last_n n (xs ++ ys)
unfolding last_n
last_n-append_last_n n xs ys = elim (Bool-cases (ltb n (length xs))) [
  | inr fits ↦ rw fits
  | inl more ↦
      let k = length xs - n in
      let long : n < length xs = ground arith in
      let front = drop-append k xs ys (omega arith) in
      last_n n (last_n n xs ++ ys)
      ≡⟨ (rw (more, ← front, last_n-eq-drop)) ⟩
        drop (length (drop k (xs ++ ys)) - n) (drop k (xs ++ ys))
      ≡⟨ drop-drop _ k (length (xs ++ ys) - n) (xs ++ ys)
          (omega (arith, length-drop k (xs ++ ys), length-append xs ys)) ⟩
        drop (length (xs ++ ys) - n) (xs ++ ys)
      ≡⟨ sym (last_n-eq-drop n (xs ++ ys)) ⟩ last_n n (xs ++ ys) ∎
]

pub history-publish :
    (ev : Event) (b c : Broker)
    → publish ev b ≡ some c
    → (c.revision ≡ inc_int b.revision)
      × (c.max_hist ≡ b.max_hist)
      × (c.history ≡ last_n b.max_hist (b.history ++ stamp b.revision (ev ∷ [])))
unfolding publish
history-publish ev b c h =
    let (ev', subs, b') = record_event ev b in
    let same = send_all-SameRecord ev' subs b' c h in (same.revision, same.max_hist, same.history)

-- One more publication before the others, in the equation of the histories.
module _ (ev : Event) (evs : List Event) (b m c : Broker) where
  trimmed_once :
      m.revision ≡ inc_int b.revision
      → m.max_hist ≡ b.max_hist
      → m.history ≡ last_n b.max_hist (b.history ++ stamp b.revision (ev ∷ []))
      → last_n m.max_hist c.history ≡ last_n m.max_hist (m.history ++ stamp m.revision evs)
      → last_n b.max_hist c.history ≡ last_n b.max_hist (b.history ++ stamp b.revision (ev ∷ evs))
  trimmed_once r k first later =
      let step : last_n b.max_hist c.history
          ≡ last_n b.max_hist (
              last_n b.max_hist (b.history ++ stamp b.revision (ev ∷ []))
              ++ stamp (inc_int b.revision) evs) =
        cc in
      step
      ∙ last_n-append_last_n b.max_hist _ _
      ∙ ap (last_n b.max_hist) (append_assoc b.history (stamp b.revision (ev ∷ [])) _)

pub history-publish_all :
    (evs : List Event) (b c : Broker)
    → publish_all evs b ≡ some c
    → (c.max_hist ≡ b.max_hist)
      × (last_n b.max_hist c.history ≡ last_n b.max_hist (b.history ++ stamp b.revision evs))
unfolding publish_all
history-publish_all [] b c h =
    let e : c.history ≡ b.history = ground arith in (ground arith, rw (e, append-nil))
history-publish_all (ev ∷ evs) b c h = elim (Option-cases (publish ev b)) [
  | inl lost ↦ cc (rw (lost, publish_all) at h)
  | inr (m, done) ↦
      let (r, k, first) = history-publish ev b m done in
      let (k', later) = history-publish_all evs m c (rw done at h) in
      (k' ∙ k, trimmed_once ev evs b m c r k first later)
]

-- The revisions of a list of events run from `lo` + 1 to `hi` without a gap.
abbrev pub Follows : Int64 → List Event → Int64 → Type 0
Follows lo [] hi = lo ≡ hi
Follows lo (ev ∷ evs) hi = (ev.revision ≡ lo + 1) × Follows (lo + 1) evs hi

-- The history holds the latest revisions, none left out, and no more of them than it may.
pub record IsLogged (b : Broker) : Type 0 where
  pub fits : length b.history ≤ b.max_hist
  pub chained : Follows (b.revision - length b.history) b.history b.revision
  pub small : b.revision < int_half

pub Follows-length : (lo hi : ℕ) (evs : List Event) → Follows lo evs hi → lo + length evs ≡ hi
Follows-length lo hi [] h = omega arith
Follows-length lo hi (ev ∷ evs) h = omega (arith, Follows-length (lo + 1) hi evs h.1)

Follows-drop :
    (k lo lo' hi : ℕ) (evs : List Event)
    → k ≤ length evs
    → lo + k ≡ lo'
    → Follows lo evs hi
    → Follows lo' (drop k evs) hi
Follows-drop zero lo lo' hi evs le e h = let e' : lo ≡ lo' = omega arith in rw (← e') h
Follows-drop (suc k) lo lo' hi [] le e h = absurd (omega arith)
Follows-drop (suc k) lo lo' hi (ev ∷ evs) le e h =
    Follows-drop k (lo + 1) lo' hi evs (omega arith) (omega arith) h.1

Follows-append :
    (lo mid hi : ℕ) (xs ys : List Event)
    → Follows lo xs mid
    → Follows mid ys hi
    → Follows lo (xs ++ ys) hi
Follows-append lo mid hi [] ys h k = rw h k
Follows-append lo mid hi (x ∷ xs) ys h k = (h.0, Follows-append (lo + 1) mid hi xs ys h.1 k)

pub Follows-stamp :
    (rev : Int64) (evs : List Event)
    → rev + length evs < int_half
    → Follows rev (stamp rev evs) (rev + length evs)
Follows-stamp rev [] h = omega arith
Follows-stamp rev (ev ∷ evs) h =
    let e : inc_int rev ≡ rev + 1 = omega arith in
    let e' : rev + suc (length evs) ≡ rev + 1 + length evs = omega arith in
    rw (e, e') (refl, Follows-stamp (rev + 1) evs (omega arith))

pub IsLogged-publish :
    (ev : Event) (b c : Broker)
    → IsLogged b
    → b.revision + 1 < int_half
    → publish ev b ≡ some c
    → IsLogged c
IsLogged-publish ev b c v small h =
    let (r, k, first) = history-publish ev b c h in
    let up : inc_int b.revision ≡ b.revision + 1 = omega arith in
    let added = b.history ++ stamp b.revision (ev ∷ []) in
    let chain =
      Follows-append (b.revision - length b.history) b.revision (b.revision + 1) b.history
        (stamp b.revision (ev ∷ [])) v.chained (Follows-stamp b.revision (ev ∷ []) small) in
    let e = first ∙ last_n-eq-drop b.max_hist added in
    let cut = length added - b.max_hist in
    let size = length-append b.history (stamp b.revision (ev ∷ [])) in
    let size' = length-drop cut added in
    let from = Follows-length _ _ b.history v.chained in
    let kept : Follows (b.revision + 1 - length (drop cut added)) (drop cut added)
        (b.revision + 1) =
      Follows-drop cut (b.revision - length b.history) _ _ added (omega arith) (omega arith)
        chain in
    record {
      fits = rw (e, k) (omega arith);
      chained = rw (e, r ∙ up) kept;
      small = rw (r ∙ up) small;
    }

pub IsLogged-publish_all :
    (evs : List Event) (b c : Broker)
    → IsLogged b
    → b.revision + length evs < int_half
    → publish_all evs b ≡ some c
    → IsLogged c
unfolding publish_all
IsLogged-publish_all [] b c v small h = let e : b ≡ c = some-injective b c h in subst IsLogged e v
IsLogged-publish_all (ev ∷ evs) b c v small h = elim (Option-cases (publish ev b)) [
  | inl lost ↦ cc (rw (lost, publish_all) at h)
  | inr (m, done) ↦
      let (r, _, _) = history-publish ev b m done in
      let v' = IsLogged-publish ev b m v (omega arith) done in
      IsLogged-publish_all evs m c v' (omega arith) (rw done at h)
]

-- ===== src/Store/Git/Refresh.antt =====
-- The events of refreshIndexLocked.
use sealhub.Base.{
  ◌≡◌, ◌↔◌, ◌⊎◌, inl, inr, refl, sym, ◌∙◌, Bool, true, false, not, ◌&&◌, some, List, [], ◌∷◌, ◌++◌,
  if◌then◌else◌, arith, Any, Bool-cases, Option-cases, is_some, ap,
}
use sealhub.Base.Text.{Text, ◌==◌, eq_iff}
use sealhub.Base.Result.{ok, Result-cases}
use sealhub.Changes.{Event, EventType, upsert, delete}
use sealhub.Changes.History.{publish_all}
use sealhub.Store.Index.{DocEntry, Table, find, new_index, snapshot}
use sealhub.Store.Git.{
  TreeFile, Outside, Sys, upsert_event, delete_event, upserts, deletes, index_files, serve_files,
  refresh_index_locked,
}

abbrev pub Tells : EventType → Text → Event → Type 0
Tells t p ev = (ev.type ≡ t) × (ev.path ≡ p)

-- A path came, or went.
abbrev pub Changed : EventType → Text → Table DocEntry → Table DocEntry → Type 0
Changed upsert p old new = (is_some (find p new) ≡ true) × (is_some (find p old) ≡ false)
Changed delete p old new = (is_some (find p old) ≡ true) × (is_some (find p new) ≡ false)

Any-append_iff :
    {A : Type 0} (P : A → Type 0) (xs ys : List A) → Any P (xs ++ ys) ↔ (Any P xs ⊎ Any P ys)
Any-append_iff P [] ys = (λ a. inr a, λ a. elim a [ inl z ↦ absurd z | inr b ↦ b ])
Any-append_iff P (x ∷ xs) ys = grind (arith, Any-append_iff P xs ys)

-- One turn of the loops: the path is found, in `m`, and not in the other table, or an earlier turn
-- told of it.
turn :
    (t : EventType) (p q : Text) (e : DocEntry) (m other : Table DocEntry) (ev : Event)
    (rest : List Event)
    → ev.type ≡ t
    → ev.path ≡ q
    → Any (Tells t p) rest ↔ ((is_some (find p m) ≡ true) × (is_some (find p other) ≡ false))
    → Any (Tells t p) (if not (is_some (find q other)) then ev ∷ rest else rest)
      ↔ ((is_some (if q == p then some e else find p m) ≡ true) × (is_some (find p other) ≡ false))
turn t p q e m other ev rest typed named ih = elim (Bool-cases (q == p)) [
  | inl same ↦
      (let k = (eq_iff q p).0 same in
        elim (Bool-cases (is_some (find p other))) [
          | inl there ↦
              rw (same, k, there)
                (λ a. let z = (ih.0 a).1 in (refl, sym there ∙ z), λ h. let z = h.1 in cc)
          | inr gone ↦ rw (same, k, gone) (λ a. (refl, refl), λ h. inl (typed, named ∙ k))
        ])
  | inr differ ↦ elim (Bool-cases (is_some (find q other))) [
    | inl there ↦ rw (differ, there) ih
    | inr gone ↦
        rw (differ, gone)
          (
            λ a. elim a [
              | inl z ↦ (let w = (eq_iff q p).1 (sym named ∙ z.1) in cc)
              | inr z ↦ ih.0 z
            ],
            λ h. inr (ih.1 h),
          )
  ]
]

upserts_iff :
    (p : Text) (old new : Table DocEntry)
    → Any (Tells upsert p) (upserts old new) ↔ Changed upsert p old new
unfolding upserts find
upserts_iff p old [] = (λ a. absurd a, λ h. cc)
upserts_iff p old ((q, e) ∷ new) =
    turn upsert p q e new old (upsert_event q e) (upserts old new) refl refl (upserts_iff p old new)

deletes_iff :
    (p : Text) (old new : Table DocEntry)
    → Any (Tells delete p) (deletes old new) ↔ Changed delete p old new
unfolding deletes find
deletes_iff p [] new = (λ a. absurd a, λ h. cc)
deletes_iff p ((q, e) ∷ old) new =
    turn delete p q e old new (delete_event q) (deletes old new) refl refl (deletes_iff p old new)

-- Each loop publishes its own type of event.
upserts-type : (p : Text) (old new : Table DocEntry) → ¬ Any (Tells delete p) (upserts old new)
unfolding upserts
upserts-type p old [] = λ a. a
upserts-type p old ((q, e) ∷ new) = elim (Bool-cases (is_some (find q old))) [
  | inl there ↦ rw there (upserts-type p old new)
  | inr gone ↦ rw gone (λ a. elim a [ inl z ↦ cc | inr z ↦ upserts-type p old new z ])
]

deletes-type : (p : Text) (old new : Table DocEntry) → ¬ Any (Tells upsert p) (deletes old new)
unfolding deletes
deletes-type p [] new = λ a. a
deletes-type p ((q, e) ∷ old) new = elim (Bool-cases (is_some (find q new))) [
  | inl there ↦ rw there (deletes-type p old new)
  | inr gone ↦ rw gone (λ a. elim a [ inl z ↦ cc | inr z ↦ deletes-type p old new z ])
]

events_iff :
    (t : EventType) (p : Text) (old new : Table DocEntry)
    → Any (Tells t p) (upserts old new ++ deletes old new) ↔ Changed t p old new
events_iff upsert p old new = (
  λ a. elim ((Any-append_iff _ (upserts old new) (deletes old new)).0 a) [
    | inl z ↦ (upserts_iff p old new).0 z
    | inr z ↦ absurd (deletes-type p old new z)
  ],
  λ h. (Any-append_iff _ (upserts old new) (deletes old new)).1 (inl ((upserts_iff p old new).1 h)),
)
events_iff delete p old new = (
  λ a. elim ((Any-append_iff _ (upserts old new) (deletes old new)).0 a) [
    | inl z ↦ absurd (upserts-type p old new z)
    | inr z ↦ (deletes_iff p old new).0 z
  ],
  λ h. (Any-append_iff _ (upserts old new) (deletes old new)).1 (inr ((deletes_iff p old new).1 h)),
)

unchanged_iff :
    (t : EventType) (p : Text) (m : Table DocEntry) → Any (Tells t p) [] ↔ Changed t p m m
unchanged_iff upsert p m = (λ a. absurd a, λ h. cc)
unchanged_iff delete p m = (λ a. absurd a, λ h. cc)

module _ (o : Outside) where
  -- What was published, and that it tells of the paths that came and went.
  pub record Published (s s' : Sys o) : Type 0 where
    pub events : List Event
    pub publishing : publish_all events s.store.broker ≡ some s'.store.broker
    pub tells :
        (t : EventType) (p : Text)
        → Any (Tells t p) events ↔ Changed t p (snapshot s.store.index) (snapshot s'.store.index)

  Published-serve_files :
      (sha : Text) (files : List TreeFile) (s s' : Sys o) (b : Unit {0})
      → serve_files o sha files
          (snapshot s.store.index)
          (record s { store = record s.store { index = new_index } })
        ≡ some (ok b, s')
      → Published s s'
  unfolding serve_files
  Published-serve_files sha files s s' b h =
      let old = snapshot s.store.index in
      let new = snapshot (index_files o files new_index) in
      elim (Option-cases (publish_all (upserts old new ++ deletes old new) s.store.broker)) [
        | inl e ↦ (let h' = rw (e, serve_files) at h in cc)
        | inr (br, e) ↦
            (let h' = rw (e, serve_files) at h in
              let same : br ≡ s'.store.broker = cc in
              let index : index_files o files new_index ≡ s'.store.index = cc in
              record {
                events = upserts old new ++ deletes old new;
                publishing = e ∙ ap some same;
                tells = λ t p. rw (sym index) (events_iff t p old new);
              })
      ]

  Published-same : (s s' : Sys o) → s ≡ s' → Published s s'
  unfolding publish_all
  Published-same s s' e = record {
    events = [];
    publishing = ap (λ (t : Sys o). some t.store.broker) e;
    tells = λ t p. rw (sym e) (unchanged_iff t p (snapshot s.store.index));
  }

  -- A successful refresh publishes an upsert for exactly the paths that came into the index and a
  -- deletion for exactly those that left it, and nothing else: for a document that was there and whose
  -- contents changed, watchers get no event.
  pub refresh_index_locked-Published :
      (initial : Bool) (s s' : Sys o) (b : Unit {0})
      → refresh_index_locked o initial s ≡ some (ok b, s')
      → Published s s'
  unfolding refresh_index_locked
  refresh_index_locked-Published initial s s' b h = elim (Result-cases (o.head s.outside)) [
    | inr (x, e) ↦ (let h' = rw (e, refresh_index_locked) at h in cc)
    | inl (sha, e) ↦ elim (Bool-cases (sha == s.store.served_sha && not initial)) [
      | inl same ↦ (let h' = rw (e, same, refresh_index_locked) at h in Published-same s s' cc)
      | inr other ↦ elim (Result-cases (o.tree_files s.outside sha)) [
        | inr (x, k) ↦ (let h' = rw (e, other, k, refresh_index_locked) at h in cc)
        | inl (files, k) ↦
            Published-serve_files sha files s s' b (rw (e, other, k, refresh_index_locked) at h)
      ]
    ]
  ]

-- ===== src/Store/Index/Listing.antt =====
-- What List of pkg/store/index.go returns.
use mathlib.Core.Path.{ap₂}
use sealhub.Base.{
  ◌≡◌, ◌≢◌, ◌↔◌, ◌⊎◌, inl, inr, refl, sym, ◌∙◌, true, none, some, List, [], ◌∷◌, arith, All,
  All-imp, Any, Bool-cases,
}
use sealhub.Base.Text.{Text, eq_iff}
use sealhub.Base.Order.{lt_text, lt_text_irrefl, lt_text_trans, lt_text_total}
use sealhub.Store.Index.{
  DocEntry, Table, find, Index, get, is_listed, list_loop, insert_sorted, sort_by_path, list,
}
use sealhub.Store.Index.Matching.{Matches, is_listed-Matches}
use sealhub.Store.Index.Contents.{DistinctKeys, IsIndexed}

abbrev pub Before : DocEntry → DocEntry → Type 0
Before x y = lt_text x.path y.path ≡ true

-- Each path is before all that follow it, so none comes twice.
abbrev pub IsSorted : List DocEntry → Type 0
IsSorted [] = Unit
IsSorted (x ∷ xs) = All (Before x) xs × IsSorted xs

abbrev pub In : DocEntry → List DocEntry → Type 0
In e = Any (λ x. e ≡ x)

module _ (P : DocEntry → Type 0) where
  All-insert_sorted :
      (e : DocEntry) (xs : List DocEntry) → P e → All P xs → All P (insert_sorted e xs)
  unfolding insert_sorted
  All-insert_sorted e [] h k = (h, tt)
  All-insert_sorted e (x ∷ xs) h k = ground (arith, All-insert_sorted e xs h k.1)

  All-sort_by_path : (es : List DocEntry) → All P es → All P (sort_by_path es)
  unfolding sort_by_path
  All-sort_by_path [] h = tt
  All-sort_by_path (e ∷ es) h = All-insert_sorted e (sort_by_path es) h.0 (All-sort_by_path es h.1)

  Any-insert_sorted :
      (e : DocEntry) (xs : List DocEntry) → Any P (insert_sorted e xs) ↔ (P e ⊎ Any P xs)
  unfolding insert_sorted
  Any-insert_sorted e [] = ground arith
  Any-insert_sorted e (x ∷ xs) = ground (arith, Any-insert_sorted e xs)

  Any-sort_by_path : (es : List DocEntry) → Any P (sort_by_path es) ↔ Any P es
  unfolding sort_by_path
  Any-sort_by_path [] = ground arith
  Any-sort_by_path (e ∷ es) =
      ground (arith, Any-insert_sorted e (sort_by_path es), Any-sort_by_path es)

insert_sorted-IsSorted :
    (e : DocEntry) (xs : List DocEntry)
    → All (λ x. e.path ≢ x.path) xs
    → IsSorted xs
    → IsSorted (insert_sorted e xs)
unfolding insert_sorted
insert_sorted-IsSorted e [] h s = (tt, tt)
insert_sorted-IsSorted e (x ∷ xs) h s = elim (Bool-cases (lt_text e.path x.path)) [
  | inl less ↦ rw less (
    (less, All-imp (Before x) (Before e) xs (λ y k. lt_text_trans e.path x.path y.path less k) s.0),
    s,
  )
  | inr more ↦
      let back = lt_text_total e.path x.path h.0 more in
      rw more (All-insert_sorted (Before x) e xs back s.0, insert_sorted-IsSorted e xs h.1 s.1)
]

-- The paths of a list are all different.
abbrev DistinctPaths : List DocEntry → Type 0
DistinctPaths [] = Unit
DistinctPaths (e ∷ es) = All (λ x. e.path ≢ x.path) es × DistinctPaths es

sort_by_path-IsSorted : (es : List DocEntry) → DistinctPaths es → IsSorted (sort_by_path es)
unfolding sort_by_path
sort_by_path-IsSorted [] d = tt
sort_by_path-IsSorted (e ∷ es) d =
    insert_sorted-IsSorted e (sort_by_path es) (All-sort_by_path _ es d.0)
      (sort_by_path-IsSorted es d.1)

at_All : (P : DocEntry → Type 0) (e : DocEntry) (xs : List DocEntry) → All P xs → In e xs → P e
at_All P e [] h i = absurd i
at_All P e (x ∷ xs) h (inl same) = rw same h.0
at_All P e (x ∷ xs) h (inr i) = at_All P e xs h.1 i

All_of_In :
    (P : DocEntry → Type 0) (xs : List DocEntry) → ((e : DocEntry) → In e xs → P e) → All P xs
All_of_In P [] f = tt
All_of_In P (x ∷ xs) f = (f x (inl refl), All_of_In P xs (λ e i. f e (inr i)))

not-Before_self : (x : DocEntry) (xs : List DocEntry) → All (Before x) xs → ¬ In x xs
not-Before_self x xs h i = cc (lt_text_irrefl x.path, at_All (Before x) x xs h i)

heads_equal :
    (x y : DocEntry) (xs ys : List DocEntry)
    → All (Before x) xs
    → All (Before y) ys
    → In x (y ∷ ys)
    → In y (x ∷ xs)
    → x ≡ y
heads_equal x y xs ys h k (inl e) j = e
heads_equal x y xs ys h k (inr i) (inl e) = sym e
heads_equal x y xs ys h k (inr i) (inr j) =
    let down =
      lt_text_trans x.path y.path x.path (at_All (Before x) y xs h j)
        (at_All (Before y) x ys k i) in
    cc (lt_text_irrefl x.path)

tail_In :
    (x y e : DocEntry) (xs ys : List DocEntry)
    → x ≡ y
    → All (Before x) xs
    → In e xs
    → In e (y ∷ ys)
    → In e ys
tail_In x y e xs ys same h i (inl here) =
    absurd (not-Before_self x xs h (rw (here ∙ sym same) at i))
tail_In x y e xs ys same h i (inr later) = later

-- A sorted list is determined by its elements.
IsSorted-unique :
    (xs ys : List DocEntry)
    → IsSorted xs
    → IsSorted ys
    → ((e : DocEntry) → In e xs ↔ In e ys)
    → xs ≡ ys
IsSorted-unique [] [] s t same = refl
IsSorted-unique [] (y ∷ ys) s t same = absurd ((same y).1 (inl refl))
IsSorted-unique (x ∷ xs) [] s t same = absurd ((same x).0 (inl refl))
IsSorted-unique (x ∷ xs) (y ∷ ys) s t same =
    let e = heads_equal x y xs ys s.0 t.0 ((same x).0 (inl refl)) ((same y).1 (inl refl)) in
    let rest = IsSorted-unique xs ys s.1 t.1 (λ z. (
      (λ i. tail_In x y z xs ys e s.0 i ((same z).0 (inr i))),
      (λ i. tail_In y x z ys xs (sym e) t.0 i ((same z).1 (inr i))),
    )) in
    ap₂ ◌∷◌ e rest

module _ (prefix label_key label_val : Text) where
  abbrev Passes : DocEntry → Type 0
  Passes e = is_listed prefix label_key label_val e.path e ≡ true

  abbrev loop : Table DocEntry → List DocEntry
  loop = list_loop prefix label_key label_val

  abbrev Named : Table DocEntry → Type 0
  Named m = (p : Text) (e : DocEntry) → find p m ≡ some e → e.path ≡ p

  Named-tail :
      (k : Text) (v : DocEntry) (m : Table DocEntry)
      → find k m ≡ none
      → Named ((k, v) ∷ m)
      → Named m
  unfolding find
  Named-tail k v m fresh named p e h = named p e (ground (arith, eq_iff k p))

  head_path : (k : Text) (v : DocEntry) (m : Table DocEntry) → Named ((k, v) ∷ m) → v.path ≡ k
  unfolding find
  head_path k v m named = named k v (ground (arith, eq_iff k k))

  In-list_loop :
      (m : Table DocEntry)
      → DistinctKeys m
      → Named m
      → (e : DocEntry) → In e (loop m) ↔ ((find e.path m ≡ some e) × Passes e)
  unfolding list_loop find
  In-list_loop [] d named e = ground arith
  In-list_loop ((k, v) ∷ m) d named e =
      let own : v.path ≡ k = head_path k v m named in
      let ih = In-list_loop m d.1 (Named-tail k v m d.0 named) e in
      elim (Bool-cases (is_listed prefix label_key label_val k v)) [
        | inl pass ↦ rw pass (ground (arith, eq_iff k e.path))
        | inr fail ↦ rw fail (ground (arith, eq_iff k e.path))
      ]

  DistinctPaths-list_loop : (m : Table DocEntry) → DistinctKeys m → Named m → DistinctPaths (loop m)
  unfolding list_loop
  DistinctPaths-list_loop [] d named = tt
  DistinctPaths-list_loop ((k, v) ∷ m) d named =
      let later = DistinctPaths-list_loop m d.1 (Named-tail k v m d.0 named) in
      let own : v.path ≡ k = head_path k v m named in
      let fresh =
        All_of_In (λ x. v.path ≢ x.path) (loop m)
          (λ x i same.
            let found = (In-list_loop m d.1 (Named-tail k v m d.0 named) x).0 i in
            cc (found.0, d.0, own, same)) in
      elim (Bool-cases (is_listed prefix label_key label_val k v)) [
        | inl pass ↦ rw pass (fresh, later)
        | inr fail ↦ rw fail later
      ]

  -- Of an index that has each path once, List returns exactly the entries whose path begins with the
  -- prefix and, where a key is given, whose label of that key is the value ("" where there is none),
  -- sorted by path, each once.
  pub list_iff :
      (idx : Index)
      → IsIndexed idx
      → IsSorted (list prefix label_key label_val idx)
        × ((e : DocEntry)
            → In e (list prefix label_key label_val idx)
              ↔ ((get e.path idx ≡ some e) × Matches prefix label_key label_val e))
  unfolding list get
  list_iff idx v = (
    sort_by_path-IsSorted _ (DistinctPaths-list_loop idx.entries v.distinct v.named),
    λ e.
        let sorted = Any-sort_by_path (λ x. e ≡ x) (loop idx.entries) in
        let looped = In-list_loop idx.entries v.distinct v.named e in
        let test = is_listed-Matches prefix label_key label_val e in
        (
          (λ i. let (there, passes) = looped.0 (sorted.0 i) in (there, test.0 passes)),
          (λ (there, m). sorted.1 (looped.1 (there, test.1 m))),
        ),
  )

  -- Two indexes that have each path once and the same documents are listed alike, in whatever
  -- order their maps are visited.
  pub list_of_same_documents :
      (a b : Index)
      → IsIndexed a
      → IsIndexed b
      → ((p : Text) → get p a ≡ get p b)
      → list prefix label_key label_val a ≡ list prefix label_key label_val b
  list_of_same_documents a b va vb same =
      let (sa, ia) = list_iff a va in
      let (sb, ib) = list_iff b vb in
      IsSorted-unique _ _ sa sb λ e. (
        (λ i. let (g, p) = (ia e).0 i in (ib e).1 (sym (same e.path) ∙ g, p)),
        (λ i. let (g, p) = (ib e).0 i in (ia e).1 (same e.path ∙ g, p)),
      )

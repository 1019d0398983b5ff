-- ===== src/Store/Index/Contents.antt =====
-- What the tables hold: the laws of the map, and that the index lists each path once.
use sealhub.Base.{◌≡◌, inl, inr, refl, ◌∙◌, none, some, [], ◌∷◌, if◌then◌else◌, arith, Bool-cases}
use sealhub.Base.Text.{Text, ◌==◌, eq_iff}
use sealhub.Store.Index.{DocEntry, Table, find, assign, remove, Index, new_index, set, delete, get}

module _ {ℓ} {V : Type ℓ} where
  pub find-assign :
      (k j : Text) (v : V) (m : Table V)
      → find j (assign k v m) ≡ (if k == j then some v else find j m)
  unfolding find assign
  find-assign k j v [] = refl
  find-assign k j v ((i, w) ∷ m) =
      ground (arith, eq_iff k j, eq_iff i k, eq_iff i j, find-assign k j v m)

  pub find-remove :
      (k j : Text) (m : Table V) → find j (remove k m) ≡ (if k == j then none else find j m)
  unfolding find remove
  find-remove k j [] = ground arith
  find-remove k j ((i, w) ∷ m) =
      ground (arith, eq_iff k j, eq_iff i k, eq_iff i j, find-remove k j m)

  -- No key comes twice.
  abbrev pub DistinctKeys : Table V → Type ℓ
  DistinctKeys [] = Unit
  DistinctKeys ((k, v) ∷ m) = (find k m ≡ none) × DistinctKeys m

  pub DistinctKeys-assign :
      (k : Text) (v : V) (m : Table V) → DistinctKeys m → DistinctKeys (assign k v m)
  unfolding assign find
  DistinctKeys-assign k v [] d = (refl, tt)
  DistinctKeys-assign k v ((j, w) ∷ m) d = elim (Bool-cases (j == k)) [
    | inl same ↦ let e = (eq_iff j k).0 same in rw (same, ← e) d
    | inr other ↦ rw other (
      find-assign k j v m ∙ ground (arith, eq_iff k j, eq_iff j k),
      DistinctKeys-assign k v m d.1,
    )
  ]

  pub DistinctKeys-remove : (k : Text) (m : Table V) → DistinctKeys m → DistinctKeys (remove k m)
  unfolding remove
  DistinctKeys-remove k [] d = tt
  DistinctKeys-remove k ((j, w) ∷ m) d = elim (Bool-cases (j == k)) [
    | inl same ↦ rw same (DistinctKeys-remove k m d.1)
    | inr other ↦
        rw other
          (find-remove k j m ∙ ground (arith, eq_iff k j, eq_iff j k), DistinctKeys-remove k m d.1)
  ]

-- The index has each path once, and its entries carry the path that they stand under.
pub record IsIndexed (idx : Index) : Type 0 where
  pub distinct : DistinctKeys idx.entries
  pub named : (p : Text) (e : DocEntry) → get p idx ≡ some e → e.path ≡ p

-- Setting an entry under its own path keeps each path of the index once, and every entry under its
-- path.
pub set-IsIndexed :
    (path : Text) (e : DocEntry) (idx : Index)
    → e.path ≡ path
    → IsIndexed idx
    → IsIndexed (set path e idx)
unfolding set get
set-IsIndexed path e idx same v = record {
  distinct = DistinctKeys-assign path e idx.entries v.distinct;
  named = λ p x h. ground (arith, find-assign path p e idx.entries, eq_iff path p, v.named p x);
}

-- Deleting a path keeps each path of the index once, and every entry under its path.
pub delete-IsIndexed : (path : Text) (idx : Index) → IsIndexed idx → IsIndexed (delete path idx)
unfolding delete get
delete-IsIndexed path idx v = record {
  distinct = DistinctKeys-remove path idx.entries v.distinct;
  named = λ p x h. ground (arith, find-remove path p idx.entries, v.named p x);
}

pub new_index-IsIndexed : IsIndexed new_index
unfolding get find
new_index-IsIndexed = record { distinct = tt; named = λ p e h. cc }

-- ===== src/Store/Index.antt =====
-- pkg/store/index.go. The map is a list of its entries, in the order in which a loop visits them;
-- Go leaves that order open. The lock only serialises the calls.
pub mod Contents
pub mod Matching
pub mod Listing
use sealhub.Base.{
  ◌≡◌, Bool, true, false, not, ◌&&◌, Option, none, some, List, [], ◌∷◌, if◌then◌else◌,
}
use sealhub.Base.Text.{Text, ◌==◌, has_prefix}
use sealhub.Base.Order.{lt_text}
use sealhub.Document.{Metadata}

pub record DocEntry : Type 0 where
  pub path : Text
  pub blob_sha : Text
  pub metadata : Metadata

-- A map[string]V.
abbrev pub Table {ℓ} : Type ℓ → Type ℓ
Table V = List (Text × V)

-- m[k], with whether it is there.
unfoldable pub find {ℓ} : {V : Type ℓ} → Text → Table V → Option V
find k [] = none
find k ((j, v) ∷ m) = if j == k then some v else find k m

-- m[k] = v
unfoldable pub assign {ℓ} : {V : Type ℓ} → Text → V → Table V → Table V
assign k v [] = (k, v) ∷ []
assign k v ((j, w) ∷ m) = if j == k then (k, v) ∷ m else (j, w) ∷ assign k v m

-- delete(m, k)
unfoldable pub remove {ℓ} : {V : Type ℓ} → Text → Table V → Table V
remove k [] = []
remove k ((j, w) ∷ m) = let rest = remove k m in if j == k then rest else (j, w) ∷ rest

pub record Index : Type 0 where
  pub entries : Table DocEntry

abbrev pub new_index : Index
new_index = record { entries = [] }

unfoldable pub set : Text → DocEntry → Index → Index
unfolding assign
set path e idx = record { entries = assign path e idx.entries }

unfoldable pub delete : Text → Index → Index
unfolding remove
delete path idx = record { entries = remove path idx.entries }

unfoldable pub get : Text → Index → Option DocEntry
unfolding find
get path idx = find path idx.entries

-- Labels[key], "" where the label is missing.
unfoldable pub label_value : Text → Table Text → Text
label_value key labels = elim (find key labels) [ none ↦ [] | some v ↦ v ]

-- The two tests of List that let an entry through.
unfoldable pub is_listed : Text → Text → Text → Text → DocEntry → Bool
unfolding label_value
is_listed prefix label_key label_val p e =
    not (not (prefix == []) && not (has_prefix p prefix))
    && not (not (label_key == []) && not (label_value label_key e.metadata.labels == label_val))

unfoldable pub list_loop : Text → Text → Text → Table DocEntry → List DocEntry
list_loop prefix label_key label_val [] = []
list_loop prefix label_key label_val ((p, e) ∷ entries) =
    let rest = list_loop prefix label_key label_val entries in
    if is_listed prefix label_key label_val p e then e ∷ rest else rest

-- sort.Slice by path. It promises a sorted rearrangement; where no path comes twice there is one.
unfoldable pub insert_sorted : DocEntry → List DocEntry → List DocEntry
insert_sorted e [] = e ∷ []
insert_sorted e (x ∷ xs) = if lt_text e.path x.path then e ∷ x ∷ xs else x ∷ insert_sorted e xs

unfoldable pub sort_by_path : List DocEntry → List DocEntry
sort_by_path [] = []
sort_by_path (e ∷ es) = insert_sorted e (sort_by_path es)

unfoldable pub list : Text → Text → Text → Index → List DocEntry
unfolding list_loop sort_by_path insert_sorted
list prefix label_key label_val idx =
    sort_by_path (list_loop prefix label_key label_val idx.entries)

-- Snapshot copies the map.
unfoldable pub snapshot : Index → Table DocEntry
snapshot idx = idx.entries

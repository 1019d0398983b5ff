-- ===== src/Changes/Since.antt =====
-- What Since of pkg/changes/broker.go returns after publications.
use sealhub.Base.{◌≤◌, ◌<◌, List, [], ◌∷◌, if◌then◌else◌}
use sealhub.Base.Text.{Text}
use sealhub.Base.Int.{Int64, int_half}
use sealhub.Changes.{Event, under_prefix}

-- The events whose path lies under the prefix.
pub matching : Text → List Event → List Event
matching prefix [] = []
matching prefix (ev ∷ evs) =
    let rest = matching prefix evs in if under_prefix ev.path prefix then ev ∷ rest else rest

abbrev Upto : Int64 → Event → Type 0
Upto rev ev = ev.revision ≤ rev

abbrev Beyond : Int64 → Event → Type 0
Beyond rev ev = (rev < ev.revision) × (ev.revision < int_half)

-- ===== src/Base/Fields.antt =====
-- Fields of text written one after the other, each behind its length: the formats of the examples.
use sealhub.Base.Lists.{length, take, drop}
use mathlib.Core.List.{[], ◌∷◌, ◌++◌}
use sealhub.Base.Text.{Text}

abbrev pub put : Text → Text → Text
put t rest = length t ∷ (t ++ rest)

abbrev pub taken : Text → Text × Text
taken [] = ([], [])
taken (n ∷ rest) = (take n rest, drop n rest)

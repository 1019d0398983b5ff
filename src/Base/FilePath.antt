-- ===== src/Base/FilePath.antt =====
-- The functions of package path/filepath that the program calls, for paths with slashes.
use sealhub.Base.Text.{Text, codes, ◌==◌, has_prefix, split}
use mathlib.Core.Bool.{Bool}
use mathlib.Core.List.{List, [], ◌∷◌, ◌++◌, reverse}
use sealhub.Base.Tests.{if◌then◌else◌, nat_eq}

-- One part of a path; the stack has its top at the head.
unfoldable pub clean_step : Bool → List Text → Text → List Text
clean_step rooted stack part =
    if part == []
    then stack
    else if part == codes "."
    then stack
    else if part == codes ".."
    then elim stack [
      | [] ↦ if rooted then [] else part ∷ []
      | top ∷ below ↦ if top == codes ".." then part ∷ top ∷ below else below
    ]
    else part ∷ stack

unfoldable pub clean_parts : Bool → List Text → List Text → List Text
unfolding clean_step
clean_parts rooted stack [] = reverse stack
clean_parts rooted stack (part ∷ parts) = clean_parts rooted (clean_step rooted stack part) parts

unfoldable pub join_slash : List Text → Text
join_slash [] = []
join_slash (part ∷ []) = part
join_slash (part ∷ parts) = part ++ codes "/" ++ join_slash parts

-- filepath.Clean
unfoldable pub clean : Text → Text
unfolding clean_parts join_slash
clean path =
    let rooted = has_prefix path (codes "/") in
    let joined = join_slash (clean_parts rooted [] (split path b'/')) in
    if rooted then codes "/" ++ joined else if joined == [] then codes "." else joined

-- filepath.Join of two elements
unfoldable pub join : Text → Text → Text
unfolding clean
join a b = if a == [] then (if b == [] then [] else clean b) else clean (a ++ codes "/" ++ b)

-- What stands before the last slash, with it, where the text is reversed.
unfoldable pub from_slash : Text → Text
from_slash [] = []
from_slash (c ∷ s) = let rest = from_slash s in if nat_eq c b'/' then c ∷ s else rest

-- filepath.Dir
unfoldable pub dir : Text → Text
unfolding clean from_slash
dir path = clean (reverse (from_slash (reverse path)))

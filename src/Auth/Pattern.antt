-- ===== src/Auth/Pattern.antt =====
-- pathMatch of pkg/auth/auth.go, and the relation between patterns and paths that it decides.
use mathlib.Core.List.{append_assoc}
use mathlib.Core.Path.{subst}
use sealhub.Base.{Option-cases}
use sealhub.Base.{◌≡◌, ◌↔◌, ◌⊎◌, inl, inr, Bool, true, ◌||◌, ◌++◌, if◌then◌else◌, arith, Bool-cases}
use sealhub.Base.Text.{
  Text, codes, ◌==◌, eq_iff, eq_refl, has_prefix, trim_prefix, has_suffix, trim_suffix,
  has_prefix_iff, cut_suffix, cut_suffix-append, eq_append_of_cut_suffix, has_prefix-append,
}
use sealhub.Document.{data_dir, slash}

abbrev pub star : Text
star = codes "*"

abbrev pub star_star : Text
star_star = codes "**"

abbrev pub below_mark : Text
below_mark = codes "/**"

-- The tests of pathMatch, after both sides lost a leading "data/".
unfoldable pub covers : Text → Text → Bool
covers pattern path =
    if pattern == star_star || pattern == star
    then true
    else if has_suffix pattern below_mark
    then (let pre = trim_suffix pattern below_mark in path == pre || has_prefix path (pre ++ slash))
    else path == pattern

unfoldable pub path_match : Text → Text → Bool
unfolding covers
path_match path pattern = covers (trim_prefix pattern data_dir) (trim_prefix path data_dir)

-- A pattern covers every path, the directory that it names and what lies in it, or itself.
pub data Covers (pattern path : Text) : Type 0 where
  everything : (pattern ≡ star_star) ⊎ (pattern ≡ star) → Covers pattern path
  itself : (pre : Text) → pattern ≡ pre ++ below_mark → path ≡ pre → Covers pattern path
  below :
      (pre rest : Text)
      → pattern ≡ pre ++ below_mark
      → path ≡ (pre ++ slash) ++ rest
      → Covers pattern path
  exact : path ≡ pattern → Covers pattern path

covers_sound : (pattern path : Text) → covers pattern path ≡ true → Covers pattern path
unfolding covers
covers_sound pattern path h = elim (Bool-cases (pattern == star_star || pattern == star)) [
  | inl all ↦ everything (ground (arith, eq_iff pattern star_star, eq_iff pattern star))
  | inr some_only ↦ elim (Option-cases (cut_suffix pattern below_mark)) [
    | inl plain ↦ exact ((eq_iff path pattern).0 (rw (some_only, plain) at h))
    | inr (pre, cut) ↦
        let mark = eq_append_of_cut_suffix pattern below_mark cut in
        let h' : (path == pre || has_prefix path (pre ++ slash)) ≡ true =
          rw (some_only, cut) at h in
        elim (Bool-cases (path == pre)) [
          | inl same ↦ itself pre mark ((eq_iff path pre).0 same)
          | inr other ↦
              let (rest, e) = (has_prefix_iff path (pre ++ slash)).0 (rw other at h') in
              below pre rest mark e
        ]
  ]
]

-- A path that begins with the directory of the pattern and a slash is covered.
covers_below : (pre rest : Text) → covers (pre ++ below_mark) ((pre ++ slash) ++ rest) ≡ true
unfolding covers
covers_below pre rest = rw cut_suffix-append (ground (arith, has_prefix-append (pre ++ slash) rest))

covers_complete : (pattern path : Text) → Covers pattern path → covers pattern path ≡ true
unfolding covers
covers_complete pattern path (everything p) =
    ground (arith, eq_iff pattern star_star, eq_iff pattern star)
covers_complete pattern path (itself pre p q) =
    rw (p, q, cut_suffix-append) (ground (arith, eq_refl pre))
covers_complete pattern path (below pre rest p q) = rw (p, q) (covers_below pre rest)
covers_complete pattern path (exact e) = elim (Option-cases (cut_suffix pattern below_mark)) [
  | inl plain ↦ rw (e, plain) (ground (arith, eq_refl pattern))
  | inr (pre, cut) ↦
      let mark = eq_append_of_cut_suffix pattern below_mark cut in
      let deeper = append_assoc pre slash star_star in
      rw (e, mark)
        (subst (λ t. covers (pre ++ below_mark) t ≡ true) deeper (covers_below pre star_star))
]

-- pathMatch decides whether the pattern covers the path, both without a leading "data/".
pub path_match_iff :
    (path pattern : Text)
    → (path_match path pattern ≡ true)
      ↔ Covers (trim_prefix pattern data_dir) (trim_prefix path data_dir)
unfolding path_match
path_match_iff path pattern = (covers_sound _ _, covers_complete _ _)

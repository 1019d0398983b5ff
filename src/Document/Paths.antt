-- ===== src/Document/Paths.antt =====
-- Which API paths share a file of the repository, and which are encrypted by default.
use sealhub.Base.{◌≡◌, ◌↔◌, inl, inr, false, ◌++◌, if◌then◌else◌, arith, ap, Bool-cases, refl}
use sealhub.Base.Text.{Text, cut_prefix, has_prefix, trim_prefix}
use sealhub.Document.{slash, system_dir, data_dir, git_path}

-- The place of an API path without its leading slash.
abbrev placed : Text → Text
placed p = if has_prefix p system_dir then p else data_dir ++ p

not-system-data : (r : Text) → has_prefix (data_dir ++ r) system_dir ≡ false
unfolding cut_prefix
not-system-data r = refl

placed_inj : (p q : Text) → placed p ≡ placed q → p ≡ q
placed_inj p q e = elim (Bool-cases (has_prefix p system_dir)) [
  | inl hp ↦ elim (Bool-cases (has_prefix q system_dir)) [
    | inl hq ↦ ground arith
    | inr hq ↦ cc (not-system-data q, ap (λ t. has_prefix t system_dir) (rw (hp, hq) at e))
  ]
  | inr hp ↦ elim (Bool-cases (has_prefix q system_dir)) [
    | inl hq ↦ cc (not-system-data p, ap (λ t. has_prefix t system_dir) (rw (hp, hq) at e))
    | inr hq ↦ let e' : data_dir ++ p ≡ data_dir ++ q = rw (hp, hq) at e in cc
  ]
]

-- Two API paths have one file in the repository exactly if they are equal up to a leading slash.
pub git_path_inj :
    (p q : Text) → (git_path p ≡ git_path q) ↔ (trim_prefix p slash ≡ trim_prefix q slash)
unfolding git_path
git_path_inj p q = (placed_inj (trim_prefix p slash) (trim_prefix q slash), ap placed)

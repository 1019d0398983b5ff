-- ===== src/Base/Text.antt =====
-- Go strings are sequences of bytes: lists of numbers, with the functions of package strings that
-- the program calls. A literal is written through `codes`, which for ASCII text are its bytes.
use Prim.Native.Char.{code}
use Prim.Native.String.{String}
use Prim.Native.Nat.{ℕ}
use mathlib.Core.Path.{◌≡◌, refl, sym, ◌∙◌, ap, ap₂}
use mathlib.Core.Logic.{◌↔◌}
use mathlib.Core.Bool.{Bool, true, false, ◌&&◌, ◌||◌}
use mathlib.Core.Option
use mathlib.Core.Option.{Option, none, some, get_or}
use mathlib.Core.List.{List, [], ◌∷◌, ◌++◌, reverse, reverse-append, reverse-reverse}
use native.Mathlib.Omega.{arith}
use sealhub.Base.Tests.{nat_eq, leb, if◌then◌else◌, is_some}

abbrev pub Text : Type 0
Text = List ℕ

abbrev pub codes : String → Text
codes String.[] = []
codes (String.◌∷◌ c s) = code c ∷ codes s

-- s == t
infix 50 ◌==◌
unfoldable pub ◌==◌ : Text → Text → Bool
[] == [] = true
[] == (d ∷ t) = false
(c ∷ s) == [] = false
(c ∷ s) == (d ∷ t) = nat_eq c d && s == t

pub eq_iff : (s t : Text) → ((s == t) ≡ true) ↔ (s ≡ t)
unfolding ◌==◌
eq_iff [] [] = ground arith
eq_iff [] (d ∷ t) = ground arith
eq_iff (c ∷ s) [] = ground arith
eq_iff (c ∷ s) (d ∷ t) = ground (arith, eq_iff s t)

pub eq_refl : (s : Text) → (s == s) ≡ true
eq_refl s = (eq_iff s s).1 refl

-- strings.CutPrefix(s, p): the rest of `s` after `p`.
unfoldable pub cut_prefix : Text → Text → Option Text
cut_prefix s [] = some s
cut_prefix [] (p ∷ ps) = none
cut_prefix (c ∷ s) (p ∷ ps) = if nat_eq c p then cut_prefix s ps else none

-- strings.HasPrefix(s, p)
abbrev pub has_prefix : Text → Text → Bool
has_prefix s p = is_some (cut_prefix s p)

-- strings.TrimPrefix(s, p)
abbrev pub trim_prefix : Text → Text → Text
trim_prefix s p = get_or (cut_prefix s p) s

-- strings.CutSuffix(s, q): the rest of `s` before `q`.
unfoldable pub cut_suffix : Text → Text → Option Text
unfolding cut_prefix
cut_suffix s q = Option.map reverse (cut_prefix (reverse s) (reverse q))

-- strings.HasSuffix(s, q)
abbrev pub has_suffix : Text → Text → Bool
has_suffix s q = is_some (cut_suffix s q)

-- strings.TrimSuffix(s, q)
abbrev pub trim_suffix : Text → Text → Text
trim_suffix s q = get_or (cut_suffix s q) s

pub cut_prefix-append : (p r : Text) → cut_prefix (p ++ r) p ≡ some r
unfolding cut_prefix
cut_prefix-append [] r = refl
cut_prefix-append (c ∷ p) r = ground (arith, cut_prefix-append p r)

pub eq_append_of_cut_prefix : (s p : Text) {r : Text} → cut_prefix s p ≡ some r → s ≡ p ++ r
unfolding cut_prefix
eq_append_of_cut_prefix s [] h = cc
eq_append_of_cut_prefix [] (p ∷ ps) h = cc
eq_append_of_cut_prefix (c ∷ s) (p ∷ ps) {r} h =
    ground (arith, eq_append_of_cut_prefix s ps {r = r})

pub has_prefix_iff : (s p : Text) → (has_prefix s p ≡ true) ↔ ((r : Text) × (s ≡ p ++ r))
has_prefix_iff s p = (to (cut_prefix s p) refl, from)
  where
    to : (o : Option Text) → cut_prefix s p ≡ o → is_some o ≡ true → (r : Text) × (s ≡ p ++ r)
    to none e h = cc
    to (some r) e h = (r, eq_append_of_cut_prefix s p e)

    from : (r : Text) × (s ≡ p ++ r) → has_prefix s p ≡ true
    from (r, e) = rw (e, cut_prefix-append p r)

pub has_prefix-append : (p r : Text) → has_prefix (p ++ r) p ≡ true
has_prefix-append p r = rw (cut_prefix-append p r)

pub cut_suffix-append : (r q : Text) → cut_suffix (r ++ q) q ≡ some r
unfolding cut_suffix
cut_suffix-append r q =
    rw (reverse-append, cut_prefix-append (reverse q) (reverse r), reverse-reverse)

pub eq_append_of_cut_suffix : (s q : Text) {r : Text} → cut_suffix s q ≡ some r → s ≡ r ++ q
unfolding cut_suffix
eq_append_of_cut_suffix s q {r} h =
    let (t, cut, same) = (Option.map-eq-some_iff reverse _).0 h in
    sym (reverse-reverse s)
    ∙ ap reverse (eq_append_of_cut_prefix (reverse s) (reverse q) cut)
    ∙ reverse-append (reverse q) t
    ∙ ap₂ ◌++◌ same (reverse-reverse q)

-- The white space of ASCII, as unicode.IsSpace has it.
abbrev pub is_space : ℕ → Bool
is_space c = nat_eq c 32 || (leb 9 c && leb c 13)

unfoldable pub trim_left : Text → Text
trim_left [] = []
trim_left (c ∷ s) = let rest = trim_left s in if is_space c then rest else c ∷ s

-- strings.TrimSpace(s), for a text whose white space is ASCII.
unfoldable pub trim_space : Text → Text
unfolding trim_left
trim_space s = reverse (trim_left (reverse (trim_left s)))

-- strings.Split(s, sep) for a separator of one byte: `part` is what was read of the current part.
unfoldable pub split_from : ℕ → Text → Text → List Text
split_from sep part [] = part ∷ []
split_from sep part (c ∷ s) =
    let closed = split_from sep [] s in
    let longer = split_from sep (part ++ c ∷ []) s in if nat_eq c sep then part ∷ closed else longer

unfoldable pub split : Text → ℕ → List Text
unfolding split_from
split s sep = split_from sep [] s

-- strings.Contains(s, t)
unfoldable pub contains : Text → Text → Bool
contains [] t = has_prefix [] t
contains (c ∷ s) t = has_prefix (c ∷ s) t || contains s t

-- ===== src/Base/Order.antt =====
-- The order of Go's strings: by the first byte in which they differ, a prefix first.
use mathlib.Core.Path.{◌≡◌, refl}
use mathlib.Core.Logic.{◌≢◌}
use mathlib.Core.Bool.{Bool, true, false, ◌&&◌, ◌||◌}
use mathlib.Core.List.{[], ◌∷◌}
use native.Mathlib.Omega.{arith}
use sealhub.Base.Tests.{ltb, nat_eq}
use sealhub.Base.Text.{Text}

-- s < t
unfoldable pub lt_text : Text → Text → Bool
lt_text s [] = false
lt_text [] (d ∷ t) = true
lt_text (c ∷ s) (d ∷ t) = ltb c d || (nat_eq c d && lt_text s t)

pub lt_text_irrefl : (s : Text) → lt_text s s ≡ false
unfolding lt_text
lt_text_irrefl [] = refl
lt_text_irrefl (c ∷ s) = ground (arith, lt_text_irrefl s)

pub lt_text_trans : (s t u : Text) → lt_text s t ≡ true → lt_text t u ≡ true → lt_text s u ≡ true
unfolding lt_text
lt_text_trans s t [] h k = cc
lt_text_trans s [] (e ∷ u) h k = ground arith
lt_text_trans [] (d ∷ t) (e ∷ u) h k = refl
lt_text_trans (c ∷ s) (d ∷ t) (e ∷ u) h k = ground (arith, lt_text_trans s t u)

pub lt_text_total : (s t : Text) → s ≢ t → lt_text s t ≡ false → lt_text t s ≡ true
unfolding lt_text
lt_text_total [] [] h k = absurd (h refl)
lt_text_total (c ∷ s) [] h k = refl
lt_text_total [] (d ∷ t) h k = cc
lt_text_total (c ∷ s) (d ∷ t) h k = ground (arith, lt_text_total s t)

-- ===== src/Client/Cuts.antt =====
-- A frame that is cut from the buffer of Watch.
use sealhub.Base.{
  ℕ, ◌<◌, ◌≡◌, inl, inr, sym, ap, ◌∙◌, none, some, [], ◌∷◌, ◌++◌, arith, length, Option-cases,
}
use mathlib.Core.Option
use sealhub.Base.Text.{Text, cut_prefix, eq_append_of_cut_prefix, cut_prefix-append}
use sealhub.Client.Watch.{frame_end, cut_frame}

-- What a frame that is cut leaves of the text.
pub cut_frame-length :
    (buf f rest : Text) → cut_frame buf ≡ some (f, rest) → length rest < length buf
unfolding cut_frame
cut_frame-length [] f rest h = cc
cut_frame-length (c ∷ s) f rest h = elim (Option-cases (cut_prefix (c ∷ s) frame_end)) [
  | inr (r, hit) ↦
      let whole = ap length (eq_append_of_cut_prefix (c ∷ s) frame_end hit) in
      let same : r ≡ rest = (let k = rw (hit, cut_frame) at h in cc) in rw (sym same) (omega arith)
  | inl miss ↦
      let ((f', rest'), cut, same) =
        (Option.map-eq-some_iff (λ p. (c ∷ p.0, p.1)) (cut_frame s)).0
          (rw (miss, cut_frame) at h) in
      let shorter = cut_frame-length s f' rest' cut in
      let tail : rest' ≡ rest = ap (λ p. p.1) same in rw (sym tail) (omega arith)
]

still_none :
    (c : ℕ) (s b : Text) {p : Text × Text}
    → cut_prefix (c ∷ s) frame_end ≡ none
    → cut_frame s ≡ some p
    → cut_prefix (c ∷ (s ++ b)) frame_end ≡ none
unfolding cut_frame cut_prefix
still_none c [] b miss h = cc
still_none c (d ∷ s) b miss h = let k = miss in ground arith

pub cut_frame-append :
    (a b f rest : Text) → cut_frame a ≡ some (f, rest) → cut_frame (a ++ b) ≡ some (f, rest ++ b)
unfolding cut_frame
cut_frame-append [] b f rest h = cc
cut_frame-append (c ∷ s) b f rest h = elim (Option-cases (cut_prefix (c ∷ s) frame_end)) [
  | inr (r, hit) ↦
      let longer : cut_prefix (c ∷ (s ++ b)) frame_end ≡ some (r ++ b) =
        ap (λ t. cut_prefix (t ++ b) frame_end) (eq_append_of_cut_prefix (c ∷ s) frame_end hit)
        ∙ cut_prefix-append frame_end (r ++ b) in
      let k = rw (hit, cut_frame) at h in rw (longer, cut_frame) cc
  | inl miss ↦
      let ((f', rest'), cut, same) =
        (Option.map-eq-some_iff (λ p. (c ∷ p.0, p.1)) (cut_frame s)).0
          (rw (miss, cut_frame) at h) in
      rw (still_none c s b miss cut, cut_frame, cut_frame-append s b f' rest' cut)
        (ap (λ p. some (p.0, p.1 ++ b)) same)
]

-- ===== src/Client/Chunks.antt =====
-- The buffer of Watch: how the text of the stream is cut into reads makes no difference.
use sealhub.Base.{
  suc, ◌≡◌, refl, sym, ap, ◌∙◌, Option, none, some, List, [], ◌∷◌, ◌++◌, arith, length,
}
use mathlib.Core.List.{append_assoc}
use sealhub.Base.Text.{Text}
use sealhub.Base.Result.{Result, Error, ok, err}
use sealhub.Changes.{Event}
use sealhub.Client.Types.{Read, more, eof, Http}
use sealhub.Client.Watch.{cut_frame, Drained, left, stopped, Watching, ended, received, watch_loop}
use sealhub.Client.Drained.{drained, resume, drains, received-drained}

-- The reads give the text and then its end, and the context is not done before.
pub data Delivers : List Read → Text → Type 0 where
  last : (r : Read) → r.ending ≡ eof → Delivers (r ∷ []) r.bytes
  next :
      (r : Read) (reads : List Read) (t : Text)
      → r.ending ≡ more
      → r.cancelled ≡ none
      → Delivers reads t
      → Delivers (r ∷ reads) (r.bytes ++ t)

module _ (h : Http) (fn : Event → h.World → Result (Unit {0}) × h.World) where
  -- What Watch returns once the stream has ended.
  abbrev pub closed : Option (Drained × h.World) → Option (Watching × h.World)
  closed none = none
  closed (some (left r, w)) = some (ended (ok tt), w)
  closed (some (stopped x, w)) = some (ended (err x), w)

  loop-stopped :
      (buf : Text) (r : Read) (reads : List Read) (w w' : h.World) (x : Error)
      → received h fn buf r.bytes w ≡ some (stopped x, w')
      → watch_loop h fn buf (r ∷ reads) w ≡ some (ended (err x), w')
  unfolding watch_loop
  loop-stopped buf r reads w w' x e = rw (e, watch_loop) refl

  loop-ended :
      (buf t : Text) (r : Read) (reads : List Read) (w w' : h.World)
      → received h fn buf r.bytes w ≡ some (left t, w')
      → r.ending ≡ eof
      → watch_loop h fn buf (r ∷ reads) w ≡ some (ended (ok tt), w')
  unfolding watch_loop
  loop-ended buf t r reads w w' e over = rw (e, over, watch_loop) refl

  loop-more :
      (buf t : Text) (r : Read) (reads : List Read) (w w' : h.World)
      → received h fn buf r.bytes w ≡ some (left t, w')
      → r.ending ≡ more
      → r.cancelled ≡ none
      → watch_loop h fn buf (r ∷ reads) w ≡ watch_loop h fn t reads w'
  unfolding watch_loop
  loop-more buf t r reads w w' e goes live = rw (e, goes, live, watch_loop) refl

  pub watch_loop-drained :
      (buf : Text) (reads : List Read) (t : Text) (w : h.World)
      → Delivers reads t
      → cut_frame buf ≡ none
      → watch_loop h fn buf reads w ≡ closed (drained h fn (buf ++ t) w)
  watch_loop-drained buf _ _ w (last r e) whole =
      let d = drains h fn (suc (length (buf ++ r.bytes))) (buf ++ r.bytes) w (omega arith) in
      at_end d.result.0 d.result.1 d.returns
    where
      at_end :
          (out : Drained) (w' : h.World)
          → drained h fn (buf ++ r.bytes) w ≡ some (out, w')
          → watch_loop h fn buf (r ∷ []) w ≡ closed (drained h fn (buf ++ r.bytes) w)
      at_end (left t) w' d =
          loop-ended buf t r [] w w' (received-drained h fn buf r.bytes w whole ∙ d) e
          ∙ ap closed (sym d)
      at_end (stopped x) w' d =
          loop-stopped buf r [] w w' x (received-drained h fn buf r.bytes w whole ∙ d)
          ∙ ap closed (sym d)
  watch_loop-drained buf _ _ w (next r reads u e c rest) whole =
      let d = drains h fn (suc (length (buf ++ r.bytes))) (buf ++ r.bytes) w (omega arith) in
      go_on d.result.0 d.result.1 d.returns d.whole
        (λ t w' k. watch_loop-drained t reads u w' rest k)
      ∙ ap closed (sym (d.append u) ∙ ap (λ b. drained h fn b w) (append_assoc buf r.bytes u))
    where
      go_on :
          (out : Drained) (w' : h.World)
          → drained h fn (buf ++ r.bytes) w ≡ some (out, w')
          → ((t : Text) → out ≡ left t → cut_frame t ≡ none)
          → ((t : Text) (w' : h.World)
              → cut_frame t ≡ none
              → watch_loop h fn t reads w' ≡ closed (drained h fn (t ++ u) w'))
          → watch_loop h fn buf (r ∷ reads) w
            ≡ closed (resume h fn (drained h fn (buf ++ r.bytes) w) u)
      go_on (left t) w' d k again =
          loop-more buf t r reads w w' (received-drained h fn buf r.bytes w whole ∙ d) e c
          ∙ again t w' (k t refl)
          ∙ ap (λ z. closed (resume h fn z u)) (sym d)
      go_on (stopped x) w' d k again =
          loop-stopped buf r reads w w' x (received-drained h fn buf r.bytes w whole ∙ d)
          ∙ ap (λ z. closed (resume h fn z u)) (sym d)

  -- If two sequences of reads give the same text up to its end, Watch returns on both, the same and
  -- in the same state, whatever the callback does.
  pub watch_loop-chunks :
      (reads others : List Read) (t : Text) (w : h.World)
      → Delivers reads t
      → Delivers others t
      → (out : Result (Unit {0})) × (w' : h.World) × (watch_loop h fn [] reads w
          ≡ some (ended out, w'))
        × (watch_loop h fn [] others w ≡ some (ended out, w'))
  unfolding cut_frame
  watch_loop-chunks reads others t w a b =
      let d = drains h fn (suc (length t)) t w (omega arith) in
      returned d.result.0 d.result.1 d.returns
    where
      returned :
          (out : Drained) (w' : h.World)
          → drained h fn t w ≡ some (out, w')
          → (out : Result (Unit {0})) × (w' : h.World) × (watch_loop h fn [] reads w
              ≡ some (ended out, w'))
            × (watch_loop h fn [] others w ≡ some (ended out, w'))
      returned (left r) w' d = (
        ok tt,
        w',
        watch_loop-drained [] reads t w a refl ∙ ap closed d,
        watch_loop-drained [] others t w b refl ∙ ap closed d,
      )
      returned (stopped x) w' d = (
        err x,
        w',
        watch_loop-drained [] reads t w a refl ∙ ap closed d,
        watch_loop-drained [] others t w b refl ∙ ap closed d,
      )

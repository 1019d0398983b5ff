-- ===== src/Client/Drained.antt =====
-- The loop of Watch over the frames of its buffer: it returns, and may be left and taken up again.
use sealhub.Base.{
  ℕ, zero, suc, ◌<◌, ◌≡◌, inl, inr, refl, sym, ap, ◌∙◌, Option, none, some, [], ◌∷◌, ◌++◌, arith,
  length, Option-cases,
}
use mathlib.Core.List.{append-nil}
use sealhub.Base.Text.{Text, ◌==◌}
use sealhub.Base.Result.{Result, Error, ok, err, Result-cases}
use sealhub.Changes.{Event}
use sealhub.Client.Types.{Http}
use sealhub.Client.Watch.{cut_frame, Drained, left, stopped, on_frame, drain, received}
use sealhub.Client.Cuts.{cut_frame-length, cut_frame-append}

module _ (h : Http) (fn : Event → h.World → Result (Unit {0}) × h.World) where
  fuel :
      (n m : ℕ) (buf : Text) (w : h.World)
      → length buf < n
      → length buf < m
      → drain h fn n buf w ≡ drain h fn m buf w
  unfolding drain
  fuel zero m buf w a b = absurd (omega arith)
  fuel (suc n) zero buf w a b = absurd (omega arith)
  fuel (suc n) (suc m) buf w a b = elim (Option-cases (cut_frame buf)) [
    | inl whole ↦ rw (whole, drain) refl
    | inr ((f, rest), cut) ↦
        let shorter = cut_frame-length buf f rest cut in
        elim (Result-cases (on_frame h fn f w).0) [
          | inl (u, e) ↦
              rw (cut, e, drain) (fuel n m rest (on_frame h fn f w).1 (omega arith) (omega arith))
          | inr (x, e) ↦ rw (cut, e, drain) refl
        ]
  ]

  -- The loop over the frames with the fuel that is enough.
  abbrev pub drained : Text → h.World → Option (Drained × h.World)
  drained buf w = drain h fn (suc (length buf)) buf w

  pub drained-none :
      (buf : Text) (w : h.World) → cut_frame buf ≡ none → drained buf w ≡ some (left buf, w)
  unfolding drain
  drained-none buf w whole = rw (whole, drain) refl

  pub drained-err :
      (buf f rest : Text) (w : h.World) {x : Error}
      → cut_frame buf ≡ some (f, rest)
      → (on_frame h fn f w).0 ≡ err x
      → drained buf w ≡ some (stopped x, (on_frame h fn f w).1)
  unfolding drain
  drained-err buf f rest w cut e = rw (cut, e, drain) refl

  pub drained-ok :
      (buf f rest : Text) (w : h.World) {u : Unit {0}}
      → cut_frame buf ≡ some (f, rest)
      → (on_frame h fn f w).0 ≡ ok u
      → drained buf w ≡ drained rest (on_frame h fn f w).1
  unfolding drain
  drained-ok buf f rest w cut e =
      let shorter = cut_frame-length buf f rest cut in
      rw (cut, e, drain)
        (fuel (length buf) (suc (length rest)) rest (on_frame h fn f w).1 shorter (omega arith))

  -- The loop goes on with more text.
  abbrev pub resume : Option (Drained × h.World) → Text → Option (Drained × h.World)
  resume none b = none
  resume (some (stopped x, w)) b = some (stopped x, w)
  resume (some (left r, w)) b = drained (r ++ b) w

  -- The loop returns, leaves no whole frame, and may be left and taken up again anywhere.
  pub record Drains (a : Text) (w : h.World) : Type 0 where
    pub result : Drained × h.World
    pub returns : drained a w ≡ some result
    pub whole : (r : Text) → result.0 ≡ left r → cut_frame r ≡ none
    pub append : (b : Text) → drained (a ++ b) w ≡ resume (drained a w) b

  pub drains : (n : ℕ) (a : Text) (w : h.World) → length a < n → Drains a w
  drains zero a w lt = absurd (omega arith)
  drains (suc n) a w lt = elim (Option-cases (cut_frame a)) [
    | inl whole ↦
        let once = drained-none a w whole in
        record {
          result = (left a, w);
          returns = once;
          whole = λ r e. cc;
          append = λ b. rw once refl;
        }
    | inr ((f, rest), cut) ↦
        let shorter = cut_frame-length a f rest cut in
        let w' = (on_frame h fn f w).1 in
        elim (Result-cases (on_frame h fn f w).0) [
          | inr (x, e) ↦
              let once = drained-err a f rest w cut e in
              record {
                result = (stopped x, w');
                returns = once;
                whole = λ r e'. cc;
                append = λ b.
                    drained-err (a ++ b) f (rest ++ b) w (cut_frame-append a b f rest cut) e
                    ∙ ap (λ d. resume d b) (sym once);
              }
          | inl (u, e) ↦
              let on = drains n rest w' (omega arith) in
              let once = drained-ok a f rest w cut e in
              record {
                result = on.result;
                returns = once ∙ on.returns;
                whole = on.whole;
                append = λ b.
                    drained-ok (a ++ b) f (rest ++ b) w (cut_frame-append a b f rest cut) e
                    ∙ on.append b
                    ∙ ap (λ d. resume d b) (sym once);
              }
        ]
  ]

  pub received-drained :
      (buf bytes : Text) (w : h.World)
      → cut_frame buf ≡ none
      → received h fn buf bytes w ≡ drained (buf ++ bytes) w
  unfolding received ◌==◌
  received-drained buf [] w whole =
      sym (ap (λ b. drained b w) (append-nil buf) ∙ drained-none buf w whole)
  received-drained buf (c ∷ bytes) w whole = refl

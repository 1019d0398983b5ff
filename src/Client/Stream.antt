-- ===== src/Client/Stream.antt =====
-- The stream of events from the handler of the server to the callback of Watch.
mod Tests
use sealhub.Base.{
  ◌≡◌, inl, inr, refl, ap, ◌∙◌, false, some, List, [], ◌∷◌, ◌++◌, nat_eq, All, All-append,
}
use mathlib.Core.List.{append_assoc}
use sealhub.Base.Text.{Text, codes, cut_prefix}
use sealhub.Base.Int.{Int64}
use sealhub.Base.Result.{Result, ok, err, Result-cases}
use sealhub.Changes.{Event}
use sealhub.Api.Types.{Web}
use sealhub.Api.Events.{frame, frames}
use sealhub.Client.Types.{Http, Client, Reply}
use sealhub.Client.Calls.{round_trip, prefix_query}
use sealhub.Client.Watch.{
  data_mark, frame_end, cut_frame, ended, on_frame, since_query, watch_request, watch,
}
use sealhub.Client.Drained.{drained, drained-none, drained-err, drained-ok}
use sealhub.Client.Chunks.{Delivers, closed, watch_loop-drained}

abbrev pub IsOneLine : Text → Type 0
IsOneLine t = All (λ c. nat_eq c b'\n' ≡ false) t

cut_frame-IsOneLine :
    (f rest : Text) → IsOneLine f → cut_frame (f ++ (frame_end ++ rest)) ≡ some (f, rest)
unfolding cut_frame cut_prefix
cut_frame-IsOneLine [] rest h = refl
cut_frame-IsOneLine (c ∷ f) rest (c_not_end, h) =
    rw (c_not_end, cut_frame, cut_frame-IsOneLine f rest h) refl

-- What the callback makes of events, up to its first error.
unfoldable pub deliver :
    (h : Http)
    → (Event → h.World → Result (Unit {0}) × h.World)
    → List Event
    → h.World
    → Result (Unit {0}) × h.World
deliver h fn [] w = (ok tt, w)
deliver h fn (ev ∷ evs) w =
    let (res, w') = fn ev w in elim res [ err x ↦ (err x, w') | ok _ ↦ deliver h fn evs w' ]

module _ (web : Web) (h : Http) (fn : Event → h.World → Result (Unit {0}) × h.World) where
  -- The event is sent in one line and read back.
  pub record IsSent (ev : Event) : Type 0 where
    pub one_line : IsOneLine (web.marshal_event ev)
    pub read_back : h.unmarshal_event (web.marshal_event ev) ≡ ok ev

  on_frame-IsSent :
      (ev : Event) (w : h.World)
      → IsSent ev
      → on_frame h fn (data_mark ++ web.marshal_event ev) w ≡ fn ev w
  unfolding on_frame cut_prefix
  on_frame-IsSent ev w sent = rw (sent.read_back, on_frame) refl

  cut_frame-frame :
      (ev : Event) (rest : Text)
      → IsSent ev
      → cut_frame (frame web ev ++ rest) ≡ some (data_mark ++ web.marshal_event ev, rest)
  unfolding frame
  cut_frame-frame ev rest sent =
      let m = web.marshal_event ev in
      let line : IsOneLine (data_mark ++ m) =
        All-append (λ c. nat_eq c b'\n' ≡ false) data_mark m
          (refl, (refl, (refl, (refl, (refl, (refl, tt)))))) sent.one_line in
      ap (λ t. cut_frame (data_mark ++ t)) (append_assoc m frame_end rest)
      ∙ cut_frame-IsOneLine (data_mark ++ m) rest line

  drained-frames :
      (evs : List Event) (w : h.World)
      → All IsSent evs
      → closed h fn (drained h fn (frames web evs) w)
        ≡ some (ended (deliver h fn evs w).0, (deliver h fn evs w).1)
  unfolding deliver frames cut_frame
  drained-frames [] w sent = ap (closed h fn) (drained-none h fn [] w refl)
  drained-frames (ev ∷ evs) w (sent, later) =
      let cut = cut_frame-frame ev (frames web evs) sent in
      let on = on_frame-IsSent ev w sent in
      elim (Result-cases (fn ev w).0) [
        | inl (u, e) ↦
            ap (closed h fn) (
              drained-ok h fn (frame web ev ++ frames web evs) _ (frames web evs) w cut
                (ap (λ p. p.0) on ∙ e))
            ∙ ap (λ p. closed h fn (drained h fn (frames web evs) p.1)) on
            ∙ drained-frames evs (fn ev w).1 later
            ∙ rw (e, deliver) refl
        | inr (x, e) ↦
            ap (closed h fn) (
              drained-err h fn (frame web ev ++ frames web evs) _ (frames web evs) w cut
                (ap (λ p. p.0) on ∙ e))
            ∙ ap (λ p. some (ended (err x), p.1)) on
            ∙ rw (e, deliver) refl
      ]

  -- Let the URL of the stream parse, and the request be answered with reads that give the text of the
  -- frames that the server writes for some events, up to its end, where each event is marshalled
  -- without a line feed and read back. Watch then calls the callback on exactly those events, in their order, up to
  -- the first error, which it returns, however the text was cut into reads.
  pub watch-frames :
      (c : Client) (since : Int64) (prefix url : Text) (w w' : h.World) (reply : Reply)
      (evs : List Event)
      → h.with_query
          (c.base_url ++ codes "/api/v1/changes")
          (since_query h.itoa since ++ prefix_query prefix)
        ≡ some url
      → round_trip h (watch_request h fn c url) w ≡ (ok reply, w')
      → Delivers reply.reads (frames web evs)
      → All IsSent evs
      → watch h fn c since prefix w ≡ some (ended (deliver h fn evs w').0, (deliver h fn evs w').1)
  unfolding watch cut_frame
  watch-frames c since prefix url w w' reply evs parsed sent_off delivers sent =
      let answered : (round_trip h (watch_request h fn c url) w).0 ≡ ok reply =
        ap (λ p. p.0) sent_off in
      let after : (round_trip h (watch_request h fn c url) w).1 ≡ w' = ap (λ p. p.1) sent_off in
      rw (parsed, answered, after, watch)
        (watch_loop-drained h fn [] reply.reads (frames web evs) w' delivers refl
          ∙ drained-frames evs w' sent)

-- ===== src/Client/Watch.antt =====
-- Watch: the loop over what Body.Read gives, and within it the loop over the frames.
use sealhub.Base.{ℕ, zero, suc, not, Option, none, some, List, [], ◌∷◌, ◌++◌, if◌then◌else◌, length}
use mathlib.Core.Option
use sealhub.Base.Text.{Text, codes, ◌==◌, cut_prefix, has_prefix, trim_prefix}
use sealhub.Base.Int.{Int64, lt_int}
use sealhub.Base.Result.{Result, Error, ok, err}
use sealhub.Changes.{Event}
use sealhub.Client.Types.{Sent, Read, more, eof, broken, Http, Client, auth}
use sealhub.Client.Calls.{prefix_query, round_trip}

abbrev pub data_mark : Text
data_mark = codes "data: "

abbrev pub frame_end : Text
frame_end = b'\n' ∷ b'\n' ∷ []

-- bytes.Index(buf, "\n\n"), as what stands before it and what stands behind it.
unfoldable pub cut_frame : Text → Option (Text × Text)
unfolding cut_prefix
cut_frame [] = none
cut_frame (c ∷ s) = elim (cut_prefix (c ∷ s) frame_end) [
  | some rest ↦ some ([], rest)
  | none ↦ Option.map (λ p. (c ∷ p.0, p.1)) (cut_frame s)
]

-- What the loop over the frames leaves in the buffer, or the error of the callback.
pub data Drained : Type 0 where
  left : Text → Drained
  stopped : Error → Drained

-- Watch has returned, or waits for the next Read.
pub data Watching : Type 0 where
  ended : Result (Unit {0}) → Watching
  waiting : Text → Watching

-- Whether Watch returns after a Read.
abbrev pub ends : Read → Option (Result (Unit {0}))
ends r = elim r.ending [
  | eof ↦ some (ok tt)
  | broken x ↦ some (err x)
  | more ↦ elim r.cancelled [ none ↦ none | some x ↦ some (err x) ]
]

abbrev pub since_query : (Int64 → Text) → Int64 → List (Text × Text)
since_query itoa since = if lt_int 0 since then (codes "since", itoa since) ∷ [] else []

module _ (h : Http) (fn : Event → h.World → Result (Unit {0}) × h.World) where
  unfoldable pub on_frame : Text → h.World → Result (Unit {0}) × h.World
  unfolding cut_prefix
  on_frame frame w =
      if not (has_prefix frame data_mark)
      then (ok tt, w)
      else elim (h.unmarshal_event (trim_prefix frame data_mark)) [
        | err _ ↦ (ok tt, w)
        | ok ev ↦ fn ev w
      ]

  -- The loop over the frames, on fuel: each frame shortens the buffer.
  unfoldable pub drain : ℕ → Text → h.World → Option (Drained × h.World)
  unfolding cut_frame on_frame
  drain zero buf w = none
  drain (suc n) buf w = elim (cut_frame buf) [
    | none ↦ some (left buf, w)
    | some (frame, rest) ↦
        let (res, w') = on_frame frame w in
        elim res [ err x ↦ some (stopped x, w') | ok _ ↦ drain n rest w' ]
  ]

  unfoldable pub received : Text → Text → h.World → Option (Drained × h.World)
  unfolding drain
  received buf bytes w =
      if not (bytes == [])
      then drain (suc (length (buf ++ bytes))) (buf ++ bytes) w
      else some (left buf, w)

  unfoldable pub watch_loop : Text → List Read → h.World → Option (Watching × h.World)
  unfolding received
  watch_loop buf [] w = some (waiting buf, w)
  watch_loop buf (r ∷ reads) w = elim (received buf r.bytes w) [
    | none ↦ none
    | some (stopped x, w') ↦ some (ended (err x), w')
    | some (left rest, w') ↦ elim (ends r) [
      | some out ↦ some (ended out, w')
      | none ↦ watch_loop rest reads w'
    ]
  ]

  abbrev pub watch_request : Client → Text → Sent
  watch_request c url = record {
    method = codes "GET";
    url = url;
    authorization = auth c;
    accept = codes "text/event-stream";
    content_type = [];
    if_match = [];
    body = [];
  }

  -- A URL that does not parse is a panic.
  unfoldable pub watch : Client → Int64 → Text → h.World → Option (Watching × h.World)
  unfolding round_trip watch_loop
  watch c since prefix w =
      elim (h.with_query (c.base_url ++ codes "/api/v1/changes")
        (since_query h.itoa since ++ prefix_query prefix)) [
          | none ↦ none
          | some url ↦
              let (res, w') = round_trip h (watch_request c url) w in
              elim res [
                | err x ↦ some (ended (err x), w')
                | ok reply ↦ watch_loop [] reply.reads w'
              ]
        ]

-- ===== src/Api/Events.antt =====
-- handleChanges: the events of the broker that a principal may read, at once or as a stream.
use sealhub.Base.{ℕ, Bool, false, not, ◌&&◌, Option, none, some, List, [], ◌∷◌, ◌++◌, if◌then◌else◌}
use sealhub.Base.Text.{Text, codes, ◌==◌, has_prefix}
use sealhub.Document.{git_path}
use sealhub.Changes.{Event, Broker, since, subscribe, unsubscribe}
use sealhub.Auth.Engine.{Engine, Principal, authorize, action_read}
use sealhub.Store.Git.{Outside}
use sealhub.Api.Types.{
  Request, query_value, event_stream, http_error, write_json, unauthorized_page, method_not_allowed,
  events, Web, Server, Handled,
}

-- The loops over broker.Since.
unfoldable pub visible : Engine → Principal → List Event → List Event
unfolding authorize
visible e p [] = []
visible e p (ev ∷ evs) =
    let rest = visible e p evs in
    if not (authorize e p (git_path ev.path) action_read) then rest else ev ∷ rest

-- The tests of the stream's loop on an event that the channel gave.
unfoldable pub forwards : Text → Engine → Principal → Event → Bool
unfolding authorize
forwards prefix e p ev =
    if not (prefix == []) && not (has_prefix ev.path prefix) && not (ev.path == prefix)
    then false
    else authorize e p (git_path ev.path) action_read

-- The stream's loop, over the events that the channel gives until it ends, each with the engine as
-- it then is.
unfoldable pub forward_loop : Text → Principal → List (Engine × Event) → List Event
unfolding forwards
forward_loop prefix p [] = []
forward_loop prefix p ((e, ev) ∷ received) =
    let rest = forward_loop prefix p received in if forwards prefix e p ev then ev ∷ rest else rest

-- fmt.Fprintf(w, "data: %s\n\n", b)
abbrev pub data_mark : Text
data_mark = codes "data: "

abbrev pub frame_end : Text
frame_end = b'\n' ∷ b'\n' ∷ []

unfoldable pub frame : Web → Event → Text
frame w ev = data_mark ++ w.marshal_event ev ++ frame_end

unfoldable pub frames : Web → List Event → Text
unfolding frame
frames w [] = []
frames w (ev ∷ evs) = frame w ev ++ frames w evs

abbrev pub stream_buffer : ℕ
stream_buffer = 32

abbrev pub wants_stream : Request → Bool
wants_stream r = r.accept == codes "text/event-stream"

-- Whether w.(http.Flusher) holds.
unfoldable pub flushes : Web → Bool
flushes w = w.can_flush

module _ (o : Outside) (w : Web) where
  abbrev pub broker_of : Server o → Broker
  broker_of s = s.sys.store.broker

  abbrev pub with_broker : Broker → Server o → Server o
  with_broker b s = record s { sys = record s.sys { store = record s.sys.store { broker = b } } }

  -- The events that the request asks for.
  abbrev pub asked : Request → Principal → Server o → List Event
  asked r p s = visible s.engine p (
      since (w.atoi (query_value (codes "since") r)).0 (query_value (codes "prefix") r)
        (broker_of s))

  unfoldable pub open_stream : Request → Principal → Server o → Handled o
  unfolding visible since query_value subscribe flushes
  open_stream r p s =
      if not (flushes w)
      then some (http_error 500 (codes "streaming unsupported"), s)
      else (let (ch, b) = subscribe stream_buffer (broker_of s) in
          some (record { status = 200; body = event_stream (asked r p s) ch }, with_broker b s))

  unfoldable pub handle_changes : Request → Option Principal → Server o → Handled o
  unfolding open_stream visible since query_value
  handle_changes r who s =
      if not (r.method == codes "GET") then some (method_not_allowed, s) else elim who [
        | none ↦ some (unauthorized_page, s)
        | some p ↦
            if wants_stream r
            then open_stream r p s
            else some (write_json (events (broker_of s).revision (asked r p s)), s)
      ]

  -- defer broker.Unsubscribe(ch)
  unfoldable pub close_stream : ℕ → Server o → Option (Server o)
  unfolding unsubscribe
  close_stream ch s = elim (unsubscribe ch (broker_of s)) [
    | none ↦ none
    | some b ↦ some (with_broker b s)
  ]

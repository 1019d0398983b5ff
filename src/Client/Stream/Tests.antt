-- ===== src/Client/Stream/Tests.antt =====
-- Runs of Watch over a stream that is cut between the line feeds of a frame.
use sealhub.Base.{◌≡◌, refl, none, some, List, [], ◌∷◌, ◌++◌}
use sealhub.Base.Text.{Text, codes}
use sealhub.Base.Result.{Result, ok, err, foreign}
use sealhub.Changes.{Event, upsert}
use sealhub.Api.Events.{frames}
use sealhub.Api.Tests.{web, stored}
use sealhub.Client.Types.{Read, ReadEnd, more, eof, Http, Client}
use sealhub.Client.Calls.{round_trip}
use sealhub.Client.Watch.{ended, watch, watch_loop}
use sealhub.Client.Chunks.{Delivers, last, next, watch_loop-chunks}
use sealhub.Client.Stream.{deliver, watch-frames}

abbrev client : Client
client = record { base_url = []; token = codes "root" }

abbrev at : Text → Event
at t = record { revision = 1; type = upsert; path = t; metadata = stored.metadata }

-- A world that keeps the paths that a callback was called with.
abbrev stream : List Read → Http
stream reads = record {
  World = List Text;
  Item = Text;
  check_url = λ u. none;
  with_query = λ u q. some u;
  send = λ q w. (ok (record { status = 200; body = []; reads = reads }), w);
  itoa = λ n. n ∷ [];
  marshal_apply = λ ar. [];
  marshal_exchange = λ issuer t. [];
  decode_envelope = λ r. err (foreign []);
  decode_documents = λ r. ok [];
  decode_access_token = λ r. ok [];
  unmarshal_event = λ t. ok (at t);
}

abbrev keep : Event → List Text → Result (Unit {0}) × List Text
keep ev w = (ok tt, w ++ ev.path ∷ [])

abbrev half : Text → ReadEnd → Read
half t ending = record { bytes = t; ending = ending; cancelled = none }

-- The text of two frames, cut between the line feeds of the first one.
abbrev head : Text
head = codes "data: a" ++ b'\n' ∷ []

abbrev tail : Text
tail = b'\n' ∷ (codes "data: b" ++ (b'\n' ∷ b'\n' ∷ []))

abbrev halves : List Read
halves = half head more ∷ half tail eof ∷ []

halves_deliver : Delivers halves (head ++ tail)
halves_deliver = next (half head more) _ tail refl refl (last (half tail eof) refl)

watch-frames_example :
    watch (stream halves) keep client 0 [] [] ≡ some (ended (ok tt), codes "a" ∷ codes "b" ∷ [])
unfolding frames deliver round_trip
watch-frames_example =
    watch-frames web (stream halves) keep client 0 [] (codes "/api/v1/changes") [] []
      (record { status = 200; body = []; reads = halves }) (at (codes "a") ∷ at (codes "b") ∷ [])
      refl refl halves_deliver
      (
        record { one_line = (refl, tt); read_back = refl },
        (record { one_line = (refl, tt); read_back = refl }, tt),
      )

watch_loop-chunks_example :
    (out : Result (Unit {0})) × (w' : List Text) × (watch_loop (stream halves) keep [] halves []
      ≡ some (ended out, w'))
    × (watch_loop (stream halves) keep [] (half (head ++ tail) eof ∷ []) [] ≡ some (ended out, w'))
watch_loop-chunks_example =
    watch_loop-chunks (stream halves) keep halves (half (head ++ tail) eof ∷ []) (head ++ tail) []
      halves_deliver (last (half (head ++ tail) eof) refl)

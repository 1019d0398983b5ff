-- ===== src/Client/Calls.antt =====
-- Get, List, Apply, Delete and ExchangeIDToken.
use sealhub.Base.{not, Option, none, some, List, [], ◌∷◌, ◌++◌, if◌then◌else◌, nat_eq}
use sealhub.Base.Text.{Text, codes, ◌==◌}
use sealhub.Base.Int.{Int64, lt_int}
use sealhub.Base.Result.{Result, ok, err, foreign, ◌>>=◌}
use sealhub.Document.{Envelope}
use sealhub.Client.Types.{Sent, Reply, ApplyRequest, Http, Client, auth}

abbrev pub json_type : Text
json_type = codes "application/json"

abbrev pub document_url : Client → Text → Text
document_url c path = c.base_url ++ codes "/api/v1/documents/" ++ path

abbrev pub get_request : Client → Text → Sent
get_request c path = record {
  method = codes "GET";
  url = document_url c path;
  authorization = auth c;
  accept = [];
  content_type = [];
  if_match = [];
  body = [];
}

abbrev pub prefix_query : Text → List (Text × Text)
prefix_query prefix = if not (prefix == []) then (codes "prefix", prefix) ∷ [] else []

module _ (h : Http) where
  -- http.NewRequest and Do.
  unfoldable pub round_trip : Sent → h.World → Result Reply × h.World
  round_trip q w = elim (h.check_url q.url) [ some x ↦ (err x, w) | none ↦ h.send q w ]

  unfoldable pub finish :
      {A : Type 0} → Result Reply × h.World → (Reply → Result A) → Result A × h.World
  finish (r, w) read = (r >>= read, w)

  unfoldable pub got : Reply → Result Envelope
  got r =
      if nat_eq r.status 404
      then err (foreign (codes "not found"))
      else if not (nat_eq r.status 200)
      then err (foreign (codes "get: " ++ r.body))
      else h.decode_envelope r

  unfoldable pub get : Client → Text → h.World → Result Envelope × h.World
  unfolding round_trip finish got
  get c path w = finish (round_trip (get_request c path) w) got

  -- A URL that does not parse is a panic.
  unfoldable pub list : Client → Text → h.World → Option (Result (List h.Item) × h.World)
  unfolding round_trip finish
  list c prefix w =
      elim (h.with_query (c.base_url ++ codes "/api/v1/documents") (prefix_query prefix)) [
        | none ↦ none
        | some url ↦ some (
            finish
              (round_trip
                (record {
                  method = codes "GET";
                  url = url;
                  authorization = auth c;
                  accept = [];
                  content_type = [];
                  if_match = [];
                  body = [];
                })
                w)
              h.decode_documents)
      ]

  abbrev pub put_request : Client → Text → ApplyRequest → Sent
  put_request c path ar = record {
    method = codes "PUT";
    url = document_url c path;
    authorization = auth c;
    accept = [];
    content_type = json_type;
    if_match = if lt_int 0 ar.expected_version then h.itoa ar.expected_version else [];
    body = h.marshal_apply ar;
  }

  unfoldable pub applied : Reply → Result Envelope
  applied r =
      if nat_eq r.status 409
      then err (foreign (codes "conflict"))
      else if not (nat_eq r.status 200)
      then err (foreign (codes "apply: " ++ r.body))
      else h.decode_envelope r

  unfoldable pub apply : Client → Text → ApplyRequest → h.World → Result Envelope × h.World
  unfolding round_trip finish applied
  apply c path ar w = finish (round_trip (put_request c path ar) w) applied

  unfoldable pub deleted : Reply → Result (Unit {0})
  deleted r =
      if not (nat_eq r.status 204) then err (foreign (codes "delete: " ++ r.body)) else ok tt

  unfoldable pub delete : Client → Text → Int64 → h.World → Result (Unit {0}) × h.World
  unfolding round_trip finish deleted
  delete c path version w =
      finish
        (round_trip
          (record {
            method = codes "DELETE";
            url =
                document_url c path
                ++ (if lt_int 0 version then codes "?version=" ++ h.itoa version else []);
            authorization = auth c;
            accept = [];
            content_type = [];
            if_match = [];
            body = [];
          })
          w)
        deleted

  unfoldable pub exchange_id_token : Client → Text → Text → h.World → Result Text × h.World
  unfolding round_trip finish
  exchange_id_token c issuer id_token w =
      finish
        (round_trip
          (record {
            method = codes "POST";
            url = c.base_url ++ codes "/api/v1/auth/token";
            authorization = [];
            accept = [];
            content_type = json_type;
            if_match = [];
            body = h.marshal_exchange issuer id_token;
          })
          w)
        h.decode_access_token

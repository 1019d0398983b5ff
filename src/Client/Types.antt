-- ===== src/Client/Types.antt =====
-- The client of pkg/client/client.go, with what it uses of net/http, net/url and encoding/json.
use sealhub.Base.{ℕ, Bool, not, ◌&&◌, Option, List, [], ◌∷◌, ◌++◌, if◌then◌else◌, nat_eq}
use sealhub.Base.Text.{Text, codes, ◌==◌}
use sealhub.Base.Int.{Int64}
use sealhub.Base.Result.{Result, Error}
use sealhub.Document.{Envelope}
use sealhub.Changes.{Event}

-- A request that is sent; a header that is not set is empty.
pub record Sent : Type 0 where
  pub method : Text
  pub url : Text
  pub authorization : Text
  pub accept : Text
  pub content_type : Text
  pub if_match : Text
  pub body : Text

-- How a call of Body.Read ends, beside the bytes that it gives.
pub data ReadEnd : Type 0 where
  more eof : ReadEnd
  broken : Error → ReadEnd

-- `cancelled` is ctx.Err() where the context is done after the call.
pub record Read : Type 0 where
  pub bytes : Text
  pub ending : ReadEnd
  pub cancelled : Option Error

-- A response: `body` is what io.ReadAll gives, also beside an error, and `reads` are the calls of
-- Read, one after the other, as far as they have returned.
pub record Reply : Type 0 where
  pub status : ℕ
  pub body : Text
  pub reads : List Read

pub record ApplyRequest : Type 0 where
  pub document : Text
  pub content_type : Text
  pub encrypt : Option Bool
  pub expected_version : Int64

-- The libraries, and the world that a request and a callback of Watch change. `check_url` is the error
-- of http.NewRequest, which is that of the URL; `with_query` parses a URL, sets keys in its query and
-- writes it, and is `none` where the URL does not parse.
pub record Http : Type 1 where
  pub World : Type 0
  pub Item : Type 0
  pub check_url : Text → Option Error
  pub with_query : Text → List (Text × Text) → Option Text
  pub send : Sent → World → Result Reply × World
  pub itoa : Int64 → Text
  pub marshal_apply : ApplyRequest → Text
  pub marshal_exchange : Text → Text → Text
  pub decode_envelope : Reply → Result Envelope
  pub decode_documents : Reply → Result (List Item)
  pub decode_access_token : Reply → Result Text
  pub unmarshal_event : Text → Result Event

pub record Client : Type 0 where
  pub base_url : Text
  pub token : Text

-- strings.TrimRight(s, "/")
unfoldable pub trim_slashes : Text → Text
trim_slashes [] = []
trim_slashes (c ∷ s) =
    let rest = trim_slashes s in if nat_eq c b'/' && (rest == []) then [] else c ∷ rest

unfoldable pub new_client : Text → Text → Client
unfolding trim_slashes
new_client base_url token = record { base_url = trim_slashes base_url; token = token }

abbrev pub auth : Client → Text
auth c = if not (c.token == []) then codes "Bearer " ++ c.token else []

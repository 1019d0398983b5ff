-- ===== src/Hub/Token.antt =====
-- runTokenCreate, randomToken and appendUnique.
use sealhub.Base.{ℕ, ◌||◌, none, List, [], ◌∷◌, ◌++◌, if◌then◌else◌, any, nat_eq, length}
use sealhub.Base.Text.{Text, codes, ◌==◌}
use sealhub.Base.Result.{Result, ok, err, foreign, ◌>>=◌}
use sealhub.Document.{Envelope}
use sealhub.Auth.Engine.{TokenRecord}
use sealhub.Auth.Bearer.{Bcrypt, hash_token}
use sealhub.Client.Types.{ApplyRequest, Http, Client, new_client}
use sealhub.Client.Calls.{apply}

abbrev pub id_flag : Text
id_flag = codes "--id"

abbrev pub read_flag : Text
read_flag = codes "--read"

abbrev pub write_flag : Text
write_flag = codes "--write"

unfoldable pub append_unique : List Text → Text → List Text
append_unique slice v = if any (λ s. s == v) slice then slice else slice ++ v ∷ []

-- The variables of the loop over the arguments.
pub record Wanted : Type 0 where
  pub id : Text
  pub paths : List Text
  pub actions : List Text

abbrev pub nothing_wanted : Wanted
nothing_wanted = record { id = []; paths = []; actions = [] }

abbrev pub with_scope : Text → Text → Wanted → Wanted
with_scope action path s = record s {
  paths = s.paths ++ path ∷ [];
  actions = append_unique s.actions action;
}

-- The loop; a flag that is the last argument has no value.
unfoldable pub scan : Wanted → List Text → Wanted
unfolding append_unique
scan s [] = s
scan s (flag ∷ []) = s
scan s (flag ∷ value ∷ args) =
    let named = scan (record s { id = value }) args in
    let reads = scan (with_scope (codes "read") value s) args in
    let writes = scan (with_scope (codes "write") value s) args in
    let other = scan s (value ∷ args) in
    if flag == id_flag
    then named
    else if flag == read_flag
    then reads
    else if flag == write_flag
    then writes
    else other

-- rec, which holds what the loop found and the hash of the token.
abbrev pub created : Wanted → Text → TokenRecord
created s hash = record { id = s.id; hash = hash; paths = s.paths; actions = s.actions }

-- crypto/rand, base64.RawURLEncoding, bcrypt and yaml.v3.
pub record TokenTools (h : Http) : Type 0 where
  pub random : ℕ → h.World → Result Text × h.World
  pub encode_to_string : Text → Text
  pub bcrypt : Bcrypt
  pub marshal_tokens : List TokenRecord → Result Text

abbrev pub tokens_path : Text
tokens_path = codes "system/tokens.yaml"

abbrev pub tokens_request : Text → ApplyRequest
tokens_request body = record {
  document = body;
  content_type = codes "application/yaml";
  encrypt = none;
  expected_version = 0;
}

module _ (h : Http) (t : TokenTools h) where
  unfoldable pub random_token : h.World → Result Text × h.World
  random_token w =
      let (res, w') = t.random 32 w in
      elim res [ err x ↦ (err x, w') | ok b ↦ (ok (codes "hub_" ++ t.encode_to_string b), w') ]

  -- The file of the tokens, with the one record.
  unfoldable pub tokens_body : Wanted → Text → Result Text
  unfolding hash_token
  tokens_body s plain = do hash ← hash_token t.bcrypt plain; t.marshal_tokens (created s hash ∷ [])

  abbrev pub printed : Text → Text → Result Envelope × h.World → Result (Text × Text) × h.World
  printed id plain (ok _, w) = (ok (id, plain), w)
  printed id plain (err x, w) = (err x, w)

  -- Once there is a token.
  unfoldable pub store_token : Client → Wanted → Text → h.World → Result (Text × Text) × h.World
  unfolding tokens_body apply
  store_token c s plain w = elim (tokens_body s plain) [
    | err x ↦ (err x, w)
    | ok body ↦ printed s.id plain (apply h c tokens_path (tokens_request body) w)
  ]

  -- What is printed, the identifier and the token; an error ends the command.
  unfoldable pub run_token_create :
      Text → Text → List Text → h.World → Result (Text × Text) × h.World
  unfolding scan random_token store_token new_client
  run_token_create server admin_token args w =
      let s = scan nothing_wanted args in
      if s.id == [] || nat_eq (length s.paths) 0
      then (
        err (
            foreign
              (codes "usage: hub token create --id NAME --read data/secrets/ns/** [--write ...]")),
        w,
      )
      else (let (res, w') = random_token w in
          elim res [
            | err x ↦ (err x, w')
            | ok plain ↦ store_token (new_client server admin_token) s plain w'
          ])

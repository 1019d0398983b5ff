-- ===== src/Hub/Created.antt =====
-- A token that the command created: what it sent, and what the engine does with it.
use sealhub.Base.{
  ℕ, ◌≡◌, ◌≢◌, inl, inr, refl, sym, ap, ◌∙◌, Bool, true, false, not, ◌||◌, ◌&&◌, List, [], ◌∷◌,
  ◌++◌, nat_eq, length, Bool-cases,
}
use sealhub.Base.Text.{Text, codes, ◌==◌, eq_iff}
use sealhub.Base.Result.{ok, Result-cases, ok-injective, >>=-eq-ok}
use sealhub.Document.{Envelope}
use sealhub.Auth.Engine.{token, TokenRecord, Engine, AuthYaml, unwrap, load_tokens_yaml}
use sealhub.Auth.Bearer.{Bcrypt, Jwt, hash_token, find_token, authenticate_bearer}
use sealhub.Client.Types.{Http, new_client}
use sealhub.Client.Calls.{apply}
use sealhub.Hub.Token.{
  nothing_wanted, scan, created, TokenTools, tokens_path, tokens_request, random_token, tokens_body,
  store_token, run_token_create,
}

and_false : (b : Bool) → (b && false) ≡ false
and_false true = refl
and_false false = refl

-- A password compares with its hash.
pub record IsHash (b : Bcrypt) : Type 0 where
  pub compares :
      (cost : ℕ) (plain hash : Text)
      → b.generate_from_password cost plain ≡ ok hash
      → b.compare_hash_and_password hash plain ≡ true

module _ (h : Http) (t : TokenTools h) where
  -- The file of the tokens is read back.
  pub record IsTokensCodec (y : AuthYaml) : Type 0 where
    pub reads_back :
        (ts : List TokenRecord) (raw : Text)
        → t.marshal_tokens ts ≡ ok raw
        → y.unmarshal_tokens raw ≡ ok ts

  -- What a successful run went through.
  record Created (server admin_token : Text) (args : List Text) (w' : h.World) (id plain : Text)
      : Type 0 where
    rest : Text
    prefixed : plain ≡ codes "hub_" ++ rest
    hash : Text
    hashed : hash_token t.bcrypt plain ≡ ok hash
    body : Text
    written : tokens_body h t (scan nothing_wanted args) plain ≡ ok body
    marshalled : t.marshal_tokens (created (scan nothing_wanted args) hash ∷ []) ≡ ok body
    shown : (scan nothing_wanted args).id ≡ id
    before : h.World
    env : Envelope
    sent :
        apply h (new_client server admin_token) tokens_path (tokens_request body) before
        ≡ (ok env, w')

  random_token-prefix :
      (w : h.World) (plain : Text)
      → (random_token h t w).0 ≡ ok plain
      → (rest : Text) × (plain ≡ codes "hub_" ++ rest)
  unfolding random_token
  random_token-prefix w plain e = elim (Result-cases (t.random 32 w).0) [
    | inl (b, z) ↦ (let k = rw (z, random_token) at e in (t.encode_to_string b, cc))
    | inr (x, z) ↦ (let k = rw (z, random_token) at e in cc)
  ]

  store_token-Created :
      (server admin_token : Text) (args : List Text) (w w' : h.World)
      (id plain printed_plain : Text)
      → (rest : Text) × (plain ≡ codes "hub_" ++ rest)
      → store_token h t (new_client server admin_token) (scan nothing_wanted args) plain w
        ≡ (ok (id, printed_plain), w')
      → Created server admin_token args w' id printed_plain
  unfolding store_token tokens_body
  store_token-Created server admin_token args w w' id plain printed_plain (rest, p) e =
      elim (Result-cases (tokens_body h t (scan nothing_wanted args) plain)) [
        | inr (x, z) ↦ (let k = rw (z, store_token) at e in cc)
        | inl (body, z) ↦
            let (hash, hashed, marshalled) =
              >>=-eq-ok (hash_token t.bcrypt plain)
                (λ hash. t.marshal_tokens (created (scan nothing_wanted args) hash ∷ [])) z in
            elim (Result-cases
              (apply h (new_client server admin_token) tokens_path (tokens_request body) w).0) [
                | inr (x, f) ↦ (let k = rw (z, store_token, f) at e in cc)
                | inl (env, f) ↦
                    let k = rw (z, f, store_token) at e in
                    let ids : (scan nothing_wanted args).id ≡ id = cc in
                    let same : plain ≡ printed_plain = cc in
                    let sent_to =
                      apply h (new_client server admin_token) tokens_path (tokens_request body) w in
                    record {
                      rest = rest;
                      prefixed = sym same ∙ p;
                      hash = hash;
                      hashed = ap (hash_token t.bcrypt) (sym same) ∙ hashed;
                      body = body;
                      written = ap (tokens_body h t (scan nothing_wanted args)) (sym same) ∙ z;
                      marshalled = marshalled;
                      shown = ids;
                      before = w;
                      env = env;
                      sent = ap (λ x. (x, sent_to.1)) f ∙ ap (λ y. (ok env, y)) (ap (λ y. y.1) k);
                    }
              ]
      ]

  run_token_create-Created :
      (server admin_token : Text) (args : List Text) (w w' : h.World) (id plain : Text)
      → run_token_create h t server admin_token args w ≡ (ok (id, plain), w')
      → Created server admin_token args w' id plain
  unfolding run_token_create
  run_token_create-Created server admin_token args w w' id plain e =
      let s = scan nothing_wanted args in
      elim (Bool-cases (s.id == [] || nat_eq (length s.paths) 0)) [
        | inl usage ↦ (let k = rw (usage, run_token_create) at e in cc)
        | inr fine ↦ elim (Result-cases (random_token h t w).0) [
          | inr (x, z) ↦ (let k = rw (fine, z, run_token_create) at e in cc)
          | inl (made, z) ↦
              store_token-Created server admin_token args (random_token h t w).1 w' id made plain
                (random_token-prefix w made z) (rw (fine, z, run_token_create) at e)
        ]
      ]

  -- Let the file of the tokens be read back, and passwords compare with their hashes. If the command
  -- prints an identifier and a token, for which it writes a file of the tokens, then the client's Apply
  -- sent this file, and an engine that loads it has the created record as its only service token and
  -- takes the printed token as the one with the printed identifier, unless it is the bootstrap token.
  pub run_token_create-authenticate_bearer :
      (y : AuthYaml)
      → IsTokensCodec y
      → IsHash t.bcrypt
      → (server admin_token : Text) (args : List Text) (w w' : h.World) (id plain body raw : Text)
        (j : Jwt) (now : ℕ) (e : Engine)
      → run_token_create h t server admin_token args w ≡ (ok (id, plain), w')
      → tokens_body h t (scan nothing_wanted args) plain ≡ ok body
      → unwrap y raw ≡ body
      → plain ≢ e.bootstrap_token
      → ((before : h.World) × (env : Envelope) × (apply h
              (new_client server admin_token)
              tokens_path
              (tokens_request body)
              before
            ≡ (ok env, w')))
        × ((hash : Text) × (e' : Engine) × (load_tokens_yaml y raw e ≡ ok e')
            × (e'.service_tokens ≡ created (scan nothing_wanted args) hash ∷ [])
            × (authenticate_bearer t.bcrypt j now e' plain
                ≡ ok (record { kind = token; id = id; groups = [] })))
  unfolding load_tokens_yaml authenticate_bearer find_token hash_token ◌==◌
  run_token_create-authenticate_bearer y codec hashes server admin_token args w w' id plain body raw
        j now e ran written here other =
      let made = run_token_create-Created server admin_token args w w' id plain ran in
      let same : made.body ≡ body = ok-injective (sym made.written ∙ written) in
      let loads : y.unmarshal_tokens (unwrap y raw)
          ≡ ok (created (scan nothing_wanted args) made.hash ∷ []) =
        ap y.unmarshal_tokens (here ∙ sym same) ∙ codec.reads_back _ made.body made.marshalled in
      let full : (plain == []) ≡ false = ap (λ p. p == []) made.prefixed in
      let no_root : (plain == e.bootstrap_token) ≡ false =
        elim (Bool-cases (plain == e.bootstrap_token)) [
          | inl root ↦ absurd (other ((eq_iff plain e.bootstrap_token).0 root))
          | inr differs ↦ differs
        ] in
      let hit : t.bcrypt.compare_hash_and_password made.hash plain ≡ true =
        hashes.compares _ plain made.hash made.hashed in
      (
        (
          made.before,
          made.env,
          ap
                (λ b.
                  apply h (new_client server admin_token) tokens_path (tokens_request b)
                    made.before)
                (sym same)
              ∙ made.sent,
        ),
        (
          made.hash,
          record e { service_tokens = created (scan nothing_wanted args) made.hash ∷ [] },
          rw (loads, load_tokens_yaml) refl,
          refl,
          rw
              (
                full,
                no_root,
                hit,
                authenticate_bearer,
                find_token,
                and_false (not (e.bootstrap_token == [])),
                made.shown,
              )
              refl,
        ),
      )

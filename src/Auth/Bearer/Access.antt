-- ===== src/Auth/Bearer/Access.antt =====
-- Which requests reach the handlers, and as whom.
use sealhub.Base.{
  ℕ, ◌+◌, ◌≤◌, ◌<◌, ◌≡◌, ◌≢◌, ◌↔◌, ◌⊎◌, inl, inr, refl, sym, ap, ◌∙◌, true, not, ◌&&◌, none, some,
  ◌++◌, [], List, ◌∷◌, arith, Bool-cases, Option-cases, Any, Any-imp, and_iff, or_iff,
}
use sealhub.Base.Text.{
  Text, codes, ◌==◌, eq_iff, cut_prefix, cut_prefix-append, eq_append_of_cut_prefix,
}
use sealhub.Base.Result.{ok, >>=-eq-ok}
use sealhub.Auth.Engine.{Principal, token, oidc, TokenRecord, Engine}
use sealhub.Auth.Bearer.{
  Bcrypt, Jwt, IsSound, hs256, ParsedToken, mint_api_jwt, key_function, parse_api_jwt, find_token,
  bootstrap_principal, authenticate_bearer, Incoming, anonymous, identified, bearer, is_public,
  check_header, middleware,
}

-- The routes that need no principal.
abbrev pub IsPublic : Incoming → Type 0
IsPublic r =
    (r.path ≡ codes "/healthz")
    ⊎ (r.path ≡ codes "/readyz")
    ⊎ (r.path ≡ codes "/metrics")
    ⊎ ((r.path ≡ codes "/api/v1/auth/providers") × (r.method ≡ codes "GET"))
    ⊎ ((r.path ≡ codes "/api/v1/auth/token") × (r.method ≡ codes "POST"))

is_public_iff : (r : Incoming) → (is_public r ≡ true) ↔ IsPublic r
unfolding is_public
is_public_iff r = or_iff _ _ (eq_iff r.path _) (
    or_iff _ _ (eq_iff r.path _) (
      or_iff _ _ (eq_iff r.path _) (
        or_iff _ _ (and_iff _ _ (eq_iff r.path _) (eq_iff r.method _))
          (and_iff _ _ (eq_iff r.path _) (eq_iff r.method _)))))

module _ (h : Bcrypt) (j : Jwt) (now : ℕ) (e : Engine) where
  check_header-ne-anonymous : (authz : Text) → check_header h j now e authz ≢ anonymous
  unfolding check_header
  check_header-ne-anonymous authz k = ground arith

  check_header_iff :
      (authz : Text) (p : Principal)
      → (check_header h j now e authz ≡ identified p)
        ↔ ((tok : Text) × (authz ≡ bearer ++ tok) × (authenticate_bearer h j now e tok ≡ ok p))
  unfolding check_header
  check_header_iff authz p = (to, from)
    where
      to :
          check_header h j now e authz ≡ identified p
          → (tok : Text) × (authz ≡ bearer ++ tok) × (authenticate_bearer h j now e tok ≡ ok p)
      to k = elim (Option-cases (cut_prefix authz bearer)) [
        | inl missing ↦ cc (rw (missing, check_header) at k)
        | inr (tok, cut) ↦
            let k' = rw (cut, check_header) at k in
            (tok, eq_append_of_cut_prefix authz bearer cut, ground arith)
      ]

      from :
          (tok : Text) × (authz ≡ bearer ++ tok) × (authenticate_bearer h j now e tok ≡ ok p)
          → check_header h j now e authz ≡ identified p
      from (tok, same, known) = rw (same, cut_prefix-append bearer tok, known)

  -- A request passes without a principal exactly on a public route, and as a principal exactly
  -- elsewhere, with a bearer token that is authenticated as that principal.
  pub middleware_iff :
      (r : Incoming) (p : Principal)
      → ((middleware h j now e r ≡ anonymous) ↔ IsPublic r)
        × ((middleware h j now e r ≡ identified p) ↔ (
            ¬ IsPublic r
            × ((tok : Text) × (r.authorization ≡ bearer ++ tok)
                × (authenticate_bearer h j now e tok ≡ ok p))))
  unfolding middleware
  middleware_iff r p =
      let checked = check_header_iff r.authorization p in
      elim (Bool-cases (is_public r)) [
        | inl free ↦
            let public = (is_public_iff r).0 free in
            rw free (((λ _. public), (λ _. refl)), ((λ k. cc), (λ k. absurd (k.0 public))))
        | inr closed ↦
            let private : ¬ IsPublic r = λ q. cc ((is_public_iff r).1 q) in
            rw closed (
              (
                (λ k. absurd (check_header-ne-anonymous r.authorization k)),
                (λ q. absurd (private q)),
              ),
              ((λ k. (private, checked.0 k)), (λ k. checked.1 k.1)),
            )
      ]

  find_token_sound :
      (tok : Text) (trs : List TokenRecord) (tr : TokenRecord)
      → find_token h tok trs ≡ some tr
      → Any (λ u. (h.compare_hash_and_password u.hash tok ≡ true) × (u ≡ tr)) trs
  unfolding find_token
  find_token_sound tok [] tr k = cc
  find_token_sound tok (u ∷ trs) tr k = elim (Bool-cases (h.compare_hash_and_password u.hash tok)) [
    | inl same ↦ inl (same, ground arith)
    | inr other ↦ inr (find_token_sound tok trs tr (rw other at k))
  ]

  parse_api_jwt_sound :
      (tok : Text) (p : Principal)
      → parse_api_jwt j now e tok ≡ ok p
      → (p.kind ≡ oidc)
        × ((t : ParsedToken) × (j.parse_with_claims now tok (key_function e.jwt_secret) ≡ ok t)
            × (t.valid ≡ true)
            × (p.id ≡ t.claims.subject)
            × (p.groups ≡ t.claims.groups))
  unfolding parse_api_jwt
  parse_api_jwt_sound tok p k =
      let (t, parsed, rest) =
        >>=-eq-ok (j.parse_with_claims now tok (key_function e.jwt_secret)) _ k in
      (ground arith, (t, parsed, ground arith, ground arith, ground arith))

  -- Who a principal is: the holder of the bootstrap token, where one is set; the holder of a
  -- service token whose hash is stored; or the subject of a valid token of this server.
  abbrev pub IsHolder : Text → Principal → Type 0
  IsHolder tok p =
      ((p ≡ bootstrap_principal) × (tok ≡ e.bootstrap_token))
      ⊎ ((p.kind ≡ token)
          × Any (λ tr. (h.compare_hash_and_password tr.hash tok ≡ true) × (tr.id ≡ p.id))
              e.service_tokens)
      ⊎ ((p.kind ≡ oidc)
          × ((t : ParsedToken) × (j.parse_with_claims now tok (key_function e.jwt_secret) ≡ ok t)
              × (t.valid ≡ true)
              × (p.id ≡ t.claims.subject)
              × (p.groups ≡ t.claims.groups)))

  -- A token that is authenticated is not empty, and its holder is the principal.
  pub authenticate_bearer_sound :
      (tok : Text) (p : Principal)
      → authenticate_bearer h j now e tok ≡ ok p
      → (tok ≢ []) × IsHolder tok p
  unfolding authenticate_bearer
  authenticate_bearer_sound tok p k = (
    (λ empty. ground (arith, eq_iff tok [])),
    elim (Bool-cases (not (e.bootstrap_token == []) && tok == e.bootstrap_token)) [
      | inl first ↦
          inl (ground (arith, eq_iff tok []), ground (arith, eq_iff tok e.bootstrap_token))
      | inr other ↦ elim (Option-cases (find_token h tok e.service_tokens)) [
        | inl unknown ↦ inr (inr (parse_api_jwt_sound tok p (ground (arith, eq_iff tok []))))
        | inr (tr, found) ↦
            let same : p ≡ record { kind = token; id = tr.id; groups = [] } =
              ground (arith, eq_iff tok []) in
            inr (
              inl (
                ap (λ (q : Principal). q.kind) same,
                Any-imp _ _ e.service_tokens
                    (λ u q. (
                      q.0,
                      ap (λ (v : TokenRecord). v.id) q.1 ∙ sym (ap (λ (q : Principal). q.id) same),
                    ))
                    (find_token_sound tok e.service_tokens tr found),
              ))
      ]
    ],
  )

  -- With a sound jwt library, a token that MintAPIJWT made and that is not empty is authenticated
  -- as its subject with its groups from when it was issued until it expires, unless it is the
  -- bootstrap token or has the hash of a service token.
  pub authenticate_bearer-mint_api_jwt :
      IsSound j
      → (issued ttl : ℕ) (sub iss tok : Text) (groups : List Text)
      → mint_api_jwt j issued e sub iss groups ttl ≡ ok tok
      → issued ≤ now
      → now < issued + ttl
      → tok ≢ []
      → tok ≢ e.bootstrap_token
      → find_token h tok e.service_tokens ≡ none
      → authenticate_bearer h j now e tok ≡ ok (record { kind = oidc; id = sub; groups = groups })
  unfolding authenticate_bearer mint_api_jwt
  authenticate_bearer-mint_api_jwt sound issued ttl sub iss tok groups minted le lt full other
        unknown =
      let parsed =
        sound.parses hs256 _ e.jwt_secret tok now (key_function e.jwt_secret) minted refl lt le in
      rw (unknown, parsed) (ground (arith, eq_iff tok [], eq_iff tok e.bootstrap_token))

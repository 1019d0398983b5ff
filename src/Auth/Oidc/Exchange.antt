-- ===== src/Auth/Oidc/Exchange.antt =====
-- When an id_token is accepted, and when its check panics.
use sealhub.Base.{
  ℕ, ◌≡◌, ◌≢◌, ◌↔◌, ◌⊎◌, inl, inr, sym, ◌∙◌, Option, none, some, [], List, arith, Option-cases,
}
use sealhub.Base.Text.{Text, codes, eq_iff}
use sealhub.Base.Result.{Result, ok, err, Error, unknown_issuer, issuer_mismatch, Result-cases}
use sealhub.Auth.Engine.{IssuerConfig, Engine}
use sealhub.Auth.Oidc.{
  MapClaims, UnverifiedJwt, find_issuer, string_claim, check_expiry, check_claims,
  validate_id_token,
}

module _ (j : UnverifiedJwt) (now : ℕ) (e : Engine) (issuer_name id_token : Text) where
  -- The issuer is known, the token parses, and it names no issuer or that one.
  pub record IsExchangeable (claims : MapClaims) : Type 0 where
    pub issuer : IssuerConfig
    pub found : find_issuer issuer_name e.issuers ≡ some issuer
    pub parsed : j.parse_unverified id_token ≡ ok claims
    pub named :
        (string_claim claims (codes "iss") ≡ [])
        ⊎ (string_claim claims (codes "iss") ≡ issuer.issuer)

  check_claims_fits :
      (ic : IssuerConfig) (claims : MapClaims)
      → (string_claim claims (codes "iss") ≡ []) ⊎ (string_claim claims (codes "iss") ≡ ic.issuer)
      → check_claims j now ic claims ≡ check_expiry j now claims
  unfolding check_claims
  check_claims_fits ic claims fits =
      let iss = string_claim claims (codes "iss") in
      ground (arith, eq_iff iss [], eq_iff iss ic.issuer)

  check_claims_inv :
      (ic : IssuerConfig) (claims : MapClaims)
      → (check_claims j now ic claims ≡ some (err issuer_mismatch))
        ⊎ ((string_claim claims (codes "iss") ≡ [])
            ⊎ (string_claim claims (codes "iss") ≡ ic.issuer))
  unfolding check_claims
  check_claims_inv ic claims =
      let iss = string_claim claims (codes "iss") in
      ground (arith, eq_iff iss [], eq_iff iss ic.issuer)

  -- An outcome that is no refusal comes from the check of the expiry.
  outcome_iff :
      (x : Option (Result (Text × List Text)))
      → ((y : Error) → x ≢ some (err y))
      → (validate_id_token j now e issuer_name id_token ≡ x)
        ↔ ((claims : MapClaims) × IsExchangeable claims × (check_expiry j now claims ≡ x))
  unfolding validate_id_token
  outcome_iff x accepted = (to, from)
    where
      to :
          validate_id_token j now e issuer_name id_token ≡ x
          → (claims : MapClaims) × IsExchangeable claims × (check_expiry j now claims ≡ x)
      to k = elim (Option-cases (find_issuer issuer_name e.issuers)) [
        | inl unknown ↦
            absurd (accepted unknown_issuer (sym (rw (unknown, validate_id_token) at k)))
        | inr (ic, found) ↦ elim (Result-cases (j.parse_unverified id_token)) [
          | inr (y, bad) ↦ absurd (accepted y (sym (rw (found, bad, validate_id_token) at k)))
          | inl (claims, parsed) ↦
              let k' : check_claims j now ic claims ≡ x =
                rw (found, parsed, validate_id_token) at k in
              elim (check_claims_inv ic claims) [
                | inl mismatch ↦ absurd (accepted issuer_mismatch (sym k' ∙ mismatch))
                | inr fits ↦ (
                  claims,
                  record { issuer = ic; found = found; parsed = parsed; named = fits },
                  sym (check_claims_fits ic claims fits) ∙ k',
                )
              ]
        ]
      ]

      from :
          (claims : MapClaims) × IsExchangeable claims × (check_expiry j now claims ≡ x)
          → validate_id_token j now e issuer_name id_token ≡ x
      from (claims, ex, k) =
          rw (ex.found, ex.parsed, validate_id_token)
            (check_claims_fits ex.issuer claims ex.named ∙ k)

  check_expiry-none_iff :
      (claims : MapClaims)
      → (check_expiry j now claims ≡ none) ↔ (j.get_expiration_time claims ≡ ok none)
  unfolding check_expiry
  check_expiry-none_iff claims = ground arith

  -- The check panics exactly on a token that would otherwise be accepted and has no expiry.
  pub validate_id_token-panic_iff :
      (validate_id_token j now e issuer_name id_token ≡ none)
      ↔ ((claims : MapClaims) × IsExchangeable claims × (j.get_expiration_time claims ≡ ok none))
  validate_id_token-panic_iff =
      let (to, from) = outcome_iff none (λ y q. cc) in
      (
        (λ k. let (claims, ex, q) = to k in (claims, ex, (check_expiry-none_iff claims).0 q)),
        (λ k. from (k.0, k.1, (check_expiry-none_iff k.0).1 k.2)),
      )

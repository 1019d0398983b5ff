-- ===== src/Api/Confined/System.antt =====
-- The handlers of the providers and of the tokens are confined.
use Prim.Native.Nat.{◌/◌}
use sealhub.Base.{◌≡◌, inl, inr, refl, Option, some, List, Bool-cases, Option-cases}
use sealhub.Base.Text.{Text, codes, ◌==◌}
use sealhub.Base.Result.{Result, ok, err, Result-cases}
use sealhub.Auth.Engine.{Engine, Principal}
use sealhub.Auth.Oidc.{validate_id_token}
use sealhub.Auth.Bearer.{mint_api_jwt}
use sealhub.Store.Git.{Outside}
use sealhub.Store.Documents.{read_system_file}
use sealhub.Api.Types.{Request, Answer, Server, Web}
use sealhub.Api.System.{
  reload_issuers, exchanged, second, eight_hours, handle_providers, handle_auth_token, issuers_file,
}
use sealhub.Api.Confined.{Confined}
use sealhub.Api.Confined.Answers.{Silent, quiet, returned}

module _ (o : Outside) (w : Web) (r : Request) where
  reload_issuers-sys : (s : Server o) → (reload_issuers o w s).sys ≡ s.sys
  unfolding reload_issuers
  reload_issuers-sys s = elim (Result-cases (read_system_file o issuers_file s.sys)) [
    | inl (raw, e) ↦ rw (e, reload_issuers) refl
    | inr (x, e) ↦ rw (e, reload_issuers) refl
  ]

  pub handle_providers-Confined :
      (who : Option Principal) (s : Server o) (a : Answer) (s' : Server o)
      → handle_providers o w r s ≡ some (a, s')
      → Confined o r who s a s'
  unfolding handle_providers
  handle_providers-Confined who s a s' h = elim (Bool-cases (r.method == codes "GET")) [
    | inl get ↦
        returned o r who s a _ _ s' (quiet o r who s _ _ (λ q d. d) (reload_issuers-sys s))
          (rw (get, handle_providers) at h)
    | inr other ↦
        returned o r who s a _ _ s' (quiet o r who s _ _ (λ q d. d) refl)
          (rw (other, handle_providers) at h)
  ]

  exchanged-Silent :
      (issuer : Text) (e : Engine) (v : Result (Text × List Text))
      → Silent r (exchanged o w issuer e v).body
  unfolding exchanged
  exchanged-Silent issuer e (err x) q d = d
  exchanged-Silent issuer e (ok (sub, groups)) q d =
      elim (Result-cases (mint_api_jwt w.jwt (w.now / second) e sub issuer groups eight_hours)) [
        | inl (t, k) ↦ absurd (rw (k, exchanged) at d)
        | inr (x, k) ↦ absurd (rw (k, exchanged) at d)
      ]

  pub handle_auth_token-Confined :
      (who : Option Principal) (s : Server o) (a : Answer) (s' : Server o)
      → handle_auth_token o w r s ≡ some (a, s')
      → Confined o r who s a s'
  unfolding handle_auth_token
  handle_auth_token-Confined who s a s' h = elim (Bool-cases (r.method == codes "POST")) [
    | inr other ↦
        returned o r who s a _ _ s' (quiet o r who s _ _ (λ q d. d) refl)
          (rw (other, handle_auth_token) at h)
    | inl post ↦ elim (Result-cases (w.decode_token_request r.body)) [
      | inr (x, e) ↦
          returned o r who s a _ _ s' (quiet o r who s _ _ (λ q d. d) refl)
            (rw (post, e, handle_auth_token) at h)
      | inl (req, e) ↦
          elim (Option-cases
            (validate_id_token w.unverified w.now s.engine req.issuer req.id_token)) [
              | inl z ↦ (let h' = rw (post, e, z, handle_auth_token) at h in cc)
              | inr (v, z) ↦
                  returned o r who s a _ _ s'
                    (quiet o r who s (exchanged o w req.issuer s.engine v) s
                      (exchanged-Silent req.issuer s.engine v) refl)
                    (rw (post, e, z, handle_auth_token) at h)
            ]
    ]
  ]

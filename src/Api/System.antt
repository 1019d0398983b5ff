-- ===== src/Api/System.antt =====
-- handleProviders, handleAuthToken and ReloadSystemAuth.
use sealhub.Base.{ℕ, not, none, some, List, [], map, if◌then◌else◌, ◌*◌}
use Prim.Native.Nat.{◌/◌}
use sealhub.Base.Text.{Text, codes, ◌==◌}
use sealhub.Base.Result.{Result, ok, err}
use sealhub.Auth.Engine.{Engine, unwrap, load_tokens_yaml, load_issuers_yaml}
use sealhub.Auth.Bearer.{mint_api_jwt}
use sealhub.Auth.Oidc.{validate_id_token}
use sealhub.Store.Git.{Outside}
use sealhub.Store.Documents.{read_system_file}
use sealhub.Api.Types.{
  Request, Answer, http_error, failed, write_json, method_not_allowed, providers, access_token, Web,
  Server, Handled,
}

abbrev pub tokens_file : Text
tokens_file = codes "system/tokens.yaml"

abbrev pub issuers_file : Text
issuers_file = codes "system/issuers.yaml"

-- _ = load(raw): an engine that does not load stays as it is.
abbrev pub or_keep : Result Engine → Engine → Engine
or_keep (ok e) old = e
or_keep (err _) old = old

-- In nanoseconds.
abbrev pub second : ℕ
second = 1000000000

-- In seconds.
abbrev pub eight_hours : ℕ
eight_hours = 8 * 3600

module _ (o : Outside) (w : Web) where
  -- The engine after reading the file of the issuers, and with the file of the tokens before it.
  unfoldable pub reload_issuers : Server o → Server o
  unfolding load_issuers_yaml read_system_file
  reload_issuers s = elim (read_system_file o issuers_file s.sys) [
    | err _ ↦ s
    | ok raw ↦ record s { engine = or_keep (load_issuers_yaml w.auth_yaml raw s.engine) s.engine }
  ]

  unfoldable pub reload_system_auth : Server o → Server o
  unfolding load_tokens_yaml read_system_file reload_issuers
  reload_system_auth s = reload_issuers (elim (read_system_file o tokens_file s.sys) [
    | err _ ↦ s
    | ok raw ↦ record s { engine = or_keep (load_tokens_yaml w.auth_yaml raw s.engine) s.engine }
  ])

  -- The names that are listed.
  unfoldable pub provider_names : Server o → List Text
  unfolding unwrap read_system_file
  provider_names s = elim (read_system_file o issuers_file s.sys) [
    | err _ ↦ []
    | ok raw ↦ map (λ i. i.name) (w.issuers_left (unwrap w.auth_yaml raw))
  ]

  unfoldable pub handle_providers : Request → Server o → Handled o
  unfolding reload_issuers provider_names
  handle_providers r s =
      if not (r.method == codes "GET")
      then some (method_not_allowed, s)
      else some (write_json (providers (provider_names s)), reload_issuers s)

  -- The token for a subject and its groups. Claims carry whole seconds.
  unfoldable pub exchanged : Text → Engine → Result (Text × List Text) → Answer
  unfolding mint_api_jwt
  exchanged issuer e (err x) = failed 401 x
  exchanged issuer e (ok (sub, groups)) =
      elim (mint_api_jwt w.jwt (w.now / second) e sub issuer groups eight_hours) [
        | err x ↦ failed 500 x
        | ok t ↦ write_json (access_token t)
      ]

  unfoldable pub handle_auth_token : Request → Server o → Handled o
  unfolding exchanged validate_id_token
  handle_auth_token r s =
      if not (r.method == codes "POST")
      then some (method_not_allowed, s)
      else elim (w.decode_token_request r.body) [
        | err _ ↦ some (http_error 400 (codes "bad request"), s)
        | ok req ↦ elim (validate_id_token w.unverified w.now s.engine req.issuer req.id_token) [
          | none ↦ none
          | some v ↦ some (exchanged req.issuer s.engine v, s)
        ]
      ]

-- ===== src/Api/Stable.antt =====
-- The handler keeps what the store's methods and a new subscriber keep.
use mathlib.Core.Path.{subst}
use sealhub.Base.{
  ℕ, ◌≡◌, refl, inl, inr, not, ◌&&◌, Option, none, some, [], Bool-cases, Option-cases,
}
use Prim.Native.Nat.{◌/◌}
use sealhub.Base.Text.{Text, codes, ◌==◌, has_prefix}
use sealhub.Base.Int.{Int64}
use sealhub.Base.Result.{Result, ok, err, Result-cases}
use sealhub.Document.{Envelope, default_encrypt_for_path, git_path, system_dir}
use sealhub.Changes.{subscribe}
use sealhub.Auth.Engine.{
  Principal, Engine, AuthYaml, load_issuers_yaml, authorize, action_read, action_write,
}
use sealhub.Auth.Bearer.{Passage, anonymous, identified, unauthorized, middleware}
use sealhub.Auth.Oidc.{validate_id_token}
use sealhub.Store.Git.{Outside, Sys}
use sealhub.Store.Documents.{get_document, apply, read_system_file}
use sealhub.Store.Stable.{IsStable, apply-Stays, delete-Stays}
use sealhub.Api.Types.{Request, query_value, Answer, Server, Web, Handled, PutRequest}
use sealhub.Api.System.{
  second, issuers_file, tokens_file, reload_issuers, reload_system_auth, handle_providers,
  handle_auth_token,
}
use sealhub.Api.Documents.{
  document_path, encrypt_or, expected_version, owner_of, applied, deleted, handle_document_list,
  handle_get, put_document, put_request, handle_put, handle_delete, handle_document_path,
  is_bootstrap,
}
use sealhub.Api.Events.{flushes, wants_stream, stream_buffer, open_stream, handle_changes}
use sealhub.Api.Routes.{
  Route, healthz, readyz, metrics_page, auth_providers, auth_token, document_at, document_list,
  change_list, no_route, incoming, handle_ready, run_route, route_of, serve_mux, serve,
}
pub mod System
pub mod Documents
pub mod Served

module _ (o : Outside) (P : Sys o → Type 0) (R : Engine → Type 0) where
  -- The property of the store and that of the engine.
  abbrev pub Both : Server o → Type 0
  Both s = P s.sys × R s.engine

  -- The state in which a handler answers is known.
  pub answered :
      (a b : Answer) (s t : Server o)
      → Both s
      → ◌≡◌ {A = Handled o} (some (a, s)) (some (b, t))
      → Both t
  answered a b s t p h = let e : s ≡ t = cc in subst Both e p

  -- A handler does.
  unfoldable pub Handles : (Server o → Handled o) → Type 0
  Handles h = (s t : Server o) (a : Answer) → Both s → h s ≡ some (a, t) → Both t

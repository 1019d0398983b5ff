-- ===== src/Api/Routes.antt =====
-- The routes of the server and its handler: the middleware of the engine around net/http's ServeMux.
use sealhub.Base.{Bool, not, Option, none, some, if◌then◌else◌}
use Prim.Native.Nat.{◌/◌}
use sealhub.Base.Text.{Text, codes, ◌==◌, has_prefix}
use sealhub.Auth.Engine.{Principal}
use sealhub.Auth.Bearer.{Incoming, anonymous, identified, unauthorized, middleware}
use sealhub.Store.Git.{Outside}
use sealhub.Store.Opening.{is_ready}
use sealhub.Api.Types.{
  Request, Answer, page, moved, http_error, not_found_page, unauthorized_page, Web, Server, Handled,
}
use sealhub.Api.System.{second, handle_providers, handle_auth_token}
use sealhub.Api.Documents.{documents_route, handle_document_list, handle_document_path}
use sealhub.Api.Events.{handle_changes}

abbrev pub ok_page : Text → Answer
ok_page t = record { status = 200; body = page t }

abbrev pub ready_answer : Bool → Answer
ready_answer ready =
    if not ready then http_error 503 (codes "not ready") else ok_page (codes "ready")

abbrev pub incoming : Request → Incoming
incoming r = record { method = r.method; path = r.path; authorization = r.authorization }

-- The patterns of routes(); the one with a slash at its end fits what begins with it.
pub data Route : Type 0 where
  healthz readyz metrics_page auth_providers auth_token : Route
  document_at document_list change_list no_route : Route

unfoldable pub route_of : Text → Route
route_of path =
    if path == codes "/healthz"
    then healthz
    else if path == codes "/readyz"
    then readyz
    else if path == codes "/metrics"
    then metrics_page
    else if path == codes "/api/v1/auth/providers"
    then auth_providers
    else if path == codes "/api/v1/auth/token"
    then auth_token
    else if has_prefix path documents_route
    then document_at
    else if path == codes "/api/v1/documents"
    then document_list
    else if path == codes "/api/v1/changes"
    then change_list
    else no_route

module _ (o : Outside) (w : Web) where
  unfoldable pub handle_ready : Server o → Handled o
  unfolding is_ready
  handle_ready s = some (ready_answer (is_ready s.sys.store), s)

  -- The handlers.
  unfoldable pub run_route : Route → Request → Option Principal → Server o → Handled o
  unfolding handle_ready handle_providers handle_auth_token handle_document_list
      handle_document_path handle_changes
  run_route healthz r who s = some (ok_page (codes "ok"), s)
  run_route readyz r who s = handle_ready s
  run_route metrics_page r who s = some (ok_page w.metrics, s)
  run_route auth_providers r who s = handle_providers o w r s
  run_route auth_token r who s = handle_auth_token o w r s
  run_route document_at r who s = handle_document_path o w r who s
  run_route document_list r who s = handle_document_list o w r who s
  run_route change_list r who s = handle_changes o w r who s
  run_route no_route r who s = some (not_found_page, s)

  -- ServeMux redirects a path that is not clean as it was sent, so dots that are escaped stay in the
  -- path that the handler reads.
  unfoldable pub serve_mux : Request → Option Principal → Server o → Handled o
  unfolding run_route route_of
  serve_mux r who s =
      if not (w.clean_path r.escaped_path == r.escaped_path)
      then some (record { status = 301; body = moved (w.clean_path r.escaped_path) }, s)
      else run_route (route_of (w.route_path r.escaped_path)) r who s

  -- Handler: the middleware, and the principal that it leaves in the context.
  unfoldable pub serve : Request → Server o → Handled o
  unfolding serve_mux middleware
  serve r s = elim (middleware w.bcrypt w.jwt (w.now / second) s.engine (incoming r)) [
    | unauthorized ↦ some (unauthorized_page, s)
    | anonymous ↦ serve_mux r none s
    | identified p ↦ serve_mux r (some p) s
  ]

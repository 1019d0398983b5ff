-- ===== src/Api/Stable/Served.antt =====
-- The whole handler of pkg/api/server.go.
use sealhub.Base.{ℕ, ◌≡◌, refl, inl, inr, Option, none, some, Bool-cases}
use Prim.Native.Nat.{◌/◌}
use sealhub.Base.Text.{Text, ◌==◌}
use sealhub.Base.Result.{ok}
use sealhub.Changes.{subscribe}
use sealhub.Auth.Engine.{Principal, Engine, AuthYaml, load_issuers_yaml}
use sealhub.Auth.Bearer.{Passage, anonymous, identified, unauthorized, middleware}
use sealhub.Store.Git.{Outside, Sys}
use sealhub.Store.Stable.{IsStable}
use sealhub.Api.Types.{Request, Answer, Server, Web}
use sealhub.Api.System.{second}
use sealhub.Api.Routes.{
  Route, healthz, readyz, metrics_page, auth_providers, auth_token, document_at, document_list,
  change_list, no_route, incoming, handle_ready, run_route, route_of, serve_mux, serve,
}
use sealhub.Api.Stable.{Both, answered, Handles}
use sealhub.Api.Stable.System.{
  handle_providers-Stays, handle_auth_token-Stays, handle_document_list-Stays, handle_changes-Stays,
}
use sealhub.Api.Stable.Documents.{handle_document_path-Stays}

module _ (o : Outside) (P : Sys o → Type 0) (k : IsStable o P)
    (subscribed : (n : ℕ) (s : Sys o)
      → P s
      → P (record s { store = record s.store { broker = (subscribe n s.store.broker).1 } }))
    (R : Engine → Type 0)
    (reloaded : (y : AuthYaml) (raw : Text) (e e' : Engine)
      → load_issuers_yaml y raw e ≡ ok e'
      → R e
      → R e')
    (w : Web) (r : Request) where
  run_route-Stays : (x : Route) (who : Option Principal) → Handles o P R (run_route o w x r who)
  unfolding Handles run_route handle_ready
  run_route-Stays healthz who s t a p h = answered o P R _ a s t p h
  run_route-Stays readyz who s t a p h = answered o P R _ a s t p h
  run_route-Stays metrics_page who s t a p h = answered o P R _ a s t p h
  run_route-Stays auth_providers who s t a p h = handle_providers-Stays o P R w reloaded r s t a p h
  run_route-Stays auth_token who s t a p h = handle_auth_token-Stays o P R w reloaded r s t a p h
  run_route-Stays document_at who s t a p h = handle_document_path-Stays o P k R w r who s t a p h
  run_route-Stays document_list who s t a p h = handle_document_list-Stays o P R w r who s t a p h
  run_route-Stays change_list who s t a p h =
      handle_changes-Stays o P R w r subscribed who s t a p h
  run_route-Stays no_route who s t a p h = answered o P R _ a s t p h

  serve_mux-Stays : (who : Option Principal) → Handles o P R (serve_mux o w r who)
  unfolding Handles serve_mux
  serve_mux-Stays who s t a p h =
      elim (Bool-cases (w.clean_path r.escaped_path == r.escaped_path)) [
        | inl clean ↦
            run_route-Stays (route_of (w.route_path r.escaped_path)) who s t a p
              (rw (clean, serve_mux) at h)
        | inr other ↦ answered o P R _ a s t p (rw (other, serve_mux) at h)
      ]

  pub serve-Stays :
      (s t : Server o) (a : Answer) → Both o P R s → serve o w r s ≡ some (a, t) → Both o P R t
  unfolding Handles serve
  serve-Stays s t a p h = go (middleware w.bcrypt w.jwt (w.now / second) s.engine (incoming r)) refl
    where
      go :
          (g : Passage)
          → middleware w.bcrypt w.jwt (w.now / second) s.engine (incoming r) ≡ g
          → Both o P R t
      go unauthorized e = answered o P R _ a s t p (rw (e, serve) at h)
      go anonymous e = serve_mux-Stays none s t a p (rw (e, serve) at h)
      go (identified q) e = serve_mux-Stays (some q) s t a p (rw (e, serve) at h)

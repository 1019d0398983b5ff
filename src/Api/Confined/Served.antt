-- ===== src/Api/Confined/Served.antt =====
-- Every request that the server handles is confined, and the principal behind it is the holder of
-- the token of its header.
use sealhub.Base.{◌≡◌, inl, inr, refl, Bool, true, false, Option, none, some, ◌++◌, Bool-cases}
use Prim.Native.Nat.{◌/◌}
use sealhub.Base.Text.{Text, ◌==◌}
use sealhub.Base.Result.{ok}
use sealhub.Auth.Engine.{Principal}
use sealhub.Auth.Bearer.{
  Passage, anonymous, identified, unauthorized, bearer, authenticate_bearer, middleware,
}
use sealhub.Auth.Bearer.Access.{middleware_iff}
use sealhub.Store.Git.{Outside}
use sealhub.Store.Opening.{is_ready}
use sealhub.Api.Types.{Request, Answer, Server, Web}
use sealhub.Api.System.{second}
use sealhub.Api.Routes.{
  Route, healthz, readyz, metrics_page, auth_providers, auth_token, document_at, document_list,
  change_list, no_route, incoming, handle_ready, ready_answer, run_route, route_of, serve_mux,
  serve,
}
use sealhub.Api.Confined.{Confined}
use sealhub.Api.Confined.Answers.{Silent, quiet, returned}
use sealhub.Api.Confined.System.{handle_providers-Confined, handle_auth_token-Confined}
use sealhub.Api.Confined.Documents.{handle_document_list-Confined, handle_document_path-Confined}
use sealhub.Api.Confined.Events.{handle_changes-Confined}

ready_answer-Silent : (r : Request) (b : Bool) → Silent r (ready_answer b).body
ready_answer-Silent r true q d = d
ready_answer-Silent r false q d = d

module _ (o : Outside) (w : Web) (r : Request) where
  handle_ready-Confined :
      (who : Option Principal) (s : Server o) (a : Answer) (s' : Server o)
      → handle_ready o w s ≡ some (a, s')
      → Confined o r who s a s'
  unfolding handle_ready
  handle_ready-Confined who s a s' h =
      returned o r who s a (ready_answer (is_ready s.sys.store)) s s'
        (quiet o r who s (ready_answer (is_ready s.sys.store)) s
          (ready_answer-Silent r (is_ready s.sys.store)) refl)
        h

  run_route-Confined :
      (t : Route) (who : Option Principal) (s : Server o) (a : Answer) (s' : Server o)
      → run_route o w t r who s ≡ some (a, s')
      → Confined o r who s a s'
  unfolding run_route
  run_route-Confined healthz who s a s' h =
      returned o r who s a _ _ s' (quiet o r who s _ _ (λ q d. d) refl) h
  run_route-Confined readyz who s a s' h = handle_ready-Confined who s a s' h
  run_route-Confined metrics_page who s a s' h =
      returned o r who s a _ _ s' (quiet o r who s _ _ (λ q d. d) refl) h
  run_route-Confined auth_providers who s a s' h = handle_providers-Confined o w r who s a s' h
  run_route-Confined auth_token who s a s' h = handle_auth_token-Confined o w r who s a s' h
  run_route-Confined document_at who s a s' h = handle_document_path-Confined o w r who s a s' h
  run_route-Confined document_list who s a s' h = handle_document_list-Confined o w r who s a s' h
  run_route-Confined change_list who s a s' h = handle_changes-Confined o w r who s a s' h
  run_route-Confined no_route who s a s' h =
      returned o r who s a _ _ s' (quiet o r who s _ _ (λ q d. d) refl) h

  serve_mux-Confined :
      (who : Option Principal) (s : Server o) (a : Answer) (s' : Server o)
      → serve_mux o w r who s ≡ some (a, s')
      → Confined o r who s a s'
  unfolding serve_mux
  serve_mux-Confined who s a s' h =
      elim (Bool-cases (w.clean_path r.escaped_path == r.escaped_path)) [
        | inl clean ↦
            run_route-Confined (route_of (w.route_path r.escaped_path)) who s a s'
              (rw (clean, serve_mux) at h)
        | inr other ↦
            returned o r who s a _ _ s' (quiet o r who s _ _ (λ q d. d) refl)
              (rw (other, serve_mux) at h)
      ]

  -- The principal that the middleware leaves is behind the header's token.
  abbrev pub HasToken : Option Principal → Server o → Type 0
  HasToken none s = Unit
  HasToken (some p) s =
      (tok : Text) × (r.authorization ≡ bearer ++ tok)
      × (authenticate_bearer w.bcrypt w.jwt (w.now / second) s.engine tok ≡ ok p)

  pub serve-Confined :
      (s : Server o) (a : Answer) (s' : Server o)
      → serve o w r s ≡ some (a, s')
      → (who : Option Principal) × HasToken who s × Confined o r who s a s'
  unfolding serve
  serve-Confined s a s' h =
      go (middleware w.bcrypt w.jwt (w.now / second) s.engine (incoming r)) refl
    where
      go :
          (g : Passage)
          → middleware w.bcrypt w.jwt (w.now / second) s.engine (incoming r) ≡ g
          → (who : Option Principal) × HasToken who s × Confined o r who s a s'
      go unauthorized e = (
        none,
        tt,
        returned o r none s a _ _ s' (quiet o r none s _ _ (λ q d. d) refl) (rw (e, serve) at h),
      )
      go anonymous e = (none, tt, serve_mux-Confined none s a s' (rw (e, serve) at h))
      go (identified p) e =
          let (_, token) =
            ((middleware_iff w.bcrypt w.jwt (w.now / second) s.engine (incoming r) p).1).0 e in
          (some p, token, serve_mux-Confined (some p) s a s' (rw (e, serve) at h))

-- ===== src/Api/Asks.antt =====
-- A request for a document by a principal that the server identifies, on its way to the handler of
-- its method.
use sealhub.Base.{
  ◌≡◌, ◌≢◌, inl, inr, refl, sym, ap, ◌∙◌, true, false, Option, some, [], ◌++◌, Bool-cases,
  Option-cases,
}
use mathlib.Core.Option.{get_or}
use Prim.Native.Nat.{◌/◌}
use sealhub.Base.Text.{
  Text, codes, ◌==◌, eq_iff, has_prefix, trim_prefix, cut_prefix, cut_prefix-append,
}
use sealhub.Base.Result.{ok}
use sealhub.Document.{slash}
use sealhub.Auth.Engine.{Principal}
use sealhub.Auth.Bearer.{Incoming, bearer, identified, authenticate_bearer, middleware}
use sealhub.Auth.Bearer.Access.{IsPublic, middleware_iff}
use sealhub.Store.Git.{Outside}
use sealhub.Api.Types.{Request, Server, Web}
use sealhub.Api.System.{second}
use sealhub.Api.Documents.{
  documents_route, document_path, handle_get, handle_put, handle_document_path,
}
use sealhub.Api.Routes.{incoming, document_at, run_route, route_of, serve_mux, serve}

not-IsPublic : (r : Incoming) (path : Text) → r.path ≡ documents_route ++ path → ¬ IsPublic r
unfolding ◌==◌
not-IsPublic r path at (inl h) = cc
not-IsPublic r path at (inr (inl h)) = cc
not-IsPublic r path at (inr (inr (inl h))) = cc
not-IsPublic r path at (inr (inr (inr (inl h)))) =
    let z : false ≡ true = ap (λ t. t == codes "/api/v1/auth/providers") (sym at ∙ h.0) in cc
not-IsPublic r path at (inr (inr (inr (inr h)))) =
    let z : false ≡ true = ap (λ t. t == codes "/api/v1/auth/token") (sym at ∙ h.0) in cc

trim_prefix_bare : (t p : Text) → has_prefix t p ≡ false → trim_prefix t p ≡ t
trim_prefix_bare t p h = elim (Option-cases (cut_prefix t p)) [
  | inl none_cut ↦ rw none_cut refl
  | inr (rest, cut) ↦ (let z = rw cut at h in cc)
]

put_is_not_get : (codes "PUT" == codes "GET") ≡ false
unfolding ◌==◌
put_is_not_get = refl

pub empty_false : (t : Text) → t ≢ [] → (t == []) ≡ false
empty_false t h = elim (Bool-cases (t == [])) [ inl e ↦ absurd (h ((eq_iff t []).0 e)) | inr e ↦ e ]

module _ (o : Outside) (w : Web) where
  -- A request for the document at `path`, by a principal that its header identifies.
  pub record Asks (r : Request) (method path : Text) (s : Server o) (p : Principal) : Type 0 where
    pub asked : r.method ≡ method
    pub at : r.path ≡ documents_route ++ path
    pub clean : w.clean_path r.escaped_path ≡ r.escaped_path
    pub routed : (rest : Text) × (w.route_path r.escaped_path ≡ documents_route ++ rest)
    pub tok : Text
    pub header : r.authorization ≡ bearer ++ tok
    pub known : authenticate_bearer w.bcrypt w.jwt (w.now / second) s.engine tok ≡ ok p

  route_of-document : (path : Text) → route_of (documents_route ++ path) ≡ document_at
  unfolding route_of ◌==◌ cut_prefix
  route_of-document path = refl

  serve-identified :
      (r : Request) (s : Server o) (p : Principal)
      → middleware w.bcrypt w.jwt (w.now / second) s.engine (incoming r) ≡ identified p
      → serve o w r s ≡ serve_mux o w r (some p) s
  unfolding serve
  serve-identified r s p e = rw (e, serve) refl

  serve_mux-document :
      (r : Request) (path : Text) (s : Server o) (who : Option Principal)
      → w.route_path r.escaped_path ≡ documents_route ++ path
      → w.clean_path r.escaped_path ≡ r.escaped_path
      → serve_mux o w r who s ≡ handle_document_path o w r who s
  unfolding serve_mux run_route
  serve_mux-document r path s who at clean =
      let same : (w.clean_path r.escaped_path == r.escaped_path) ≡ true =
        (eq_iff (w.clean_path r.escaped_path) r.escaped_path).1 clean in
      let route : route_of (w.route_path r.escaped_path) ≡ document_at =
        ap route_of at ∙ route_of-document path in
      rw (same, serve_mux, route) refl

  pub serve-document :
      (r : Request) (method path : Text) (s : Server o) (p : Principal)
      → Asks r method path s p
      → serve o w r s ≡ handle_document_path o w r (some p) s
  serve-document r method path s p q =
      let seen =
        ((middleware_iff w.bcrypt w.jwt (w.now / second) s.engine (incoming r) p).1).1
          (not-IsPublic (incoming r) path q.at, (q.tok, q.header, q.known)) in
      serve-identified r s p seen ∙ serve_mux-document r q.routed.0 s (some p) q.routed.1 q.clean

  -- The path that the handler reads, where the path begins with no slash.
  pub document_path-at :
      (r : Request) (path : Text)
      → r.path ≡ documents_route ++ path
      → has_prefix path slash ≡ false
      → document_path r ≡ path
  document_path-at r path at bare =
      ap (λ t. trim_prefix t slash)
        (ap (λ t. trim_prefix t documents_route) at
          ∙ ap (λ c. get_or c (documents_route ++ path)) (cut_prefix-append documents_route path))
      ∙ trim_prefix_bare path slash bare

  pub handle_document_path-put :
      (r : Request) (p : Principal) (s : Server o)
      → document_path r ≢ []
      → r.method ≡ codes "PUT"
      → handle_document_path o w r (some p) s ≡ handle_put o w (document_path r) r p s
  unfolding handle_document_path
  handle_document_path-put r p s full put =
      let some_path : (document_path r == []) ≡ false = empty_false (document_path r) full in
      let no_get : (r.method == codes "GET") ≡ false =
        ap (λ m. m == codes "GET") put ∙ put_is_not_get in
      let is_put : (r.method == codes "PUT") ≡ true = (eq_iff r.method (codes "PUT")).1 put in
      rw (some_path, no_get, is_put, handle_document_path) refl

  pub handle_document_path-get :
      (r : Request) (p : Principal) (s : Server o)
      → document_path r ≢ []
      → r.method ≡ codes "GET"
      → handle_document_path o w r (some p) s ≡ handle_get o w (document_path r) p s
  unfolding handle_document_path
  handle_document_path-get r p s full get =
      let some_path : (document_path r == []) ≡ false = empty_false (document_path r) full in
      let is_get : (r.method == codes "GET") ≡ true = (eq_iff r.method (codes "GET")).1 get in
      rw (some_path, is_get, handle_document_path) refl

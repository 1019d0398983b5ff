-- ===== src/Api/RoundTrip.antt =====
-- Puts and the gets that follow them, through the whole handler.
use sealhub.Base.{
  ℕ, ◌≡◌, ◌≢◌, inl, inr, refl, sym, ap, ◌∙◌, true, false, not, ◌&&◌, some, List, [], ◌∷◌,
  Bool-cases, Option-cases, length, All,
}
use sealhub.Base.Text.{Text, codes, has_prefix}
use sealhub.Base.Result.{Result, ok, err, version_conflict, Result-cases}
use sealhub.Document.{Envelope, IsCodec, git_path, system_dir, default_encrypt_for_path, slash}
use sealhub.Crypto.{IsAuthenticated, key_size}
use sealhub.Auth.Engine.{Principal, authorize, action_read, action_write}
use sealhub.Store.Git.{Outside, Sys, read_file_at_head}
use sealhub.Store.Documents.{apply, get_document}
use sealhub.Store.Documents.Kept.{IsWorktree}
use sealhub.Store.Documents.RoundTrip.{get_document-apply}
use sealhub.Store.Documents.Versions.{IsStale, apply-IsStale}
use sealhub.Api.Types.{Request, Server, Web, Handled, PutRequest, write_json, http_error, envelope}
use sealhub.Api.Documents.{
  is_bootstrap, encrypt_or, owner_of, applied, put_request, expected_version, put_document,
  handle_get, handle_put,
}
use sealhub.Api.Routes.{serve}
use sealhub.Api.Asks.{
  Asks, serve-document, document_path-at, handle_document_path-put, handle_document_path-get,
}

module _ (o : Outside) (w : Web) where
  -- A put that is answered with an envelope went through Apply.
  put_document-envelope :
      (path : Text) (r : Request) (p : Principal) (req : PutRequest) (s s' : Server o)
      (env : Envelope)
      → put_document o w path r p req s ≡ some (write_json (envelope env), s')
      → (t : Sys o) × (apply o path req.document req.content_type
            (encrypt_or req.encrypt (default_encrypt_for_path path))
            (expected_version o w r req)
            (owner_of p)
            s.sys
          ≡ some (ok env, t))
        × (s' ≡ record s { sys = t })
  unfolding put_document
  put_document-envelope path r p req s s' env h =
      elim (Option-cases (
        apply o path req.document req.content_type
          (encrypt_or req.encrypt (default_encrypt_for_path path)) (expected_version o w r req)
          (owner_of p) s.sys)) [
            | inl z ↦ (let h' = rw (z, put_document) at h in cc)
            | inr (res, z) ↦ after res z (rw (z, put_document) at h)
          ]
    where
      after :
          (res : Result Envelope × Sys o)
          → apply o path req.document req.content_type
              (encrypt_or req.encrypt (default_encrypt_for_path path))
              (expected_version o w r req)
              (owner_of p)
              s.sys
            ≡ some res
          → ◌≡◌ {A = Handled o} (some (applied o w s res)) (some (write_json (envelope env), s'))
          → (t : Sys o) × (apply o path req.document req.content_type
                (encrypt_or req.encrypt (default_encrypt_for_path path))
                (expected_version o w r req)
                (owner_of p)
                s.sys
              ≡ some (ok env, t))
            × (s' ≡ record s { sys = t })
      after (ok out, t) z k =
          let same : out ≡ env = cc in (t, z ∙ ap (λ e. some (ok e, t)) same, cc)
      after (err version_conflict, t) z k = cc
      after (err _, t) z k = cc

  -- A put that is answered with an envelope passed the guards.
  handle_put-envelope :
      (path : Text) (r : Request) (p : Principal) (s s' : Server o) (env : Envelope)
      → handle_put o w path r p s ≡ some (write_json (envelope env), s')
      → (req : PutRequest) × (put_document o w path r p req s
          ≡ some (write_json (envelope env), s'))
  unfolding handle_put
  handle_put-envelope path r p s s' env h =
      elim (Bool-cases (has_prefix path system_dir && not (is_bootstrap p.kind))) [
        | inl reserved ↦ (let z = rw (reserved, handle_put) at h in cc)
        | inr free ↦ elim (Bool-cases (authorize s.engine p (git_path path) action_write)) [
          | inr no_grant ↦ (let z = rw (free, no_grant, handle_put) at h in cc)
          | inl grant ↦ elim (Result-cases (put_request w r)) [
            | inr (x, e) ↦ (let z = rw (free, grant, e, handle_put) at h in cc)
            | inl (req, e) ↦ (req, rw (free, grant, e, handle_put) at h)
          ]
        ]
      ]

  -- Let the worktree read back what is written, the YAML of envelopes be read back and the cipher be
  -- authenticated, with a ring of keys of the right size, and let the store be ready. A get that is
  -- asked after a put of the same document, at a path that is not empty and begins with no slash, and
  -- that may read it, answers with the same envelope as the put, and changes nothing.
  pub serve_get-serve_put :
      IsWorktree o
      → IsCodec o.yaml
      → IsAuthenticated o.cipher
      → (r1 r2 : Request) (path : Text) (s s1 : Server o) (p1 p2 : Principal) (env : Envelope)
        (first : Text) (older : List Text)
      → ((n : ℕ) (bytes : Text) → o.draw s.sys.outside n ≡ ok bytes → length bytes ≡ n)
      → s.sys.store.keyring.keys ≡ first ∷ older
      → All (λ k. length k ≡ key_size) s.sys.store.keyring.keys
      → s.sys.store.ready ≡ true
      → path ≢ []
      → has_prefix path slash ≡ false
      → Asks o w r1 (codes "PUT") path s p1
      → serve o w r1 s ≡ some (write_json (envelope env), s1)
      → Asks o w r2 (codes "GET") path s1 p2
      → authorize s1.engine p2 (git_path path) action_read ≡ true
      → serve o w r2 s1 ≡ some (write_json (envelope env), s1)
  unfolding handle_get
  serve_get-serve_put wt codec auth r1 r2 path s s1 p1 p2 env first older drawn ring sized ready
        full bare put h get may =
      let at1 = document_path-at o w r1 path put.at bare in
      let at2 = document_path-at o w r2 path get.at bare in
      let went = handle_document_path-put o w r1 p1 s (λ e. full (sym at1 ∙ e)) put.asked in
      let handled =
        sym (
          serve-document o w r1 (codes "PUT") path s p1 put
          ∙ went
          ∙ ap (λ t. handle_put o w t r1 p1 s) at1)
        ∙ h in
      let (req, written) = handle_put-envelope path r1 p1 s s1 env handled in
      let (t, did, same) = put_document-envelope path r1 p1 req s s1 env written in
      let back =
        get_document-apply o wt codec auth s.sys t first older drawn ring sized ready path _ _ _ _ _
          env did in
      let back1 : get_document o path s1.sys ≡ ok env =
        ap (λ z. get_document o path z.sys) same ∙ back in
      serve-document o w r2 (codes "GET") path s1 p2 get
      ∙ handle_document_path-get o w r2 p2 s1 (λ e. full (sym at2 ∙ e)) get.asked
      ∙ ap (λ t. handle_get o w t p2 s1) at2
      ∙ rw (may, back1, handle_get) refl

  -- A put by a principal that may write the document, whose path is not empty, begins with no slash
  -- and is not under system/, with a body that is read and an expected version which the document does
  -- not have (or one above 1 where there is none), is answered with a conflict, and nothing is changed.
  pub serve-IsStale :
      (r : Request) (path : Text) (s : Server o) (p : Principal) (req : PutRequest)
      → path ≢ []
      → has_prefix path slash ≡ false
      → has_prefix path system_dir ≡ false
      → Asks o w r (codes "PUT") path s p
      → authorize s.engine p (git_path path) action_write ≡ true
      → put_request w r ≡ ok req
      → IsStale o (read_file_at_head o (git_path path) s.sys) (expected_version o w r req)
      → serve o w r s ≡ some (http_error 409 (codes "conflict"), s)
  unfolding handle_put put_document
  serve-IsStale r path s p req full bare plain put may read stale =
      let at = document_path-at o w r path put.at bare in
      let refused =
        apply-IsStale o path req.document req.content_type
          (encrypt_or req.encrypt (default_encrypt_for_path path)) (expected_version o w r req)
          (owner_of p) s.sys stale in
      serve-document o w r (codes "PUT") path s p put
      ∙ handle_document_path-put o w r p s (λ e. full (sym at ∙ e)) put.asked
      ∙ ap (λ t. handle_put o w t r p s) at
      ∙ rw (plain, may, read, handle_put, refused, put_document) refl

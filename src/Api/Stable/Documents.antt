-- ===== src/Api/Stable/Documents.antt =====
-- The handlers of pkg/api/server.go for one document.
use sealhub.Base.{◌≡◌, inl, inr, not, ◌&&◌, Option, none, some, [], Bool-cases, Option-cases}
use sealhub.Base.Text.{Text, codes, ◌==◌, has_prefix}
use sealhub.Base.Int.{Int64}
use sealhub.Base.Result.{Result, ok, err, Result-cases}
use sealhub.Document.{Envelope, default_encrypt_for_path, git_path, system_dir}
use sealhub.Auth.Engine.{Principal, Engine, authorize, action_read, action_write}
use sealhub.Store.Git.{Outside, Sys}
use sealhub.Store.Documents
use sealhub.Store.Documents.{get_document, apply, read_system_file}
use sealhub.Store.Stable.{IsStable, apply-Stays, delete-Stays}
use sealhub.Api.Types.{Request, query_value, Web, Handled, PutRequest}
use sealhub.Api.Documents.{
  document_path, encrypt_or, expected_version, owner_of, applied, deleted, handle_get, put_document,
  put_request, handle_put, handle_delete, handle_document_path, is_bootstrap,
}
use sealhub.Api.Stable.{Both, answered, Handles}

module _ (o : Outside) (P : Sys o → Type 0) (k : IsStable o P) (R : Engine → Type 0) (w : Web)
    (r : Request) where
  handle_get-Stays : (path : Text) (q : Principal) → Handles o P R (handle_get o w path q)
  unfolding Handles handle_get
  handle_get-Stays path q s t a p h =
      elim (Bool-cases (authorize s.engine q (git_path path) action_read)) [
        | inr no_grant ↦ answered o P R _ a s t p (rw (no_grant, handle_get) at h)
        | inl grant ↦ elim (Result-cases (get_document o path s.sys)) [
          | inr (x, e) ↦ answered o P R _ a s t p (rw (grant, e, handle_get) at h)
          | inl (env, e) ↦ answered o P R _ a s t p (rw (grant, e, handle_get) at h)
        ]
      ]

  put_document-Stays :
      (path : Text) (q : Principal) (req : PutRequest)
      → Handles o P R (put_document o w path r q req)
  unfolding Handles put_document
  put_document-Stays path q req s t a p h =
      elim (Option-cases (
        apply o path req.document req.content_type
          (encrypt_or req.encrypt (default_encrypt_for_path path)) (expected_version o w r req)
          (owner_of q) s.sys)) [
            | inl z ↦ (let h' = rw (z, put_document) at h in cc)
            | inr (res, z) ↦ after res z (rw (z, put_document) at h)
          ]
    where
      after :
          (res : Result Envelope × Sys o)
          → apply o path req.document req.content_type
              (encrypt_or req.encrypt (default_encrypt_for_path path))
              (expected_version o w r req)
              (owner_of q)
              s.sys
            ≡ some res
          → ◌≡◌ {A = Handled o} (some (applied o w s res)) (some (a, t))
          → Both o P R t
      after (ok env, u) z e =
          answered o P R _ a _ t ((apply-Stays o P k path _ _ _ _ _).at s.sys u (ok env) p.0 z, p.1)
            e
      after (err x, u) z e =
          answered o P R _ a _ t ((apply-Stays o P k path _ _ _ _ _).at s.sys u (err x) p.0 z, p.1)
            e

  handle_put-Stays : (path : Text) (q : Principal) → Handles o P R (handle_put o w path r q)
  unfolding Handles handle_put
  handle_put-Stays path q s t a p h =
      elim (Bool-cases (has_prefix path system_dir && not (is_bootstrap q.kind))) [
        | inl reserved ↦ answered o P R _ a s t p (rw (reserved, handle_put) at h)
        | inr free ↦ elim (Bool-cases (authorize s.engine q (git_path path) action_write)) [
          | inr no_grant ↦ answered o P R _ a s t p (rw (free, no_grant, handle_put) at h)
          | inl grant ↦ elim (Result-cases (put_request w r)) [
            | inr (x, e) ↦ answered o P R _ a s t p (rw (free, grant, e, handle_put) at h)
            | inl (req, e) ↦
                put_document-Stays path q req s t a p (rw (free, grant, e, handle_put) at h)
          ]
        ]
      ]

  handle_delete-Stays : (path : Text) (q : Principal) → Handles o P R (handle_delete o w path r q)
  unfolding Handles handle_delete
  handle_delete-Stays path q s t a p h =
      let version = (w.atoi (query_value (codes "version") r)).0 in
      elim (Bool-cases (authorize s.engine q (git_path path) action_write)) [
        | inr no_grant ↦ answered o P R _ a s t p (rw (no_grant, handle_delete) at h)
        | inl grant ↦ elim (Option-cases (Documents.delete o path version s.sys)) [
          | inl z ↦ (let h' = rw (grant, z, handle_delete) at h in cc)
          | inr (res, z) ↦ after version res z (rw (grant, z, handle_delete) at h)
        ]
      ]
    where
      after :
          (version : Int64) (res : Result (Unit {0}) × Sys o)
          → Documents.delete o path version s.sys ≡ some res
          → ◌≡◌ {A = Handled o} (some (deleted o w s res)) (some (a, t))
          → Both o P R t
      after version (ok n, u) z e =
          answered o P R _ a _ t ((delete-Stays o P k path version).at s.sys u (ok n) p.0 z, p.1) e
      after version (err x, u) z e =
          answered o P R _ a _ t ((delete-Stays o P k path version).at s.sys u (err x) p.0 z, p.1) e

  pub handle_document_path-Stays :
      (who : Option Principal) → Handles o P R (handle_document_path o w r who)
  unfolding Handles handle_document_path
  handle_document_path-Stays none s t a p h = elim (Bool-cases (document_path r == [])) [
    | inl empty ↦ answered o P R _ a s t p (rw (empty, handle_document_path) at h)
    | inr full ↦ answered o P R _ a s t p (rw (full, handle_document_path) at h)
  ]
  handle_document_path-Stays (some q) s t a p h = elim (Bool-cases (document_path r == [])) [
    | inl empty ↦ answered o P R _ a s t p (rw (empty, handle_document_path) at h)
    | inr full ↦ elim (Bool-cases (r.method == codes "GET")) [
      | inl get ↦
          handle_get-Stays (document_path r) q s t a p (rw (full, get, handle_document_path) at h)
      | inr g ↦ elim (Bool-cases (r.method == codes "PUT")) [
        | inl put ↦
            handle_put-Stays (document_path r) q s t a p
              (rw (full, g, put, handle_document_path) at h)
        | inr u ↦ elim (Bool-cases (r.method == codes "DELETE")) [
          | inl del ↦
              handle_delete-Stays (document_path r) q s t a p
                (rw (full, g, u, del, handle_document_path) at h)
          | inr d ↦ answered o P R _ a s t p (rw (full, g, u, d, handle_document_path) at h)
        ]
      ]
    ]
  ]

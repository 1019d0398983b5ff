-- ===== src/Api/Confined/Documents.antt =====
-- The handlers of the documents are confined.
use sealhub.Base.{
  ◌≡◌, ◌≢◌, inl, inr, refl, Bool, true, false, not, ◌&&◌, Option, none, some, List, [], ◌∷◌, Any,
  Bool-cases, Option-cases,
}
use sealhub.Base.Text.{Text, codes, ◌==◌, eq_iff, has_prefix}
use sealhub.Base.Result.{Result, ok, err, Result-cases}
use sealhub.Document.{Envelope, default_encrypt_for_path, git_path, system_dir}
use sealhub.Auth.Engine.{
  Engine, Principal, Kind, bootstrap, token, oidc, authorize, action_read, action_write,
}
use sealhub.Store.Index.{DocEntry}
use sealhub.Store.Git.{Outside, Sys}
use sealhub.Store.Documents
use sealhub.Store.Documents.{get_document, apply, read_system_file}
use sealhub.Api.Types.{
  Request, query_value, Answer, Server, Web, Handled, PutRequest, write_json, envelope,
}
use sealhub.Api.Documents.{
  readable, read_failed, apply_failed, delete_failed, document_path, encrypt_or, expected_version,
  owner_of, applied, deleted, handle_document_list, handle_get, put_document, put_request,
  handle_put, handle_delete, handle_document_path, is_bootstrap,
}
use sealhub.Api.Confined.{Discloses, MayWrite, Confined}
use sealhub.Api.Confined.Answers.{
  read_failed-Silent, apply_failed-Silent, delete_failed-Silent, quiet, returned,
}

-- What the loops keep is what the principal may read.
readable-Reads :
    (e : Engine) (p : Principal) (its : List DocEntry) (q : Text)
    → Any (λ d. d.0 ≡ q) (readable e p its)
    → authorize e p (git_path q) action_read ≡ true
unfolding readable
readable-Reads e p (it ∷ its) q h =
    elim (Bool-cases (authorize e p (git_path it.path) action_read)) [
      | inr no_grant ↦ readable-Reads e p its q (rw (no_grant, readable) at h)
      | inl grant ↦ elim (rw (grant, readable) at h) [
        | inl same ↦ rw (← same) grant
        | inr later ↦ readable-Reads e p its q later
      ]
    ]
readable-Reads e p [] q h = absurd h

only_bootstrap :
    (b : Bool) (k : Kind) → (b && not (is_bootstrap k)) ≡ false → b ≡ true → k ≡ bootstrap
only_bootstrap b bootstrap h e = refl
only_bootstrap true token h e = cc
only_bootstrap true oidc h e = cc
only_bootstrap false token h e = cc
only_bootstrap false oidc h e = cc

module _ (o : Outside) (w : Web) (r : Request) where
  pub handle_document_list-Confined :
      (who : Option Principal) (s : Server o) (a : Answer) (s' : Server o)
      → handle_document_list o w r who s ≡ some (a, s')
      → Confined o r who s a s'
  unfolding handle_document_list
  handle_document_list-Confined none s a s' h = elim (Bool-cases (r.method == codes "GET")) [
    | inr other ↦
        returned o r none s a _ _ s' (quiet o r none s _ _ (λ q d. d) refl)
          (rw (other, handle_document_list) at h)
    | inl get ↦
        returned o r none s a _ _ s' (quiet o r none s _ _ (λ q d. d) refl)
          (rw (get, handle_document_list) at h)
  ]
  handle_document_list-Confined (some p) s a s' h = elim (Bool-cases (r.method == codes "GET")) [
    | inr other ↦
        returned o r (some p) s a _ _ s' (quiet o r (some p) s _ _ (λ q d. d) refl)
          (rw (other, handle_document_list) at h)
    | inl get ↦
        returned o r (some p) s a _ _ s'
          (record { kept = inl (refl, refl); told = λ q d. inl (readable-Reads s.engine p _ q d) })
          (rw (get, handle_document_list) at h)
  ]

  handle_get-Confined :
      (p : Principal) (s : Server o) (a : Answer) (s' : Server o)
      → handle_get o w (document_path r) p s ≡ some (a, s')
      → Confined o r (some p) s a s'
  unfolding handle_get
  handle_get-Confined p s a s' h =
      elim (Bool-cases (authorize s.engine p (git_path (document_path r)) action_read)) [
        | inr no_grant ↦
            returned o r (some p) s a _ _ s' (quiet o r (some p) s _ _ (λ q d. d) refl)
              (rw (no_grant, handle_get) at h)
        | inl grant ↦ elim (Result-cases (get_document o (document_path r) s.sys)) [
          | inr (x, e) ↦
              returned o r (some p) s a (read_failed x) s s'
                (quiet o r (some p) s (read_failed x) s (read_failed-Silent r x) refl)
                (rw (grant, e, handle_get) at h)
          | inl (env, e) ↦
              returned o r (some p) s a (write_json (envelope env)) s s'
                (record { kept = inl (refl, refl); told = λ q d. inl (rw d grant) })
                (rw (grant, e, handle_get) at h)
        ]
      ]

  -- A writer's answer: its own document, or an error.
  written :
      (p : Principal) (s : Server o) (a : Answer) (s' : Server o)
      → MayWrite o r s p
      → ((q : Text) → Discloses r a.body q → q ≡ document_path r)
      → Confined o r (some p) s a s'
  written p s a s' may own = record { kept = inr may; told = λ q d. inr (may, own q d) }

  put_document-Confined :
      (p : Principal) (req : PutRequest) (s : Server o) (a : Answer) (s' : Server o)
      → MayWrite o r s p
      → put_document o w (document_path r) r p req s ≡ some (a, s')
      → Confined o r (some p) s a s'
  unfolding put_document
  put_document-Confined p req s a s' may h =
      elim (Option-cases (
        apply o (document_path r) req.document req.content_type
          (encrypt_or req.encrypt (default_encrypt_for_path (document_path r)))
          (expected_version o w r req) (owner_of p) s.sys)) [
            | inl z ↦ (let h' = rw (z, put_document) at h in cc)
            | inr (res, z) ↦ after res (rw (z, put_document) at h)
          ]
    where
      after :
          (res : Result Envelope × Sys o)
          → ◌≡◌ {A = Handled o} (some (applied o w s res)) (some (a, s'))
          → Confined o r (some p) s a s'
      after (ok env, t) k = returned o r (some p) s a _ _ s' (written p s _ _ may (λ q d. d)) k
      after (err x, t) k =
          returned o r (some p) s a (apply_failed x) _ s'
            (written p s (apply_failed x) _ may (λ q d. absurd (apply_failed-Silent r x q d))) k

  handle_put-Confined :
      (p : Principal) (s : Server o) (a : Answer) (s' : Server o)
      → document_path r ≢ []
      → r.method ≡ codes "PUT"
      → handle_put o w (document_path r) r p s ≡ some (a, s')
      → Confined o r (some p) s a s'
  unfolding handle_put
  handle_put-Confined p s a s' named put h =
      let path = document_path r in
      elim (Bool-cases (has_prefix path system_dir && not (is_bootstrap p.kind))) [
        | inl reserved ↦
            returned o r (some p) s a _ _ s' (quiet o r (some p) s _ _ (λ q d. d) refl)
              (rw (reserved, handle_put) at h)
        | inr free ↦ elim (Bool-cases (authorize s.engine p (git_path path) action_write)) [
          | inr no_grant ↦
              returned o r (some p) s a _ _ s' (quiet o r (some p) s _ _ (λ q d. d) refl)
                (rw (free, no_grant, handle_put) at h)
          | inl grant ↦ elim (Result-cases (put_request w r)) [
            | inr (x, e) ↦
                returned o r (some p) s a _ _ s' (quiet o r (some p) s _ _ (λ q d. d) refl)
                  (rw (free, grant, e, handle_put) at h)
            | inl (req, e) ↦
                let may : MayWrite o r s p = record {
                  named = named;
                  granted = grant;
                  asked = inl (put, only_bootstrap (has_prefix path system_dir) p.kind free);
                } in
                put_document-Confined p req s a s' may (rw (free, grant, e, handle_put) at h)
          ]
        ]
      ]

  handle_delete-Confined :
      (p : Principal) (s : Server o) (a : Answer) (s' : Server o)
      → document_path r ≢ []
      → r.method ≡ codes "DELETE"
      → handle_delete o w (document_path r) r p s ≡ some (a, s')
      → Confined o r (some p) s a s'
  unfolding handle_delete
  handle_delete-Confined p s a s' named del h =
      elim (Bool-cases (authorize s.engine p (git_path (document_path r)) action_write)) [
        | inr no_grant ↦
            returned o r (some p) s a _ _ s' (quiet o r (some p) s _ _ (λ q d. d) refl)
              (rw (no_grant, handle_delete) at h)
        | inl grant ↦
            elim (Option-cases (
              Documents.delete o (document_path r) (w.atoi (query_value (codes "version") r)).0
                s.sys)) [
                  | inl z ↦ (let h' = rw (grant, z, handle_delete) at h in cc)
                  | inr (res, z) ↦
                      after (record { named = named; granted = grant; asked = inr del }) res
                        (rw (grant, z, handle_delete) at h)
                ]
      ]
    where
      after :
          MayWrite o r s p
          → (res : Result (Unit {0}) × Sys o)
          → ◌≡◌ {A = Handled o} (some (deleted o w s res)) (some (a, s'))
          → Confined o r (some p) s a s'
      after may (ok u, t) k =
          returned o r (some p) s a _ _ s' (written p s _ _ may (λ q d. absurd d)) k
      after may (err x, t) k =
          returned o r (some p) s a (delete_failed x) _ s'
            (written p s (delete_failed x) _ may (λ q d. absurd (delete_failed-Silent r x q d))) k

  pub handle_document_path-Confined :
      (who : Option Principal) (s : Server o) (a : Answer) (s' : Server o)
      → handle_document_path o w r who s ≡ some (a, s')
      → Confined o r who s a s'
  unfolding handle_document_path
  handle_document_path-Confined none s a s' h = elim (Bool-cases (document_path r == [])) [
    | inl empty ↦
        returned o r none s a _ _ s' (quiet o r none s _ _ (λ q d. d) refl)
          (rw (empty, handle_document_path) at h)
    | inr full ↦
        returned o r none s a _ _ s' (quiet o r none s _ _ (λ q d. d) refl)
          (rw (full, handle_document_path) at h)
  ]
  handle_document_path-Confined (some p) s a s' h = elim (Bool-cases (document_path r == [])) [
    | inl empty ↦
        returned o r (some p) s a _ _ s' (quiet o r (some p) s _ _ (λ q d. d) refl)
          (rw (empty, handle_document_path) at h)
    | inr full ↦
        let named : document_path r ≢ [] = λ e. let z = (eq_iff (document_path r) []).1 e in cc in
        elim (Bool-cases (r.method == codes "GET")) [
          | inl get ↦ handle_get-Confined p s a s' (rw (full, get, handle_document_path) at h)
          | inr g ↦ elim (Bool-cases (r.method == codes "PUT")) [
            | inl put ↦
                handle_put-Confined p s a s' named ((eq_iff r.method (codes "PUT")).0 put)
                  (rw (full, g, put, handle_document_path) at h)
            | inr u ↦ elim (Bool-cases (r.method == codes "DELETE")) [
              | inl del ↦
                  handle_delete-Confined p s a s' named ((eq_iff r.method (codes "DELETE")).0 del)
                    (rw (full, g, u, del, handle_document_path) at h)
              | inr d ↦
                  returned o r (some p) s a _ _ s' (quiet o r (some p) s _ _ (λ q d. d) refl)
                    (rw (full, g, u, d, handle_document_path) at h)
            ]
          ]
        ]
  ]

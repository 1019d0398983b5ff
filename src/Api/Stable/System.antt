-- ===== src/Api/Stable/System.antt =====
-- The handlers of pkg/api/server.go that call no method of the store that changes it.
use sealhub.Base.{ℕ, ◌≡◌, inl, inr, Option, none, some, Bool-cases, Option-cases}
use sealhub.Base.Text.{Text, codes, ◌==◌}
use sealhub.Base.Result.{ok, Result-cases}
use sealhub.Changes.{subscribe}
use sealhub.Auth.Engine.{Principal, Engine, AuthYaml, load_issuers_yaml}
use sealhub.Auth.Oidc.{validate_id_token}
use sealhub.Store.Git.{Outside, Sys}
use sealhub.Store.Documents.{read_system_file}
use sealhub.Api.Types.{Request, Server, Web}
use sealhub.Api.System.{issuers_file, reload_issuers, handle_providers, handle_auth_token}
use sealhub.Api.Documents.{handle_document_list}
use sealhub.Api.Events.{flushes, wants_stream, stream_buffer, open_stream, handle_changes}
use sealhub.Api.Stable.{Both, answered, Handles}

module _ (o : Outside) (P : Sys o → Type 0) (R : Engine → Type 0) (w : Web) where
  module _
      (reloaded : (y : AuthYaml) (raw : Text) (e e' : Engine)
        → load_issuers_yaml y raw e ≡ ok e'
        → R e
        → R e') where
    pub reload_issuers-Both : (s : Server o) → Both o P R s → Both o P R (reload_issuers o w s)
    unfolding reload_issuers
    reload_issuers-Both s (p, q) = elim (Result-cases (read_system_file o issuers_file s.sys)) [
      | inr (x, e) ↦ rw (e, reload_issuers) (p, q)
      | inl (raw, e) ↦ elim (Result-cases (load_issuers_yaml w.auth_yaml raw s.engine)) [
        | inr (x, k) ↦ rw (e, reload_issuers, k) (p, q)
        | inl (e', k) ↦ rw (e, reload_issuers, k) (p, reloaded w.auth_yaml raw s.engine e' k q)
      ]
    ]

    module _ (r : Request) where
      pub handle_providers-Stays : Handles o P R (handle_providers o w r)
      unfolding Handles handle_providers
      handle_providers-Stays s t a p h = elim (Bool-cases (r.method == codes "GET")) [
        | inr other ↦ answered o P R _ a s t p (rw (other, handle_providers) at h)
        | inl get ↦
            answered o P R _ a (reload_issuers o w s) t (reload_issuers-Both s p)
              (rw (get, handle_providers) at h)
      ]

      pub handle_auth_token-Stays : Handles o P R (handle_auth_token o w r)
      unfolding Handles handle_auth_token
      handle_auth_token-Stays s t a p h = elim (Bool-cases (r.method == codes "POST")) [
        | inr other ↦ answered o P R _ a s t p (rw (other, handle_auth_token) at h)
        | inl post ↦ elim (Result-cases (w.decode_token_request r.body)) [
          | inr (x, e) ↦ answered o P R _ a s t p (rw (post, e, handle_auth_token) at h)
          | inl (req, e) ↦
              elim (Option-cases
                (validate_id_token w.unverified w.now s.engine req.issuer req.id_token)) [
                  | inl z ↦ (let h' = rw (post, e, z, handle_auth_token) at h in cc)
                  | inr (v, z) ↦ answered o P R _ a s t p (rw (post, e, z, handle_auth_token) at h)
                ]
        ]
      ]

  module _ (r : Request) where
    pub handle_document_list-Stays :
        (who : Option Principal) → Handles o P R (handle_document_list o w r who)
    unfolding Handles handle_document_list
    handle_document_list-Stays none s t a p h = elim (Bool-cases (r.method == codes "GET")) [
      | inr other ↦ answered o P R _ a s t p (rw (other, handle_document_list) at h)
      | inl get ↦ answered o P R _ a s t p (rw (get, handle_document_list) at h)
    ]
    handle_document_list-Stays (some q) s t a p h = elim (Bool-cases (r.method == codes "GET")) [
      | inr other ↦ answered o P R _ a s t p (rw (other, handle_document_list) at h)
      | inl get ↦ answered o P R _ a s t p (rw (get, handle_document_list) at h)
    ]

    module _
        (subscribed : (n : ℕ) (s : Sys o)
          → P s
          → P (record s {
            store = record s.store { broker = (subscribe n s.store.broker).1 };
          })) where
      open_stream-Stays : (q : Principal) → Handles o P R (open_stream o w r q)
      unfolding Handles open_stream
      open_stream-Stays q s t a p h = elim (Bool-cases (flushes w)) [
        | inr other ↦ answered o P R _ a s t p (rw (other, open_stream) at h)
        | inl can ↦
            answered o P R _ a _ t (subscribed stream_buffer s.sys p.0, p.1)
              (rw (can, open_stream) at h)
      ]

      pub handle_changes-Stays : (who : Option Principal) → Handles o P R (handle_changes o w r who)
      unfolding Handles handle_changes
      handle_changes-Stays none s t a p h = elim (Bool-cases (r.method == codes "GET")) [
        | inr other ↦ answered o P R _ a s t p (rw (other, handle_changes) at h)
        | inl get ↦ answered o P R _ a s t p (rw (get, handle_changes) at h)
      ]
      handle_changes-Stays (some q) s t a p h = elim (Bool-cases (r.method == codes "GET")) [
        | inr other ↦ answered o P R _ a s t p (rw (other, handle_changes) at h)
        | inl get ↦ elim (Bool-cases (wants_stream r)) [
          | inl stream ↦ open_stream-Stays q s t a p (rw (get, stream, handle_changes) at h)
          | inr now ↦ answered o P R _ a s t p (rw (get, now, handle_changes) at h)
        ]
      ]

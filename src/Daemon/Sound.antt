-- ===== src/Daemon/Sound.antt =====
-- What holds of the server of cmd/hubd/main.go from its start on.
use mathlib.Core.Path.{subst}
use sealhub.Base.{◌⊎◌, sym, ◌≡◌, refl, true, Option, none, some, inl, inr}
use sealhub.Base.Text.{Text}
use sealhub.Base.Result.{Result, ok, err, Result-cases, ok-injective}
use sealhub.Changes.Subscribers.{IsOpen}
use sealhub.Changes.Interleaving.{receive, receive-IsOpen, unsubscribed-IsOpen, new_broker-IsOpen}
use sealhub.Crypto.{KeyRing, load_key_ring}
use sealhub.Config.{Config, load}
use sealhub.Auth.Engine.{new_engine, Engine, AuthYaml, unwrap, load_issuers_yaml, load_tokens_yaml}
use sealhub.Auth.Bearer.{load_jwt_secret}
use sealhub.Store.Git.{Outside, GitStore, Sys}
use sealhub.Store.Opening.{Repositories, new_git_store, open_or_clone}
use sealhub.Store.Opening.Served.{open_or_clone-Serves}
use sealhub.Store.Serving.{
  IsCurrent, IsEmptied, IsAppendOnly, IsServing, IsServing-IsStable, subscribed-IsServing,
  with_broker-IsServing,
}
use sealhub.Api.Types.{Web, Server}
use sealhub.Api.System.{reload_system_auth}
use sealhub.Daemon.{
  Process, Start, started, stopped, panicked, store_failed, config_path, store_options, serve_store,
  start,
}
use sealhub.Daemon.Configured.{IsConfigured, store_options-IsConfigured, same-IsConfigured}
use sealhub.Daemon.Run.{Reach}
use sealhub.Daemon.Kept.{IsMaintained, reload_system_auth-Holds, Reach-Holds}

module _ (o : Outside) where
  -- The engine has the secrets of the start: the bootstrap token and the key of the API tokens.
  pub record IsKeptEngine (first key : Text) (e : Engine) : Type 0 where
    pub bootstrap_token : e.bootstrap_token ≡ first
    pub jwt_secret : e.jwt_secret ≡ key

  loads_issuers :
      (first key : Text) (y : AuthYaml) (raw : Text) (e e' : Engine)
      → load_issuers_yaml y raw e ≡ ok e'
      → IsKeptEngine first key e
      → IsKeptEngine first key e'
  unfolding load_issuers_yaml
  loads_issuers first key y raw e e' h v =
      elim (Result-cases (y.unmarshal_issuers (unwrap y raw))) [
        | inr (x, z) ↦ (let h' = rw (z, load_issuers_yaml) at h in cc)
        | inl (is, z) ↦
            (let h' = rw (z, load_issuers_yaml) at h in
              subst (IsKeptEngine first key) (ok-injective h')
                (record { bootstrap_token = v.bootstrap_token; jwt_secret = v.jwt_secret }))
      ]

  loads_tokens :
      (first key : Text) (y : AuthYaml) (raw : Text) (e e' : Engine)
      → load_tokens_yaml y raw e ≡ ok e'
      → IsKeptEngine first key e
      → IsKeptEngine first key e'
  unfolding load_tokens_yaml
  loads_tokens first key y raw e e' h v = elim (Result-cases (y.unmarshal_tokens (unwrap y raw))) [
    | inr (x, z) ↦ (let h' = rw (z, load_tokens_yaml) at h in cc)
    | inl (ts, z) ↦
        (let h' = rw (z, load_tokens_yaml) at h in
          subst (IsKeptEngine first key) (ok-injective h')
            (record { bootstrap_token = v.bootstrap_token; jwt_secret = v.jwt_secret }))
  ]

  IsServing-IsMaintained :
      (a : IsAppendOnly o) (w : Web) (g : GitStore) (first key : Text)
      → IsMaintained o w (IsServing o g) (IsKeptEngine first key)
  IsServing-IsMaintained a w g first key = record {
    stable = IsServing-IsStable o a g;
    subscribed = subscribed-IsServing o g;
    received = λ ch ev rest s full v.
        with_broker-IsServing o g (receive ch rest s.store.broker) s
          (receive-IsOpen ch ev rest s.store.broker full v.subscribers) v;
    closed = λ ch b s l e v.
        with_broker-IsServing o g b s (unsubscribed-IsOpen ch s.store.broker b l e v.subscribers) v;
    issuers = loads_issuers first key;
    tokens = loads_tokens first key w.auth_yaml;
  }

  module _ (g : Repositories o) (w : Web) (p : Process) where
    -- The store that hubd was configured to open, once it is ready.
    abbrev pub configured : Config → KeyRing → GitStore
    configured cfg kr = record (new_git_store (store_options cfg kr)) { ready = true }

    new_git_store-IsOpen :
        (cfg : Config) (kr : KeyRing) → IsOpen (new_git_store (store_options cfg kr)).broker
    unfolding new_git_store store_options
    new_git_store-IsOpen cfg kr = new_broker-IsOpen

    -- What serve_store starts with is a store that was opened.
    pub serve_store-opened :
        (cfg : Config) (kr : KeyRing) (secret : Text) (u : o.State) (s : Server o)
        → serve_store o g w p cfg kr secret u ≡ started s
        → (t : Sys o) × IsServing o (configured cfg kr) t
          × (s
              ≡ reload_system_auth o w
                  (record { engine = new_engine cfg.auth.bootstrap_token secret; sys = t }))
    unfolding serve_store
    serve_store-opened cfg kr secret u s h = go (open_or_clone o g (store_options cfg kr) u) refl h
      where
        go :
            (r : Option (Result (Unit {0}) × Sys o))
            → open_or_clone o g (store_options cfg kr) u ≡ r
            → ◌≡◌ {A = Start (Server o)}
                (elim r [
                  | none ↦ panicked
                  | some (err x, _) ↦ stopped (store_failed x)
                  | some (ok _, sys) ↦ started (
                      reload_system_auth o w
                        (record { engine = new_engine cfg.auth.bootstrap_token secret; sys = sys }))
                ])
                (started s)
            → (t : Sys o) × IsServing o (configured cfg kr) t
              × (s
                  ≡ reload_system_auth o w
                      (record { engine = new_engine cfg.auth.bootstrap_token secret; sys = t }))
        go none e k = cc
        go (some (err x, t)) e k = cc
        go (some (ok b, t)) e k =
            let (same, head, current, open_) =
              open_or_clone-Serves o g (store_options cfg kr) u t b (new_git_store-IsOpen cfg kr)
                e in
            (t, record { same = same; subscribers = open_; indexed = inr current }, cc)

    -- What a start went through.
    pub record Started (u : o.State) (cfg : Config) (first : Server o) : Type 0 where
      pub keyring : KeyRing
      pub jwt_secret : Text
      pub ring : load_key_ring o.cipher (o.read_file u cfg.encryption.keyring_file) ≡ ok keyring
      pub secret : load_jwt_secret (o.read_file u) cfg.auth.jwt_secret_file ≡ ok jwt_secret
      pub serves : serve_store o g w p cfg keyring jwt_secret u ≡ started first

    pub start-Started :
        (u : o.State) (cfg : Config) (first : Server o)
        → start o g w p u ≡ started (cfg, first)
        → Started u cfg first
    unfolding start
    start-Started u cfg first h =
        elim (Result-cases
          (load p.unmarshal_config p.env_bootstrap (o.read_file u (config_path p)))) [
            | inr (x, e) ↦ (let h' = rw (e, start) at h in cc)
            | inl (c, e) ↦
                elim (Result-cases
                  (load_key_ring o.cipher (o.read_file u c.encryption.keyring_file))) [
                    | inr (x, k) ↦ (let h' = rw (e, k, start) at h in cc)
                    | inl (kr, k) ↦
                        elim (Result-cases
                          (load_jwt_secret (o.read_file u) c.auth.jwt_secret_file)) [
                            | inr (x, j) ↦ (let h' = rw (e, k, j, start) at h in cc)
                            | inl (secret, j) ↦
                                go c kr secret k j (serve_store o g w p c kr secret u) refl
                                  (rw (e, k, j, start) at h)
                          ]
                  ]
          ]
      where
        go :
            (c : Config) (kr : KeyRing) (secret : Text)
            → load_key_ring o.cipher (o.read_file u c.encryption.keyring_file) ≡ ok kr
            → load_jwt_secret (o.read_file u) c.auth.jwt_secret_file ≡ ok secret
            → (x : Start (Server o)) → serve_store o g w p c kr secret u ≡ x
            → ◌≡◌ {A = Start (Config × Server o)}
                (elim x [
                  | panicked ↦ panicked
                  | stopped f ↦ stopped f
                  | started q ↦ started (c, q)
                ])
                (started (cfg, first))
            → Started u cfg first
        go c kr secret k j panicked e z = cc
        go c kr secret k j (stopped f) e z = cc
        go c kr secret k j (started q) e z =
            let same : c ≡ cfg = cc in
            let at : q ≡ first = cc in
            subst (λ (d : Config). Started u d first) same
              (subst (Started u c) at
                (record { keyring = kr; jwt_secret = secret; ring = k; secret = j; serves = e }))

    -- What holds of the server of a configuration: the store has its settings and keys, the subscribers
    -- are open, the index is of the commit that the store remembers, or empty since the files of the
    -- commit at a head could not be read, and the engine has the secrets of the start.
    pub record IsSound (cfg : Config) (kr : KeyRing) (secret : Text) (s : Server o) : Type 0 where
      pub store : IsConfigured cfg kr s.sys.store
      pub subscribers : IsOpen s.sys.store.broker
      pub indexed : IsEmptied o s.sys ⊎ IsCurrent o s.sys
      pub bootstrap_token : s.engine.bootstrap_token ≡ cfg.auth.bootstrap_token
      pub jwt_secret : s.engine.jwt_secret ≡ secret

    -- With commits that do not change, and where no stream ends between the release of the lock of the
    -- broker and the sends of one event: when hubd started, and after any requests, ticks and ends of
    -- streams, the store is ready, with the settings of the configuration and the keys of its key file,
    -- the subscribers are open and within their capacity, the index is that of the files of the commit
    -- that the store remembers, or empty since the files of the commit at a head could not be read, and
    -- the engine has the bootstrap token of the configuration and the key of its file.
    pub start-Reach :
        (a : IsAppendOnly o) (u : o.State) (cfg : Config) (first s : Server o)
        → start o g w p u ≡ started (cfg, first)
        → Reach o w first s
        → (it : Started u cfg first) × IsSound cfg it.keyring it.jwt_secret s
    unfolding new_engine
    start-Reach a u cfg first s h r =
        let it = start-Started u cfg first h in
        let st = configured cfg it.keyring in
        let token = cfg.auth.bootstrap_token in
        let k = IsServing-IsMaintained a w st token it.jwt_secret in
        let (t, serving, loaded) =
          serve_store-opened cfg it.keyring it.jwt_secret u first it.serves in
        let begin : Server o = record { engine = new_engine token it.jwt_secret; sys = t } in
        let at_start : IsServing o st begin.sys × IsKeptEngine token it.jwt_secret begin.engine =
          (serving, record { bootstrap_token = refl; jwt_secret = refl }) in
        let at_first =
          subst (λ (q : Server o). IsServing o st q.sys × IsKeptEngine token it.jwt_secret q.engine)
            (sym loaded)
            (reload_system_auth-Holds o w (IsServing o st) (IsKeptEngine token it.jwt_secret) k
              w.now begin at_start) in
        let (serves, keeps) =
          Reach-Holds o w (IsServing o st) (IsKeptEngine token it.jwt_secret) k first s r
            at_first in
        (
          it,
          record {
            store =
                same-IsConfigured cfg it.keyring s.sys.store st serves.same
                  (store_options-IsConfigured cfg it.keyring);
            subscribers = serves.subscribers;
            indexed = serves.indexed;
            bootstrap_token = keeps.bootstrap_token;
            jwt_secret = keeps.jwt_secret;
          },
        )

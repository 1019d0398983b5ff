-- ===== src/Daemon/Kept.antt =====
-- What every step of the server keeps.
use mathlib.Core.Path.{subst}
use sealhub.Base.{ℕ, List, ◌∷◌, ◌≡◌, refl, true, Option, none, some, inl, inr, Option-cases}
use sealhub.Base.Text.{Text}
use sealhub.Base.Result.{Result, ok, err, Result-cases}
use sealhub.Changes.{Event, Broker, subscribe, unsubscribe}
use sealhub.Changes.Subscribers.{listed}
use sealhub.Changes.Interleaving.{receive}
use sealhub.Auth.Engine.{Engine, AuthYaml, load_issuers_yaml, load_tokens_yaml}
use sealhub.Store.Git.{Outside, Sys}
use sealhub.Store.Documents.{poll, read_system_file}
use sealhub.Store.Stable.{IsStable, poll-Stays}
use sealhub.Api.Types.{Web, Server}
use sealhub.Api.Events.{with_broker, close_stream}
use sealhub.Api.System.{reload_system_auth, tokens_file, or_keep}
use sealhub.Api.Stable.System.{reload_issuers-Both}
use sealhub.Api.Stable.Served.{serve-Stays}
use sealhub.Daemon.{tick}
use sealhub.Daemon.Run.{at_time, Step, handles, ticks, receives, closes, Reach, begun, moved}

module _ (o : Outside) (w : Web) (P : Sys o → Type 0) (R : Engine → Type 0) where
  -- A property of the store and one of the engine that each part of a step keeps.
  pub record IsMaintained : Type 0 where
    pub stable : IsStable o P
    pub subscribed :
        (n : ℕ) (s : Sys o)
        → P s
        → P (record s { store = record s.store { broker = (subscribe n s.store.broker).1 } })
    pub received :
        (ch : ℕ) (ev : Event) (rest : List Event) (s : Sys o)
        → (s.store.broker.chans ch).buffer ≡ ev ∷ rest
        → P s
        → P (record s { store = record s.store { broker = receive ch rest s.store.broker } })
    pub closed :
        (ch : ℕ) (b : Broker) (s : Sys o)
        → listed ch s.store.broker.subs ≡ true
        → unsubscribe ch s.store.broker ≡ some b
        → P s
        → P (record s { store = record s.store { broker = b } })
    pub issuers :
        (y : AuthYaml) (raw : Text) (e e' : Engine) → load_issuers_yaml y raw e ≡ ok e' → R e → R e'
    pub tokens :
        (raw : Text) (e e' : Engine) → load_tokens_yaml w.auth_yaml raw e ≡ ok e' → R e → R e'

  module _ (k : IsMaintained) where
    abbrev pub Holds : Server o → Type 0
    Holds s = P s.sys × R s.engine

    reload_tokens :
        (raw : Text) (e : Engine) → R e → R (or_keep (load_tokens_yaml w.auth_yaml raw e) e)
    reload_tokens raw e q = elim (Result-cases (load_tokens_yaml w.auth_yaml raw e)) [
      | inl (e', z) ↦ rw z (k.tokens raw e e' z q)
      | inr (x, z) ↦ rw z q
    ]

    pub reload_system_auth-Holds :
        (now : ℕ) (s : Server o) → Holds s → Holds (reload_system_auth o (at_time o w now) s)
    unfolding reload_system_auth
    reload_system_auth-Holds now s (p, q) =
        elim (Result-cases (read_system_file o tokens_file s.sys)) [
          | inr (x, e) ↦
              rw (e, reload_system_auth)
                (reload_issuers-Both o P R (at_time o w now) k.issuers s (p, q))
          | inl (raw, e) ↦
              rw (e, reload_system_auth)
                (reload_issuers-Both o P R (at_time o w now) k.issuers
                  (record s {
                    engine = or_keep (load_tokens_yaml w.auth_yaml raw s.engine) s.engine;
                  })
                  (p, reload_tokens raw s.engine q))
        ]

    tick-Holds :
        (now : ℕ) (s t : Server o) → tick o (at_time o w now) s ≡ some t → Holds s → Holds t
    unfolding tick
    tick-Holds now s t h (p, q) = go (poll o s.sys) refl h
      where
        stays : (r : Result (Unit {0})) (u : Sys o) → poll o s.sys ≡ some (r, u) → P u
        stays r u e = (poll-Stays o P k.stable).at s.sys u r p e

        go :
            (r : Option (Result (Unit {0}) × Sys o))
            → poll o s.sys ≡ r
            → ◌≡◌ {A = Option (Server o)}
                (elim r [
                  | none ↦ none
                  | some (err _, sys) ↦ some (record s { sys = sys })
                  | some (ok _, sys) ↦
                      some (reload_system_auth o (at_time o w now) (record s { sys = sys }))
                ])
                (some t)
            → Holds t
        go none e z = cc
        go (some (err x, u)) e z =
            let same : record s { sys = u } ≡ t = cc in subst Holds same (stays (err x) u e, q)
        go (some (ok b, u)) e z =
            let same : reload_system_auth o (at_time o w now) (record s { sys = u }) ≡ t = cc in
            subst Holds same
              (reload_system_auth-Holds now (record s { sys = u }) (stays (ok b) u e, q))

    Step-Holds : (s t : Server o) → Step o w s t → Holds s → Holds t
    unfolding close_stream
    Step-Holds s t (handles now r b h) v =
        serve-Stays o P k.stable k.subscribed R k.issuers (at_time o w now) r s t b v h
    Step-Holds s t (ticks now h) v = tick-Holds now s t h v
    Step-Holds s t (receives ch ev rest full h) (p, q) =
        rw h (k.received ch ev rest s.sys full p, q)
    Step-Holds s t (closes ch l h) (p, q) =
        elim (Option-cases (unsubscribe ch s.sys.store.broker)) [
          | inl e ↦ (let h' = rw (e, close_stream) at h in cc)
          | inr (b, e) ↦
              (let h' = rw (e, close_stream) at h in
                let same : with_broker o w b s ≡ t = cc in
                subst Holds same (k.closed ch b s.sys l e p, q))
        ]

    pub Reach-Holds : (first s : Server o) → Reach o w first s → Holds first → Holds s
    Reach-Holds first _ begun v = v
    Reach-Holds first s (moved r z) v = Step-Holds _ s z (Reach-Holds first _ r v)

-- ===== src/Client/Served.antt =====
-- The client's calls, answered by the handler of the server.
use sealhub.Base.{
  ℕ, ◌≡◌, ◌≢◌, refl, sym, ap, ◌∙◌, true, false, none, some, List, [], ◌∷◌, ◌++◌, nat_eq, length,
  All,
}
use Prim.Native.Nat.{◌/◌}
use mathlib.Core.Path.{subst}
use sealhub.Base.Text.{Text, codes, ◌==◌, has_prefix}
use sealhub.Base.Int.{lt_int}
use sealhub.Base.Result.{Result, ok, err, foreign}
use sealhub.Document.{Envelope, IsCodec, git_path, system_dir, slash}
use sealhub.Crypto.{IsAuthenticated, key_size}
use sealhub.Auth.Engine.{Principal, authorize, action_read, action_write}
use sealhub.Auth.Bearer.{bearer, authenticate_bearer}
use sealhub.Store.Git.{Outside, read_file_at_head}
use sealhub.Store.Documents.Kept.{IsWorktree}
use sealhub.Store.Documents.Versions.{IsStale}
use sealhub.Api.Types.{Request, Answer, Server, Web, PutRequest, write_json, envelope}
use sealhub.Api.System.{second}
use sealhub.Api.Documents.{documents_route, expected_version}
use sealhub.Api.Documents
use sealhub.Api.Routes.{serve}
use sealhub.Api.Asks.{Asks, empty_false}
use sealhub.Api.RoundTrip.{serve_get-serve_put, serve-IsStale}
use sealhub.Client.Types.{Sent, Reply, ApplyRequest, Http, Client, auth}
use sealhub.Client.Calls.{round_trip, finish, get_request, get, got, put_request, apply, applied}

auth-bearer : (c : Client) → c.token ≢ [] → auth c ≡ bearer ++ c.token
auth-bearer c full = let e = empty_false c.token full in rw e refl

module _ (o : Outside) (w : Web) (h : Http) (view : h.World → Server o) where
  -- What is sent reaches the server's handler as the request `r` for a document, and the handler's answer comes back:
  -- its status, and an envelope as it was.
  pub record Reaches (q : Sent) (path : Text) (r : Request) (world : h.World) : Type 0 where
    pub url : h.check_url q.url ≡ none
    pub method : r.method ≡ q.method
    pub at : r.path ≡ documents_route ++ path
    pub clean : w.clean_path r.escaped_path ≡ r.escaped_path
    pub routed : (rest : Text) × (w.route_path r.escaped_path ≡ documents_route ++ rest)
    pub authorization : r.authorization ≡ q.authorization
    pub if_match : r.if_match ≡ q.if_match
    pub answered :
        (a : Answer) (s' : Server o)
        → serve o w r (view world) ≡ some (a, s')
        → (reply : Reply) × (world' : h.World) × (h.send q world ≡ (ok reply, world'))
          × (view world' ≡ s')
          × (reply.status ≡ a.status)
          × ((env : Envelope) → a ≡ write_json (envelope env) → h.decode_envelope reply ≡ ok env)

  -- The token of the client is that of a principal.
  abbrev pub Knows : Client → Server o → Principal → Type 0
  Knows c s p =
      (c.token ≢ []) × (authenticate_bearer w.bcrypt w.jwt (w.now / second) s.engine c.token ≡ ok p)

  asks :
      (c : Client) (q : Sent) (path : Text) (r : Request) (world : h.World) (s : Server o)
      (p : Principal)
      → q.authorization ≡ auth c
      → Reaches q path r world
      → Knows c s p
      → Asks o w r q.method path s p
  asks c q path r world s p mine reach (full, known) = record {
    asked = reach.method;
    at = reach.at;
    clean = reach.clean;
    routed = reach.routed;
    tok = c.token;
    header = reach.authorization ∙ mine ∙ auth-bearer c full;
    known = known;
  }

  round_trip-Reaches :
      (q : Sent) (path : Text) (r : Request) (world world' : h.World) (reply : Reply)
      → Reaches q path r world
      → h.send q world ≡ (ok reply, world')
      → round_trip h q world ≡ (ok reply, world')
  unfolding round_trip
  round_trip-Reaches q path r world world' reply reach sent = rw (reach.url, round_trip, sent) refl

  applied-ok :
      (reply : Reply) (env : Envelope)
      → reply.status ≡ 200
      → h.decode_envelope reply ≡ ok env
      → applied h reply ≡ ok env
  unfolding applied
  applied-ok reply env status back =
      let no_conflict : nat_eq reply.status 409 ≡ false = ap (λ n. nat_eq n 409) status in
      let good : nat_eq reply.status 200 ≡ true = ap (λ n. nat_eq n 200) status in
      rw (no_conflict, good, applied) back

  applied-conflict :
      (reply : Reply) → reply.status ≡ 409 → applied h reply ≡ err (foreign (codes "conflict"))
  unfolding applied
  applied-conflict reply status =
      let conflict : nat_eq reply.status 409 ≡ true = ap (λ n. nat_eq n 409) status in
      rw (conflict, applied) refl

  got-ok :
      (reply : Reply) (env : Envelope)
      → reply.status ≡ 200
      → h.decode_envelope reply ≡ ok env
      → got h reply ≡ ok env
  unfolding got
  got-ok reply env status back =
      let found : nat_eq reply.status 404 ≡ false = ap (λ n. nat_eq n 404) status in
      let good : nat_eq reply.status 200 ≡ true = ap (λ n. nat_eq n 200) status in
      rw (found, good, got) back

  apply-answered :
      (c : Client) (path : Text) (ar : ApplyRequest) (r : Request) (world : h.World)
      (env : Envelope) (s' : Server o)
      → Reaches (put_request h c path ar) path r world
      → serve o w r (view world) ≡ some (write_json (envelope env), s')
      → (world' : h.World) × (apply h c path ar world ≡ (ok env, world')) × (view world' ≡ s')
  unfolding apply finish
  apply-answered c path ar r world env s' reach served =
      let (reply, world', sent, seen, status, back) = reach.answered _ s' served in
      (
        world',
        ap (λ p. finish h p (applied h)) (round_trip-Reaches _ path r world world' reply reach sent)
            ∙ ap (λ e. (e, world')) (applied-ok reply env status (back env refl)),
        seen,
      )

  get-answered :
      (c : Client) (path : Text) (r : Request) (world : h.World) (env : Envelope) (s' : Server o)
      → Reaches (get_request c path) path r world
      → serve o w r (view world) ≡ some (write_json (envelope env), s')
      → (world' : h.World) × (get h c path world ≡ (ok env, world')) × (view world' ≡ s')
  unfolding get finish
  get-answered c path r world env s' reach served =
      let (reply, world', sent, seen, status, back) = reach.answered _ s' served in
      (
        world',
        ap (λ p. finish h p (got h)) (round_trip-Reaches _ path r world world' reply reach sent)
            ∙ ap (λ e. (e, world')) (got-ok reply env status (back env refl)),
        seen,
      )

  -- Let the worktree read back what is written, the YAML of envelopes be read back and the cipher be
  -- authenticated, with a ring of keys of the right size, and let the store be ready. Let a client's
  -- Apply reach the handler, which answers the put with an envelope, and a Get of the same path that is
  -- sent next, by a client whose principal may read the document, reach it too, where the path is not
  -- empty and begins with no slash. Then Apply and Get both return this envelope, and Get leaves the
  -- server as Apply left it.
  pub get-apply :
      IsWorktree o
      → IsCodec o.yaml
      → IsAuthenticated o.cipher
      → (c c' : Client) (path : Text) (ar : ApplyRequest) (r r' : Request) (world world1 : h.World)
        (p p' : Principal) (env : Envelope) (out : Result Envelope) (s1 : Server o) (first : Text)
        (older : List Text)
      → ((n : ℕ) (bytes : Text) → o.draw (view world).sys.outside n ≡ ok bytes → length bytes ≡ n)
      → (view world).sys.store.keyring.keys ≡ first ∷ older
      → All (λ k. length k ≡ key_size) (view world).sys.store.keyring.keys
      → (view world).sys.store.ready ≡ true
      → path ≢ []
      → has_prefix path slash ≡ false
      → Knows c (view world) p
      → Reaches (put_request h c path ar) path r world
      → serve o w r (view world) ≡ some (write_json (envelope env), s1)
      → apply h c path ar world ≡ (out, world1)
      → Knows c' s1 p'
      → authorize s1.engine p' (git_path path) action_read ≡ true
      → Reaches (get_request c' path) path r' world1
      → (out ≡ ok env)
        × (view world1 ≡ s1)
        × ((world2 : h.World) × (get h c' path world1 ≡ (ok env, world2)) × (view world2 ≡ s1))
  get-apply wt codec auths c c' path ar r r' world world1 p p' env out s1 first older drawn ring
        sized ready full bare knows reach served applies knows' may reach' =
      let (answered, did, seen) = apply-answered c path ar r world env s1 reach served in
      let same : answered ≡ world1 = ap (λ x. x.1) (sym did ∙ applies) in
      let seen1 : view world1 ≡ s1 = ap view (sym same) ∙ seen in
      (
        ap (λ x. x.0) (sym applies ∙ did),
        seen1,
        get-answered c' path r' world1 env s1 reach' (
            ap (serve o w r') seen1
            ∙ serve_get-serve_put o w wt codec auths r r' path (view world) s1 p p' env first older
                drawn ring sized ready full bare
                (asks c _ path r world (view world) p refl reach knows) served
                (asks c' _ path r' world1 s1 p' refl reach' knows') may),
      )

  -- Let what the client's Apply sends reach the handler, which reads its body, and let the client's
  -- principal be allowed to write the document, whose path is not empty, begins with no slash and is
  -- not under system/. If the version that Apply
  -- expects is positive, is read back from the header as it was written, and is not the one of the
  -- document (or is above 1 where there is none), Apply returns the conflict, and the server is as
  -- before.
  pub apply-stale :
      (c : Client) (path : Text) (ar : ApplyRequest) (r : Request) (world : h.World) (p : Principal)
      (req : PutRequest)
      → path ≢ []
      → has_prefix path slash ≡ false
      → has_prefix path system_dir ≡ false
      → Knows c (view world) p
      → authorize (view world).engine p (git_path path) action_write ≡ true
      → Reaches (put_request h c path ar) path r world
      → Documents.put_request w r ≡ ok req
      → lt_int 0 ar.expected_version ≡ true
      → h.itoa ar.expected_version ≢ []
      → w.atoi (h.itoa ar.expected_version) ≡ (ar.expected_version, false)
      → IsStale o (read_file_at_head o (git_path path) (view world).sys) ar.expected_version
      → (world' : h.World) × (apply h c path ar world ≡ (err (foreign (codes "conflict")), world'))
        × (view world' ≡ view world)
  unfolding apply finish expected_version
  apply-stale c path ar r world p req full bare plain knows may reach read positive shown parsed
        stale =
      let header : r.if_match ≡ h.itoa ar.expected_version = reach.if_match ∙ rw positive refl in
      let some_header : (r.if_match == []) ≡ false =
        empty_false r.if_match (λ e. shown (sym header ∙ e)) in
      let same : expected_version o w r req ≡ ar.expected_version =
        (let z : w.atoi r.if_match ≡ (ar.expected_version, false) = ap w.atoi header ∙ parsed in
          rw (some_header, ap (λ p. p.1) z, expected_version) (ap (λ p. p.0) z)) in
      let served =
        serve-IsStale o w r path (view world) p req full bare plain
          (asks c _ path r world (view world) p refl reach knows) may read
          (subst (λ n. IsStale o (read_file_at_head o (git_path path) (view world).sys) n)
            (sym same) stale) in
      let (reply, world', sent, seen, status, back) = reach.answered _ (view world) served in
      (
        world',
        ap (λ p. finish h p (applied h)) (round_trip-Reaches _ path r world world' reply reach sent)
            ∙ ap (λ e. (e, world')) (applied-conflict reply status),
        seen,
      )

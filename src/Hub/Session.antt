-- ===== src/Hub/Session.antt =====
-- A login, and the commands behind it.
mod Tests
use sealhub.Base.{
  ◌≡◌, refl, sym, ◌∙◌, ap, Bool, true, false, not, ◌||◌, Option, none, some, List, [], ◌∷◌, inl,
  inr, Bool-cases, if◌then◌else◌,
}
use sealhub.Base.Text.{Text, codes, ◌==◌, eq_iff}
use sealhub.Base.FilePath.{dir}
use sealhub.Base.Action.{after-eq-ok}
use sealhub.Base.Result.{Result, ok, err, Result-cases}
use sealhub.Client.Types.{Http, Client, new_client}
use sealhub.Client.Calls.{exchange_id_token}
use sealhub.Pocket.Machine.{Machine}
use sealhub.Pocket.Uploaded.{IsDisk}
use sealhub.Hub.Token.{TokenTools, run_token_create}
use sealhub.Hub.Credentials.{CredFile, Home, cred_path, save_token, load_token, login}
use sealhub.Hub.Command.{
  Flags, CommandLine, Exit, shown, created_token, usage_of, resolve_token, hub_token, dispatch,
}

module _ (h : Http) (m : Machine h) (u : Home h) where
  -- What is relied on of encoding/json: it reads back what it wrote.
  pub record IsCredCodec : Type 0 where
    pub reads_back :
        (c : CredFile) (raw : Text) → u.marshal_cred c ≡ ok raw → u.unmarshal_cred raw ≡ ok c

  load_token-save_token :
      IsDisk h m
      → IsCredCodec
      → (server token : Text) (w w' : h.World) (b : Unit {0})
      → save_token h m u server token w ≡ (ok b, w')
      → load_token h m u w' ≡ ok token
  unfolding save_token load_token
  load_token-save_token disk codec server token w w' b e =
      let (p, w1, at, e1) = after-eq-ok (cred_path h m u, w) _ e in
      let (_, w2, _, e2) = after-eq-ok (m.mkdir_all (dir p) w1) _ e1 in
      let (raw, w3, coded, e3) =
        after-eq-ok (u.marshal_cred (record { access_token = token; server = server }), w2) _ e2 in
      let path : cred_path h m u ≡ ok p = cc in
      let marshalled : u.marshal_cred (record { access_token = token; server = server }) ≡ ok raw =
        cc in
      rw (path, disk.reads_written p raw w3 w' e3, codec.reads_back _ raw marshalled) refl

  module _ (t : TokenTools h) (l : CommandLine h) where
    resolve_token-same :
        (access : Text) (w : h.World)
        → load_token h m u w ≡ ok access
        → resolve_token h m u t l [] w ≡ resolve_token h m u t l access w
    unfolding resolve_token ◌==◌
    resolve_token-same [] w e = refl
    resolve_token-same (c ∷ s) w e = rw e refl

    hub_token-same :
        (server tok tok' : Text) (rest : List Text) (w : h.World)
        → resolve_token h m u t l tok w ≡ resolve_token h m u t l tok' w
        → hub_token h m u t l server tok rest w ≡ hub_token h m u t l server tok' rest w
    unfolding hub_token
    hub_token-same server tok tok' [] w e = refl
    hub_token-same server tok tok' (sub ∷ rest) w e =
        ap
          (λ x.
            if sub == codes "create"
            then shown (λ p. created_token p) (run_token_create h t server x rest w)
            else some (usage_of {h = h} (codes "token create --id NAME --read path"), w))
          e

    -- With a disk and a JSON that give back what was written: a Login that returned has exchanged the
    -- identity token for an access token, and behind it every command without a token of its own does
    -- what it does with that access token given.
    pub dispatch-login :
        IsDisk h m
        → IsCredCodec
        → (server : Text) (w w' : h.World) (b : Unit {0}) → login h m u server w ≡ (ok b, w')
        → (access : Text) × (w1 : h.World) × (exchange_id_token h
              (new_client server [])
              (m.getenv (codes "SEALHUB_OIDC_ISSUER"))
              (m.getenv (codes "SEALHUB_ID_TOKEN"))
              w
            ≡ (ok access, w1))
          × ((f : Flags) (cmd : Text) (rest : List Text)
              → dispatch h m u t l (record f { token = [] }) cmd rest w'
                ≡ dispatch h m u t l (record f { token = access }) cmd rest w')
    unfolding login dispatch
    dispatch-login disk codec server w w' b e =
        let id_tok = m.getenv (codes "SEALHUB_ID_TOKEN") in
        let issuer = m.getenv (codes "SEALHUB_OIDC_ISSUER") in
        elim (Bool-cases (id_tok == [] || issuer == [])) [
          | inl missing ↦ (let e' = rw (missing, login) at e in cc)
          | inr set ↦
              let (access, w1, exchanged, saved) =
                after-eq-ok (exchange_id_token h (new_client server []) issuer id_tok w)
                  (save_token h m u server) (rw (set, login) at e) in
              let same =
                resolve_token-same access w'
                  (load_token-save_token disk codec server access w1 w' b saved) in
              (
                access,
                w1,
                exchanged,
                λ f cmd rest.
                    rw (same, hub_token-same f.server [] access rest w' same, dispatch) refl,
              )
        ]

-- ===== src/Api/Authority.antt =====
-- The handler of the server as a whole: who changes the repository through it, and who is told what.
use sealhub.Base.{◌≡◌, ◌≢◌, ◌⊎◌, inl, inr, true, Option, none, some, [], ◌++◌}
use Prim.Native.Nat.{◌/◌}
use sealhub.Base.Text.{Text, codes, has_prefix}
use sealhub.Document.{git_path, system_dir}
use sealhub.Auth.Engine.{Principal, bootstrap, action_read, action_write}
use sealhub.Auth.Authorize.{DistinctIds}
use sealhub.Auth.Grants.{Grants, authorize-Grants}
use sealhub.Auth.Bearer.{bearer}
use sealhub.Auth.Bearer.Access.{IsHolder, authenticate_bearer_sound}
use sealhub.Store.Git.{Outside}
use sealhub.Api.Types.{Request, Answer, Server, Web}
use sealhub.Api.System.{second}
use sealhub.Api.Documents.{document_path}
use sealhub.Api.Routes.{serve}
use sealhub.Api.Confined.{Discloses, Writes, Reads}
use sealhub.Api.Confined.Served.{HasToken, serve-Confined}

module _ (o : Outside) (w : Web) (r : Request) where
  -- The header has a token that is not empty, and the principal is its holder.
  pub record Bears (s : Server o) (p : Principal) : Type 0 where
    pub tok : Text
    pub header : r.authorization ≡ bearer ++ tok
    pub full : tok ≢ []
    pub holder : IsHolder w.bcrypt w.jwt (w.now / second) s.engine tok p

  HasToken-Bears : (s : Server o) (p : Principal) → HasToken o w r (some p) s → Bears s p
  HasToken-Bears s p (tok, header, known) =
      let (full, holder) =
        authenticate_bearer_sound w.bcrypt w.jwt (w.now / second) s.engine tok p known in
      record { tok = tok; header = header; full = full; holder = holder }

  -- A writer: it bears a token, is granted to write the path that the request names, as it is written,
  -- and puts or deletes the document of it, where only the bootstrap principal puts one whose path, as
  -- it is written, begins with "system/". The path is not cleaned before: one with two dots may name a
  -- file that is elsewhere, also below system/.
  pub record IsWriter (s : Server o) (p : Principal) : Type 0 where
    pub bears : Bears s p
    pub named : document_path r ≢ []
    pub granted : Grants s.engine p (git_path (document_path r)) action_write
    pub asked :
        ((r.method ≡ codes "PUT")
          × (has_prefix (document_path r) system_dir ≡ true → p.kind ≡ bootstrap))
        ⊎ (r.method ≡ codes "DELETE")

  writes :
      (s : Server o) (who : Option Principal)
      → DistinctIds s.engine.service_tokens
      → HasToken o w r who s
      → Writes o r who s
      → (p : Principal) × IsWriter s p
  writes s none d t h = absurd h
  writes s (some p) d t may = (
    p,
    record {
      bears = HasToken-Bears s p t;
      named = may.named;
      granted = authorize-Grants s.engine p (git_path (document_path r)) action_write d may.granted;
      asked = may.asked;
    },
  )

  reads :
      (s : Server o) (who : Option Principal) (q : Text)
      → DistinctIds s.engine.service_tokens
      → HasToken o w r who s
      → Reads o who s q
      → (p : Principal) × Bears s p × Grants s.engine p (git_path q) action_read
  reads s none q d t h = absurd h
  reads s (some p) q d t h =
      (p, HasToken-Bears s p t, authorize-Grants s.engine p (git_path q) action_read d h)

  -- With service tokens of distinct identifiers: a request that is answered leaves everything outside
  -- (the worktree, the repository and its remote) and the index as they were, or it comes from the
  -- bearer of a token that is granted to write the path that the request names, as it is written, and
  -- puts or deletes the document of it, where only the bootstrap principal puts one whose path, as it is
  -- written, begins with "system/". A path with two dots may name another file than the one it is
  -- granted by, also one below system/.
  pub serve-IsWriter :
      (s : Server o) (a : Answer) (s' : Server o)
      → DistinctIds s.engine.service_tokens
      → serve o w r s ≡ some (a, s')
      → ((s'.sys.outside ≡ s.sys.outside) × (s'.sys.store.index ≡ s.sys.store.index))
        ⊎ ((p : Principal) × IsWriter s p)
  serve-IsWriter s a s' d h =
      let (who, token, confined) = serve-Confined o w r s a s' h in
      elim confined.kept [ inl same ↦ inl same | inr may ↦ inr (writes s who d token may) ]

  -- With service tokens of distinct identifiers: an answer tells of a document, by its envelope, its
  -- entry in a list or one of the events that are at hand when it is made, only to the bearer of a token
  -- that is granted to read the path of that document, as it is written, or to the writer of the
  -- document that the request names. What a stream sends later is no part of it.
  pub serve-Grants :
      (s : Server o) (a : Answer) (s' : Server o) (q : Text)
      → DistinctIds s.engine.service_tokens
      → serve o w r s ≡ some (a, s')
      → Discloses r a.body q
      → ((p : Principal) × Bears s p × Grants s.engine p (git_path q) action_read)
        ⊎ (((p : Principal) × IsWriter s p) × (q ≡ document_path r))
  serve-Grants s a s' q d h told =
      let (who, token, confined) = serve-Confined o w r s a s' h in
      elim (confined.told q told) [
        | inl may ↦ inl (reads s who q d token may)
        | inr own ↦ inr (writes s who d token own.0, own.1)
      ]

-- ===== src/Api/Confined.antt =====
-- What each handler changes and discloses, against what its principal may do.
pub mod Answers
pub mod System
pub mod Documents
pub mod Events
pub mod Served
use sealhub.Base.{◌≡◌, ◌≢◌, ◌⊎◌, inl, inr, refl, true, Option, none, some, [], Any}
use sealhub.Base.Text.{Text, codes, has_prefix}
use sealhub.Document.{git_path, system_dir}
use sealhub.Auth.Engine.{Principal, bootstrap, authorize, action_read, action_write}
use sealhub.Store.Git.{Outside}
use sealhub.Api.Types.{
  Request, Body, page, message, json, moved, event_stream, no_body, providers, access_token,
  documents, envelope, events, Answer, Server,
}
use sealhub.Api.Documents.{documents_route, document_path}

-- The body tells of the document at a path.
abbrev pub Discloses : Request → Body → Text → Type 0
Discloses r (page t) q = ⊥
Discloses r (message x) q = ⊥
Discloses r (moved t) q = ⊥
Discloses r no_body q = ⊥
Discloses r (json (providers names)) q = ⊥
Discloses r (json (access_token t)) q = ⊥
Discloses r (json (documents ds)) q = Any (λ d. d.0 ≡ q) ds
Discloses r (json (envelope env)) q = q ≡ document_path r
Discloses r (json (events n evs)) q = Any (λ ev. ev.path ≡ q) evs
Discloses r (event_stream evs ch) q = Any (λ ev. ev.path ≡ q) evs

module _ (o : Outside) where
  -- The request asks to write or delete a document, and its principal may: the write is granted, and
  -- only the bootstrap principal puts a document under system/.
  pub record MayWrite (r : Request) (s : Server o) (p : Principal) : Type 0 where
    pub named : document_path r ≢ []
    pub granted : authorize s.engine p (git_path (document_path r)) action_write ≡ true
    pub asked :
        ((r.method ≡ codes "PUT")
          × (has_prefix (document_path r) system_dir ≡ true → p.kind ≡ bootstrap))
        ⊎ (r.method ≡ codes "DELETE")

  abbrev pub Writes : Request → Option Principal → Server o → Type 0
  Writes r none s = ⊥
  Writes r (some p) s = MayWrite r s p

  abbrev pub Reads : Option Principal → Server o → Text → Type 0
  Reads none s q = ⊥
  Reads (some p) s q = authorize s.engine p (git_path q) action_read ≡ true

  -- Nothing outside and no index changes but by a writer, and only what the principal may read is
  -- told, or the document that it wrote.
  pub record Confined (r : Request) (who : Option Principal) (s : Server o) (a : Answer)
      (s' : Server o) : Type 0 where
    pub kept :
        ((s'.sys.outside ≡ s.sys.outside) × (s'.sys.store.index ≡ s.sys.store.index))
        ⊎ Writes r who s
    pub told :
        (q : Text) → Discloses r a.body q → Reads who s q ⊎ (Writes r who s × (q ≡ document_path r))

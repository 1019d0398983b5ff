-- ===== src/Store/Spec/Simulation.antt =====
-- What the worktree of a store holds of a map of documents, and what keeps it.
use mathlib.Core.Path.{subst}
use sealhub.Base.{◌≡◌, ◌≢◌, refl, sym, ◌∙◌, Option, none, some, ap, inl, inr, Bool-cases}
use sealhub.Base.Text.{Text, ◌==◌, eq_iff}
use sealhub.Base.Int.{Int64}
use sealhub.Base.FilePath.{join}
use sealhub.Base.Result.{ok, err, Error, Result-cases}
use sealhub.Document.{Envelope, parse_envelope, git_path}
use sealhub.Crypto.{decrypt}
use sealhub.Store.Git.{Outside, Sys}
use sealhub.Store.Documents.{opened, next_version, check_delete}
use sealhub.Store.Documents.Frame.{IsPlain, Alike, file_of, KeepsOthers}
use sealhub.Store.Spec.{Doc, doc_of, Docs, place, version_after, check_remove}

module _ (o : Outside) where
  -- What a file holds of a document: nothing, or an envelope that can be read and opened.
  abbrev pub Holds : Sys o → Text → Option Doc → Type 0
  Holds s f none = (x : Error) × (o.read_file s.outside f ≡ err x)
  Holds s f (some d) =
      (raw : Text) × (env : Envelope) × (plain : Envelope) × (o.read_file s.outside f ≡ ok raw)
      × (parse_envelope o.yaml raw ≡ ok env)
      × (opened o s env ≡ ok plain)
      × (doc_of plain ≡ d)

  -- The store has the documents of a map.
  pub record Stores (s : Sys o) (docs : Docs) : Type 0 where
    pub holds : (path : Text) → Holds s (file_of o path s) (docs (file_of o path s))

  -- It has those of the plain paths.
  pub record StoresPlain (s : Sys o) (docs : Docs) : Type 0 where
    pub holds : (path : Text) → IsPlain path → Holds s (file_of o path s) (docs (file_of o path s))

  -- An envelope that is opened keeps its version.
  opened-version :
      (s : Sys o) (env plain : Envelope)
      → opened o s env ≡ ok plain
      → plain.metadata.version ≡ env.metadata.version
  unfolding opened
  opened-version s env plain h = elim (Bool-cases env.metadata.encrypted) [
    | inr clear ↦ (let h' = rw (clear, opened) at h in cc)
    | inl sealed ↦ elim (Result-cases (decrypt o.cipher s.store.keyring env.document)) [
      | inr (x, e) ↦ (let h' = rw (sealed, e, opened) at h in cc)
      | inl (text, e) ↦ (let h' = rw (sealed, e, opened) at h in cc)
    ]
  ]

  opened-keyring :
      (s t : Sys o) (env : Envelope)
      → t.store.keyring ≡ s.store.keyring
      → opened o t env ≡ opened o s env
  unfolding opened
  opened-keyring s t env e = rw e refl

  -- The version checks of the store are those of the map.
  pub next_version-Holds :
      (s : Sys o) (f : Text) (d : Option Doc) (expected : Int64)
      → Holds s f d
      → next_version o (o.read_file s.outside f) expected ≡ version_after d expected
  unfolding next_version version_after
  next_version-Holds s f none expected (x, e) = rw e refl
  next_version-Holds s f (some d) expected (raw, env, plain, e, k, l, same) =
      let version : env.metadata.version ≡ d.version =
        sym (opened-version s env plain l) ∙ ap (λ (x : Doc). x.version) same in
      rw (e, next_version, k, version) refl

  pub check_delete-Holds :
      (s : Sys o) (f : Text) (d : Option Doc) (expected : Int64)
      → Holds s f d
      → check_delete o (o.read_file s.outside f) expected ≡ check_remove d expected
  unfolding check_delete check_remove
  check_delete-Holds s f none expected (x, e) = rw e refl
  check_delete-Holds s f (some d) expected (raw, env, plain, e, k, l, same) =
      let version : env.metadata.version ≡ d.version =
        sym (opened-version s env plain l) ∙ ap (λ (x : Doc). x.version) same in
      rw (e, check_delete, k, version) refl

  -- What a file holds stays where the file is read as before and the keys are the same.
  Holds-same :
      (s t : Sys o) (f : Text) (d : Option Doc)
      → Alike o (o.read_file s.outside f) (o.read_file t.outside f)
      → t.store.keyring ≡ s.store.keyring
      → Holds s f d
      → Holds t f d
  Holds-same s t f none e k (x, read) = e.missing x read
  Holds-same s t f (some d) e k (raw, env, plain, read, parsed, opens, same) =
      (raw, env, plain, e.same raw read, parsed, opened-keyring s t env k ∙ opens, same)

  -- A document that is placed is held, and the others are as they were.
  pub Stores-place :
      (path : Text) (s t : Sys o) (d : Option Doc) (docs : Docs)
      → KeepsOthers o (file_of o path s) s t
      → Holds t (file_of o path s) d
      → StoresPlain s docs
      → StoresPlain t (place (file_of o path s) d docs)
  Stores-place path s t d docs k new v = record {
    holds = λ q plain.
        let f = file_of o path s in
        let same : file_of o q t ≡ file_of o q s = ap (λ w. join w (git_path q)) k.work_dir in
        subst (λ g. Holds t g (place f d docs g)) (sym same)
          (elim (Bool-cases (f == file_of o q s)) [
            | inl e ↦ rw e (subst (λ g. Holds t g d) ((eq_iff f (file_of o q s)).0 e) new)
            | inr e ↦
                let apart : f ≢ file_of o q s =
                  λ z. let equal = (eq_iff f (file_of o q s)).1 z in cc in
                rw e (
                  Holds-same s t (file_of o q s) (docs (file_of o q s)) (k.others q plain apart)
                    k.keyring (v.holds q plain))
          ]);
  }

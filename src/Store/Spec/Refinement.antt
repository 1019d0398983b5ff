-- ===== src/Store/Spec/Refinement.antt =====
-- The store refines the map of documents: Apply puts, Delete removes, and GetDocument gets.
use mathlib.Core.Path.{subst}
use sealhub.Base.{ℕ, ◌≡◌, refl, sym, ◌∙◌, true, Option, none, some, List, [], ◌∷◌, ap, length, All}
use sealhub.Base.Text.{Text}
use sealhub.Base.Result.{Result, ok, err, not_found, ◌>>=◌}
use sealhub.Base.Action.{>>=-eq-ok}
use sealhub.Document.{Envelope, IsCodec}
use sealhub.Crypto.{IsAuthenticated}
use sealhub.Store.Git.{Outside, Sys, read_file_at_head}
use sealhub.Store.Documents.{get_document, apply, delete}
use sealhub.Store.Documents.Kept.{IsWorktree}
use sealhub.Store.Documents.Frame.{IsPlain, IsFramed, file_of}
use sealhub.Store.Spec.{Doc, doc_of, Docs, place, put, remove, get, Call, puts, removes, run}
use sealhub.Store.Spec.Simulation.{Holds, StoresPlain}
use sealhub.Store.Spec.Calls.{IsKeyed, in_dir, path_of, run_calls, apply-Puts, delete-Removes}

-- What GetDocument shows of a store that has the documents of a map.
abbrev pub Shows : Result Doc → Result Envelope → Type 0
Shows (err x) r = r ≡ err x
Shows (ok d) r = (env : Envelope) × (r ≡ ok env) × (doc_of env ≡ d)

module _ (o : Outside) where
  module _ (w : IsWorktree o) (f : IsFramed o) (codec : IsCodec o.yaml)
      (a : IsAuthenticated o.cipher)
      (drawn : (u : o.State) (n : ℕ) (bytes : Text)
        → o.draw u n ≡ ok bytes
        → length bytes ≡ n) where
    run_calls-in :
        (cs : List Call) (d : Text) (s t : Sys o) (b : Unit {0}) (docs : Docs)
        → s.store.work_dir ≡ d
        → IsKeyed o s
        → StoresPlain o s docs
        → All (λ c. IsPlain (path_of c)) cs
        → run_calls o cs s ≡ some (ok b, t)
        → (docs' : Docs) × (run (in_dir d) cs docs ≡ ok docs')
          × StoresPlain o t docs'
          × IsKeyed o t
          × (t.store.work_dir ≡ d)
    unfolding run run_calls
    run_calls-in [] d s t b docs at key v _ h =
        let same : s ≡ t = cc in
        (
          docs,
          refl,
          subst (λ u. StoresPlain o u docs) same v,
          subst (IsKeyed o) same key,
          ap (λ (u : Sys o). u.store.work_dir) (sym same) ∙ at,
        )
    run_calls-in (puts path body content_type enc expected owner ∷ cs) d s t b docs at key v
          (plain, plains) h =
        let (out, u, first, later) =
          >>=-eq-ok (apply o path body content_type enc expected owner) (λ _. run_calls o cs) s h in
        let did =
          apply-Puts o w f codec a drawn path body content_type enc expected owner s u out docs key
            v plain first in
        let put_it =
          subst
            (λ g.
              put (in_dir g path) body content_type expected owner docs
              ≡ ok (doc_of out, place (file_of o path s) (some (doc_of out)) docs))
            at did.puts_it in
        let (docs', ran, stores, keyed, where_to) =
          run_calls-in cs d u t b _ (did.work_dir ∙ at) did.keyed did.stores plains later in
        (
          docs',
          ap (λ r. r >>= λ (_, ds). run (in_dir d) cs ds) put_it ∙ ran,
          stores,
          keyed,
          where_to,
        )
    run_calls-in (removes path expected ∷ cs) d s t b docs at key v (plain, plains) h =
        let (_, u, first, later) = >>=-eq-ok (delete o path expected) (λ _. run_calls o cs) s h in
        let did = delete-Removes o w f codec a drawn path expected s u tt docs key v plain first in
        let removed =
          subst
            (λ g. remove (in_dir g path) expected docs ≡ ok (place (file_of o path s) none docs)) at
            did.removes_it in
        let (docs', ran, stores, keyed, where_to) =
          run_calls-in cs d u t b _ (did.work_dir ∙ at) did.keyed did.stores plains later in
        (docs', ap (λ r. r >>= run (in_dir d) cs) removed ∙ ran, stores, keyed, where_to)

    get_document-Shows :
        (path : Text) (s : Sys o) (docs : Docs)
        → s.store.ready ≡ true
        → StoresPlain o s docs
        → IsPlain path
        → Shows (get (file_of o path s) docs) (get_document o path s)
    unfolding get get_document read_file_at_head
    get_document-Shows path s docs ready v plain_path =
        shows (docs (file_of o path s)) (v.holds path plain_path)
      where
        shows :
            (d : Option Doc)
            → Holds o s (file_of o path s) d
            → Shows (elim d [ none ↦ err not_found | some x ↦ ok x ]) (get_document o path s)
        shows none (x, e) = rw (ready, get_document, e) refl
        shows (some d) (raw, env, plain, e, k, l, same) =
            (plain, rw (ready, get_document, e, k, l) refl, same)

    -- For a worktree and commands that touch the files of plain paths that they name alone, a yaml that is
    -- a codec, an authenticated cipher and a random source that draws as much as is asked: a store that
    -- is ready, with keys of 32 bytes, and has the documents of a map at the plain paths, runs a list of
    -- Apply and Delete calls of plain paths that all return without an error only as the map does, and
    -- at its end GetDocument shows of each plain path what the map then has. A path is plain that has
    -- none of the characters of a pattern of git, no backslash and no colon, and no two dots in a row.
    pub run_calls-run :
        (cs : List Call) (s t : Sys o) (b : Unit {0}) (docs : Docs)
        → IsKeyed o s
        → StoresPlain o s docs
        → All (λ c. IsPlain (path_of c)) cs
        → run_calls o cs s ≡ some (ok b, t)
        → (docs' : Docs) × (run (in_dir s.store.work_dir) cs docs ≡ ok docs')
          × ((path : Text)
              → IsPlain path
              → Shows (get (in_dir s.store.work_dir path) docs') (get_document o path t))
    run_calls-run cs s t b docs key v plains h =
        let (docs', ran, stores, keyed, at) =
          run_calls-in cs s.store.work_dir s t b docs refl key v plains h in
        (
          docs',
          ran,
          λ path plain_path.
              subst (λ d. Shows (get (in_dir d path) docs') (get_document o path t)) at
                (get_document-Shows path t docs' keyed.ready stores plain_path),
        )

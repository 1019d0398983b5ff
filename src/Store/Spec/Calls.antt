-- ===== src/Store/Spec/Calls.antt =====
-- One call of the store, and one of the map.
use mathlib.Core.Path.{subst}
use sealhub.Base.{
  ℕ, ◌≡◌, refl, sym, ◌∙◌, Bool, true, false, none, some, List, [], ◌∷◌, ap, All, length,
}
use sealhub.Base.Text.{Text}
use sealhub.Base.Int.{Int64}
use sealhub.Base.FilePath.{join}
use sealhub.Base.Result.{ok}
use sealhub.Base.Action
use sealhub.Base.Action.{Act, >>=-eq-ok, pure}
use sealhub.Document.{Envelope, IsCodec, marshal_envelope, git_path}
use sealhub.Document.Envelopes.{parse_envelope-marshal_envelope}
use sealhub.Crypto.{IsAuthenticated, key_size}
use sealhub.Store.Git.{Outside, Sys, read_file_at_head}
use sealhub.Store.Documents.{new_envelope, shown, stored_body, apply, delete}
use sealhub.Store.Documents.Applied.{apply-Applied}
use sealhub.Store.Documents.Kept.{IsWorktree}
use sealhub.Store.Documents.Saved.{save-reads}
use sealhub.Store.Documents.Frame.{
  IsPlain, IsFramed, file_of, KeepsOthers, save-KeepsOthers, delete-Deleted,
}
use sealhub.Store.Documents.RoundTrip.{opened-stored_body}
use sealhub.Store.Spec.{
  doc_of, Docs, place, new_doc, version_after, put, check_remove, remove, Call, puts, removes,
}
use sealhub.Store.Spec.Simulation.{
  Holds, StoresPlain, next_version-Holds, check_delete-Holds, Stores-place,
}

-- A document's file in a worktree.
abbrev pub in_dir : Text → Text → Text
in_dir d path = join d (git_path path)

-- The path of a call.
abbrev pub path_of : Call → Text
path_of (puts path _ _ _ _ _) = path
path_of (removes path _) = path

module _ (o : Outside) where
  -- A store that is ready, with a ring of keys of 32 bytes that is not empty.
  pub record IsKeyed (s : Sys o) : Type 0 where
    pub ready : s.store.ready ≡ true
    pub first : Text
    pub older : List Text
    pub ring : s.store.keyring.keys ≡ first ∷ older
    pub sized : All (λ k. length k ≡ key_size) s.store.keyring.keys

  KeepsOthers-IsKeyed : (f : Text) (s t : Sys o) → KeepsOthers o f s t → IsKeyed s → IsKeyed t
  KeepsOthers-IsKeyed f s t k v = record {
    ready = k.ready ∙ v.ready;
    first = v.first;
    older = v.older;
    ring = ap (λ r. r.keys) k.keyring ∙ v.ring;
    sized = subst (λ r. All (λ k. length k ≡ key_size) r.keys) (sym k.keyring) v.sized;
  }

  -- Calls of the store one after the other, up to the first that returns an error.
  unfoldable pub run_calls : List Call → Act (Sys o) (Unit {0})
  unfolding apply delete
  run_calls [] = pure tt
  run_calls (puts path body content_type enc expected owner ∷ cs) =
      Action.◌>>=◌ (apply o path body content_type enc expected owner) (λ _. run_calls cs)
  run_calls (removes path expected ∷ cs) = Action.◌>>=◌ (delete o path expected) (λ _. run_calls cs)

  shown-new_doc :
      (enc : Bool) (body doc_body content_type owner : Text) (version : Int64) (s : Sys o)
      → stored_body o enc body s ≡ some (ok doc_body, s)
      → doc_of (
          shown enc body
            (marshal_envelope o.yaml (new_envelope version content_type enc owner doc_body)).1)
        ≡ new_doc version body content_type owner
  unfolding marshal_envelope stored_body
  shown-new_doc true body doc_body content_type owner version s h = refl
  shown-new_doc false body doc_body content_type owner version s h =
      let same : body ≡ doc_body = cc in ap (λ b. new_doc version b content_type owner) (sym same)

  module _ (w : IsWorktree o) (f : IsFramed o) (codec : IsCodec o.yaml)
      (a : IsAuthenticated o.cipher)
      (drawn : (u : o.State) (n : ℕ) (bytes : Text)
        → o.draw u n ≡ ok bytes
        → length bytes ≡ n) where
    -- The result of a call on the store and on the map.
    pub record Puts (path body content_type : Text) (expected : Int64) (owner : Text)
        (out : Envelope) (s t : Sys o) (docs : Docs) : Type 0 where
      pub puts_it :
          put (file_of o path s) body content_type expected owner docs
          ≡ ok (doc_of out, place (file_of o path s) (some (doc_of out)) docs)
      pub stores : StoresPlain o t (place (file_of o path s) (some (doc_of out)) docs)
      pub keyed : IsKeyed t
      pub work_dir : t.store.work_dir ≡ s.store.work_dir

    pub apply-Puts :
        (path body content_type : Text) (enc : Bool) (expected : Int64) (owner : Text) (s t : Sys o)
        (out : Envelope) (docs : Docs)
        → IsKeyed s
        → StoresPlain o s docs
        → IsPlain path
        → apply o path body content_type enc expected owner s ≡ some (ok out, t)
        → Puts path body content_type expected owner out s t docs
    unfolding marshal_envelope put read_file_at_head
    apply-Puts path body content_type enc expected owner s t out docs key v plain_path h =
        let file = file_of o path s in
        let did = apply-Applied o path body content_type enc expected owner s t out h in
        let env =
          (marshal_envelope o.yaml
            (new_envelope did.version content_type enc owner did.doc_body)).1 in
        let parsed =
          parse_envelope-marshal_envelope o.yaml codec
            (new_envelope did.version content_type enc owner did.doc_body) did.raw refl
            did.marshalled in
        let (there, ring_same, _) = save-reads o w path did.raw s t tt did.saving in
        let others = save-KeepsOthers o w f path did.raw s t tt plain_path did.saving in
        let opens =
          opened-stored_body o a s t key.first key.older (drawn s.outside) key.ring key.sized
            ring_same enc body did.doc_body env refl refl did.sealing in
        let doc : doc_of out ≡ new_doc did.version body content_type owner =
          ap doc_of did.result
          ∙ shown-new_doc enc body did.doc_body content_type owner did.version s did.sealing in
        let version : version_after (docs file) expected ≡ ok did.version =
          sym (next_version-Holds o s file (docs file) expected (v.holds path plain_path))
          ∙ did.checked in
        let held : Holds o t file (some (doc_of out)) = (
          did.raw,
          env,
          shown enc body env,
          ap (λ d. o.read_file t.outside (join d (git_path path))) (sym others.work_dir) ∙ there,
          parsed,
          opens,
          ap doc_of (sym did.result),
        ) in
        record {
          puts_it = rw (version, put, doc) refl;
          stores = Stores-place o path s t (some (doc_of out)) docs others held v;
          keyed = KeepsOthers-IsKeyed file s t others key;
          work_dir = others.work_dir;
        }

    pub record Removes (path : Text) (expected : Int64) (s t : Sys o) (docs : Docs) : Type 0 where
      pub removes_it :
          remove (file_of o path s) expected docs ≡ ok (place (file_of o path s) none docs)
      pub stores : StoresPlain o t (place (file_of o path s) none docs)
      pub keyed : IsKeyed t
      pub work_dir : t.store.work_dir ≡ s.store.work_dir

    pub delete-Removes :
        (path : Text) (expected : Int64) (s t : Sys o) (b : Unit {0}) (docs : Docs)
        → IsKeyed s
        → StoresPlain o s docs
        → IsPlain path
        → delete o path expected s ≡ some (ok b, t)
        → Removes path expected s t docs
    unfolding remove read_file_at_head
    delete-Removes path expected s t b docs key v plain_path h =
        let file = file_of o path s in
        let did = delete-Deleted o w f path expected s t b plain_path h in
        let checked : check_remove (docs file) expected ≡ ok tt =
          sym (check_delete-Holds o s file (docs file) expected (v.holds path plain_path))
          ∙ did.checked in
        record {
          removes_it = rw checked refl;
          stores = Stores-place o path s t none docs did.keeps did.gone v;
          keyed = KeepsOthers-IsKeyed file s t did.keeps key;
          work_dir = did.keeps.work_dir;
        }

-- ===== src/Store/Documents/RoundTrip.antt =====
-- GetDocument after Apply.
use sealhub.Base.{
  ℕ, ◌≡◌, refl, ◌∙◌, Bool, true, false, some, List, ◌∷◌, ap, Any, All, length, Option-cases, inl,
  inr,
}
use sealhub.Base.Text.{Text}
use sealhub.Base.Int.{Int64}
use sealhub.Base.Result.{ok}
use sealhub.Document.{Envelope, IsCodec, marshal_envelope}
use sealhub.Document.Envelopes.{parse_envelope-marshal_envelope}
use sealhub.Crypto.{IsAuthenticated, key_size, encrypt}
use sealhub.Crypto.Rotation.{decrypt-encrypt}
use sealhub.Store.Git.{Outside, Sys}
use sealhub.Store.Documents.{new_envelope, shown, stored_body, opened, get_document, apply}
use sealhub.Store.Documents.Applied.{apply-Applied}
use sealhub.Store.Documents.Kept.{IsWorktree}
use sealhub.Store.Documents.Saved.{save-reads}

module _ (o : Outside) where
  -- The body that was stored is opened to the envelope that Apply shows.
  pub opened-stored_body :
      IsAuthenticated o.cipher
      → (s t : Sys o) (first : Text) (older : List Text)
      → ((n : ℕ) (bytes : Text) → o.draw s.outside n ≡ ok bytes → length bytes ≡ n)
      → s.store.keyring.keys ≡ first ∷ older
      → All (λ k. length k ≡ key_size) s.store.keyring.keys
      → t.store.keyring ≡ s.store.keyring
      → (enc : Bool) (body doc_body : Text) (env : Envelope) → env.metadata.encrypted ≡ enc
      → env.document ≡ doc_body
      → stored_body o enc body s ≡ some (ok doc_body, s)
      → opened o t env ≡ ok (shown enc body env)
  unfolding opened stored_body
  opened-stored_body a s t first older drawn ring sized same true body doc_body env flag doc h =
      elim (Option-cases (encrypt o.cipher (o.draw s.outside) s.store.keyring body)) [
        | inl none_left ↦ (let h' = rw (none_left, stored_body) at h in cc)
        | inr (r, e) ↦
            (let h' = rw (e, stored_body) at h in
              let done : r ≡ ok doc_body = cc in
              let held : Any (λ k. k ≡ first) s.store.keyring.keys = rw ring (inl refl) in
              let back =
                decrypt-encrypt o.cipher a (o.draw s.outside) s.store.keyring s.store.keyring first
                  older body doc_body drawn ring sized held (e ∙ ap some done) in
              rw (flag, doc, same, back) refl)
      ]
  opened-stored_body a s t first older drawn ring sized same false body doc_body env flag doc h =
      rw flag refl

  -- Of a worktree that gives back what was written, a yaml that is a codec, an authenticated
  -- cipher, a random source that draws as much as is asked and a store that is ready, with a ring
  -- of 32-byte keys that is not empty: after a successful Apply, GetDocument of its path returns
  -- the envelope that Apply returned, its body in plain text, whether or not it was stored
  -- encrypted.
  pub get_document-apply :
      IsWorktree o
      → IsCodec o.yaml
      → IsAuthenticated o.cipher
      → (s s' : Sys o) (first : Text) (older : List Text)
      → ((n : ℕ) (bytes : Text) → o.draw s.outside n ≡ ok bytes → length bytes ≡ n)
      → s.store.keyring.keys ≡ first ∷ older
      → All (λ k. length k ≡ key_size) s.store.keyring.keys
      → s.store.ready ≡ true
      → (path body content_type : Text) (enc : Bool) (expected : Int64) (owner : Text)
        (out : Envelope)
      → apply o path body content_type enc expected owner s ≡ some (ok out, s')
      → get_document o path s' ≡ ok out
  unfolding get_document marshal_envelope
  get_document-apply w codec a s s' first older drawn ring sized ready path body content_type enc
        expected owner out h =
      let did = apply-Applied o path body content_type enc expected owner s s' out h in
      let (there, kept, same) = save-reads o w path did.raw s s' _ did.saving in
      let env =
        (marshal_envelope o.yaml
          (new_envelope did.version content_type enc owner did.doc_body)).1 in
      let parsed =
        parse_envelope-marshal_envelope o.yaml codec
          (new_envelope did.version content_type enc owner did.doc_body) did.raw refl
          did.marshalled in
      let opens =
        opened-stored_body a s s' first older drawn ring sized kept enc body did.doc_body env refl
          refl did.sealing in
      rw (same, ready, there, parsed, opens, did.result) refl

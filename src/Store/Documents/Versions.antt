-- ===== src/Store/Documents/Versions.antt =====
-- The version numbers of Apply, and what a version check refuses.
use sealhub.Base.{
  ◌≡◌, ◌≢◌, ◌⊎◌, inl, inr, refl, sym, ◌∙◌, Bool, true, false, not, ◌&&◌, some, arith, ap,
  Bool-cases, nat_eq,
}
use sealhub.Base.Text.{Text}
use sealhub.Base.Int.{Int64, lt_int, inc_int}
use sealhub.Base.Result.{Result, ok, err, ok-injective, version_conflict, Result-cases}
use sealhub.Document.{Envelope, IsCodec, marshal_envelope, parse_envelope, git_path}
use sealhub.Document.Envelopes.{parse_envelope-marshal_envelope}
use sealhub.Store.Git.{Outside, Sys, read_file_at_head}
use sealhub.Store.Documents.{new_envelope, shown, next_version, check_apply, apply}
use sealhub.Store.Documents.Applied.{apply-Applied}
use sealhub.Store.Documents.Kept.{IsWorktree}
use sealhub.Store.Documents.Saved.{save-reads}

fresh_version :
    (expected v : Int64)
    → (lt_int 0 expected && not (nat_eq v expected)) ≡ false
    → (lt_int 0 expected ≡ false) ⊎ (v ≡ expected)
fresh_version expected v h = elim (Bool-cases (lt_int 0 expected)) [
  | inr e ↦ inl e
  | inl e ↦ (let k = rw e at h in inr (ground arith))
]

inc_int-moves : (v : Int64) → inc_int v ≢ v
inc_int-moves v = omega arith

module _ (o : Outside) where
  shown-version :
      (enc : Bool) (body doc_body content_type owner : Text) (version : Int64)
      → (shown enc body
          (marshal_envelope o.yaml
            (new_envelope version content_type enc owner doc_body)).1).metadata.version
        ≡ version
  unfolding marshal_envelope
  shown-version true body doc_body content_type owner version = refl
  shown-version false body doc_body content_type owner version = refl

  -- What the file at the path and the caller's version say of the version to write: a new document
  -- has version 1, and one that is there the next one, if the caller did not expect another.
  abbrev pub IsNext : Result Text → Int64 → Int64 → Type 0
  IsNext (err _) expected version = (version ≡ 1) × (lt_int 1 expected ≡ false)
  IsNext (ok raw) expected version =
      (existing : Envelope) × (parse_envelope o.yaml raw ≡ ok existing)
      × (version ≡ inc_int existing.metadata.version)
      × ((lt_int 0 expected ≡ false) ⊎ (existing.metadata.version ≡ expected))

  IsNext-next_version :
      (r : Result Text) (expected version : Int64)
      → next_version o r expected ≡ ok version
      → IsNext r expected version
  unfolding next_version
  IsNext-next_version (err x) expected version h = ground arith
  IsNext-next_version (ok raw) expected version h =
      elim (Result-cases (parse_envelope o.yaml raw)) [
        | inr (x, e) ↦ (let h' = rw (e, next_version) at h in cc)
        | inl (existing, e) ↦
            (let h' = rw (e, next_version) at h in
              elim (Bool-cases
                (lt_int 0 expected && not (nat_eq existing.metadata.version expected))) [
                  | inl stale ↦ (let k = rw stale at h' in cc)
                  | inr fresh ↦
                      (let k = rw fresh at h' in
                        (
                          existing,
                          e,
                          sym (ok-injective k),
                          fresh_version expected existing.metadata.version fresh,
                        ))
                ])
      ]

  -- What a caller that expected another version is told.
  abbrev pub IsStale : Result Text → Int64 → Type 0
  IsStale (err _) expected = lt_int 1 expected ≡ true
  IsStale (ok raw) expected =
      (existing : Envelope) × (parse_envelope o.yaml raw ≡ ok existing)
      × (lt_int 0 expected ≡ true)
      × (existing.metadata.version ≢ expected)

  next_version-IsStale :
      (r : Result Text) (expected : Int64)
      → IsStale r expected
      → next_version o r expected ≡ err version_conflict
  unfolding next_version
  next_version-IsStale (err x) expected h = rw h refl
  next_version-IsStale (ok raw) expected (existing, e, positive, other) =
      let differs : nat_eq existing.metadata.version expected ≡ false = ground arith in
      rw (e, next_version, positive, differs) refl

  -- A caller with a stale version is refused, and nothing is changed.
  pub apply-IsStale :
      (path body content_type : Text) (enc : Bool) (expected : Int64) (owner : Text) (s : Sys o)
      → IsStale (read_file_at_head o (git_path path) s) expected
      → apply o path body content_type enc expected owner s ≡ some (err version_conflict, s)
  unfolding apply check_apply
  apply-IsStale path body content_type enc expected owner s stale =
      rw (next_version-IsStale (read_file_at_head o (git_path path) s) expected stale) refl

  -- A successful Apply returns the version that follows the one in the file, and 1 without a file,
  -- and its caller expected the version in the file, or none.
  pub apply-IsNext :
      (path body content_type : Text) (enc : Bool) (expected : Int64) (owner : Text) (s s' : Sys o)
      (out : Envelope)
      → apply o path body content_type enc expected owner s ≡ some (ok out, s')
      → IsNext (read_file_at_head o (git_path path) s) expected out.metadata.version
  apply-IsNext path body content_type enc expected owner s s' out h =
      let did = apply-Applied o path body content_type enc expected owner s s' out h in
      let same : out.metadata.version ≡ did.version =
        rw did.result (shown-version enc body did.doc_body content_type owner did.version) in
      rw same (
        IsNext-next_version (read_file_at_head o (git_path path) s) expected did.version
          did.checked)

  moved_on :
      (raw : Text) (expected version : Int64)
      → lt_int 0 expected ≡ true
      → IsNext (ok raw) expected version
      → version ≢ expected
  moved_on raw expected version positive (existing, e, step, inl h) = cc
  moved_on raw expected version positive (existing, e, step, inr h) =
      λ same. inc_int-moves expected (ap inc_int (sym h) ∙ sym step ∙ same)

  -- On a worktree that gives back what was written, with a yaml that is a codec: of two callers
  -- that expect the same positive version of a document that can be read, only the first one
  -- writes. The second is refused, and the state stays as the first one left it.
  pub apply-apply :
      IsWorktree o
      → IsCodec o.yaml
      → (path body content_type : Text) (enc : Bool) (expected : Int64) (owner : Text)
        (s s' : Sys o) (out : Envelope) (raw : Text)
      → read_file_at_head o (git_path path) s ≡ ok raw
      → lt_int 0 expected ≡ true
      → apply o path body content_type enc expected owner s ≡ some (ok out, s')
      → (body' content_type' : Text) (enc' : Bool) (owner' : Text)
      → apply o path body' content_type' enc' expected owner' s' ≡ some (err version_conflict, s')
  unfolding marshal_envelope
  apply-apply w codec path body content_type enc expected owner s s' out raw there positive h body'
        content_type' enc' owner' =
      let did = apply-Applied o path body content_type enc expected owner s s' out h in
      let (written, _, _) = save-reads o w path did.raw s s' _ did.saving in
      let env = new_envelope did.version content_type enc owner did.doc_body in
      let parsed = parse_envelope-marshal_envelope o.yaml codec env did.raw refl did.marshalled in
      let next : IsNext (ok raw) expected did.version =
        IsNext-next_version (ok raw) expected did.version
          (ap (λ r. next_version o r expected) (sym there) ∙ did.checked) in
      apply-IsStale path body' content_type' enc' expected owner' s' (
        rw written (
          (marshal_envelope o.yaml env).1,
          parsed,
          positive,
          λ v. moved_on raw expected did.version positive next v,
        ))

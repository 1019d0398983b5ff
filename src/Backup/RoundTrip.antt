-- ===== src/Backup/RoundTrip.antt =====
-- The round trip of a backup, and what a backup that decodes is known to be.
use sealhub.Base.{◌≡◌, ◌↔◌, ◌⊎◌, inl, inr, ap, [], arith, Bool-cases}
use sealhub.Base.Text.{Text, codes, ◌==◌, eq_iff, eq_refl, trim_space}
use sealhub.Base.Result.{ok, ok-injective, >>=-eq-ok, Result-cases}
use sealhub.Backup.{
  BackupDoc, Formats, IsFaithful, backup_kind, backup_doc, encode_backup, check_digest, decode_data,
  decode_backup,
}

module _ (f : Formats) where
  check_digest_iff :
      (sha256 raw t : Text)
      → (check_digest f sha256 raw ≡ ok t)
        ↔ ((raw ≡ t) × ((sha256 ≡ []) ⊎ (f.sha256_hex t ≡ sha256)))
  unfolding check_digest
  check_digest_iff sha256 raw t = ground (arith, eq_iff sha256 [], eq_iff (f.sha256_hex raw) sha256)

  decode_data_iff :
      (doc : BackupDoc) (t : Text)
      → (decode_data f doc ≡ ok t) ↔ (
          (doc.kind ≡ backup_kind)
          × (doc.spec.encoding ≡ codes "base64")
          × (f.decode_base64 (trim_space doc.«data») ≡ ok t)
          × ((doc.metadata.sha256 ≡ []) ⊎ (f.sha256_hex t ≡ doc.metadata.sha256)))
  unfolding decode_data
  decode_data_iff doc t = elim (Bool-cases (doc.kind == backup_kind)) [
    | inr other ↦ rw other (λ h. cc, λ h. let z = (eq_iff doc.kind backup_kind).1 h.0 in cc)
    | inl kind ↦ elim (Bool-cases (doc.spec.encoding == codes "base64")) [
      | inr other ↦
          rw (kind, other)
            (λ h. cc, λ h. let z = (eq_iff doc.spec.encoding (codes "base64")).1 h.1 in cc)
      | inl encoding ↦ elim (Result-cases (f.decode_base64 (trim_space doc.«data»))) [
        | inr (x, e) ↦ rw (kind, encoding, e) (λ h. cc, λ h. let z = h.2 in cc)
        | inl (raw, e) ↦
            rw (kind, encoding, e)
              (
                λ h.
                    let (same, digest) = (check_digest_iff doc.metadata.sha256 raw t).0 h in
                    (
                      (eq_iff doc.kind backup_kind).0 kind,
                      (eq_iff doc.spec.encoding (codes "base64")).0 encoding,
                      ap ok same,
                      digest,
                    ),
                λ h.
                    let (_, _, same, digest) = h in
                    (check_digest_iff doc.metadata.sha256 raw t).1 (ok-injective same, digest),
              )
      ]
    ]
  ]

  -- With formats that read back what they wrote, decoding the document of a backup gives back the
  -- database.
  pub decode_backup-encode_backup :
      IsFaithful f
      → (now db source document : Text) → encode_backup f now db source ≡ ok document
      → decode_backup f document ≡ ok db
  unfolding encode_backup decode_backup decode_data check_digest
  decode_backup-encode_backup v now db source document h =
      rw
        (
          v.reads_back (backup_doc f now db source) document h,
          eq_refl backup_kind,
          eq_refl (codes "base64"),
          v.is_trimmed db,
          v.decodes db,
          eq_refl (f.sha256_hex db),
        )
        (ground arith)

  -- A document decodes to a text exactly if it is a backup in base64, its data stand for the text,
  -- and its digest is left out or is the one of the text.
  pub decode_backup_iff :
      (document t : Text)
      → (decode_backup f document ≡ ok t) ↔ (
          (doc : BackupDoc) × (f.unmarshal document ≡ ok doc)
          × (doc.kind ≡ backup_kind)
          × (doc.spec.encoding ≡ codes "base64")
          × (f.decode_base64 (trim_space doc.«data») ≡ ok t)
          × ((doc.metadata.sha256 ≡ []) ⊎ (f.sha256_hex t ≡ doc.metadata.sha256)))
  unfolding decode_backup
  decode_backup_iff document t = (
    (λ h.
        let (doc, read, decoding) = >>=-eq-ok (f.unmarshal document) (decode_data f) h in
        let (k, e, d, g) = (decode_data_iff doc t).0 decoding in (doc, read, k, e, d, g)),
    (λ h.
        let (doc, read, k, e, d, g) = h in
        rw (read, decode_backup) ((decode_data_iff doc t).1 (k, e, d, g))),
  )

-- ===== src/Backup/Tests.antt =====
-- Runs of the backup, with a format that writes the data in the clear.
use mathlib.Core.List.{reverse, reverse-append, reverse-reverse}
use sealhub.Base.{
  ◌≡◌, ◌∙◌, sym, ap, [], ◌∷◌, ◌++◌, refl, drop, take-length-append, drop-length-append,
}
use sealhub.Base.Fields.{put, taken}
use sealhub.Base.Text.{Text, codes, trim_space, trim_left}
use sealhub.Base.Result.{Result, ok, err, foreign, ok-injective}
use sealhub.Backup.{BackupDoc, Formats, IsFaithful, backup_doc}

abbrev put_doc : BackupDoc → Text
put_doc d =
    d.spec.size_bytes
    ∷ put d.api_version (
        put d.kind (
          put d.metadata.created_at (
            put d.metadata.source
              (put d.metadata.sha256 (put d.spec.encoding (put d.spec.database_file d.«data»))))))

abbrev taken_doc : Text → Result BackupDoc
taken_doc [] = err (foreign [])
taken_doc (size ∷ rest) =
    let (api, r1) = taken rest in
    let (kind, r2) = taken r1 in
    let (created, r3) = taken r2 in
    let (source, r4) = taken r3 in
    let (sha256, r5) = taken r4 in
    let (encoding, r6) = taken r5 in
    let (file, last) = taken r6 in
    ok (record {
      api_version = api;
      kind = kind;
      metadata = record { created_at = created; source = source; sha256 = sha256 };
      spec = record { encoding = encoding; size_bytes = size; database_file = file };
      «data» = last;
    })

taken_doc-put_doc : (d : BackupDoc) → taken_doc (put_doc d) ≡ ok d
taken_doc-put_doc d =
    let r6 = put d.spec.database_file d.«data» in
    let r5 = put d.spec.encoding r6 in
    let r4 = put d.metadata.sha256 r5 in
    let r3 = put d.metadata.source r4 in
    let r2 = put d.metadata.created_at r3 in
    let r1 = put d.kind r2 in
    rw
      (
        take-length-append d.api_version r1,
        drop-length-append d.api_version r1,
        take-length-append d.kind r2,
        drop-length-append d.kind r2,
        take-length-append d.metadata.created_at r3,
        drop-length-append d.metadata.created_at r3,
        take-length-append d.metadata.source r4,
        drop-length-append d.metadata.source r4,
        take-length-append d.metadata.sha256 r5,
        drop-length-append d.metadata.sha256 r5,
        take-length-append d.spec.encoding r6,
        drop-length-append d.spec.encoding r6,
        take-length-append d.spec.database_file d.«data»,
        drop-length-append d.spec.database_file d.«data»,
      )
      refl

-- The text between two zeros.
abbrev between : Text → Text
between t = 0 ∷ (t ++ 0 ∷ [])

abbrev inner : Text → Text
inner w = reverse (drop 1 (reverse (drop 1 w)))

reverse-between : (t : Text) → reverse (between t) ≡ 0 ∷ reverse (0 ∷ t)
reverse-between t = reverse-append (0 ∷ t) (0 ∷ [])

inner-between : (t : Text) → inner (between t) ≡ t
inner-between t = ap (λ w. reverse (drop 1 w)) (reverse-append t (0 ∷ [])) ∙ reverse-reverse t

trim_space-between : (t : Text) → trim_space (between t) ≡ between t
unfolding trim_space trim_left
trim_space-between t =
    ap (λ w. reverse (trim_left w)) (reverse-between t)
    ∙ ap reverse (sym (reverse-between t))
    ∙ reverse-reverse (between t)

abbrev pub clear : Formats
clear = record {
  marshal = λ d. ok (put_doc d);
  unmarshal = taken_doc;
  sha256_hex = λ t. codes "sum:" ++ t;
  encode_base64 = between;
  decode_base64 = λ t. ok (inner t);
}

pub clear-IsFaithful : IsFaithful clear
clear-IsFaithful = record {
  reads_back = λ d raw h. let same = ok-injective h in rw (sym same) (taken_doc-put_doc d);
  decodes = λ t. ap ok (inner-between t);
  is_trimmed = trim_space-between;
}

abbrev kept : Text
kept = put_doc (backup_doc clear (codes "2026-01-01T00:00:00Z") (codes "db") (codes "pi"))

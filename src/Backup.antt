-- ===== src/Backup.antt =====
-- internal/cli/pocket/backup_doc.go and paths.go: the document in which a backup of the database is
-- kept, and where the documents of a backup are.
pub mod RoundTrip
pub mod Paths
pub mod Tests
use sealhub.Base.{◌≡◌, ◌++◌, Bool, not, ◌&&◌, List, [], if◌then◌else◌, nat_eq, length, ℕ}
use sealhub.Base.Text.{Text, codes, ◌==◌, trim_space}
use sealhub.Base.Result.{
  Result, ok, err, unexpected_kind, unsupported_encoding, invalid_base64, digest_mismatch, ◌>>=◌,
}

pub record BackupMeta : Type 0 where
  pub created_at : Text
  pub source : Text
  pub sha256 : Text

pub record BackupSpec : Type 0 where
  pub encoding : Text
  pub size_bytes : ℕ
  pub database_file : Text

pub record BackupDoc : Type 0 where
  pub api_version : Text
  pub kind : Text
  pub metadata : BackupMeta
  pub spec : BackupSpec
  pub «data» : Text

abbrev pub backup_api : Text
backup_api = codes "sealhub.io/v1"

abbrev pub backup_kind : Text
backup_kind = codes "PocketIDDatabaseBackup"

unfoldable pub db_document_path : Text → Text
db_document_path instance_name = codes "pocket/" ++ instance_name ++ codes "/pocket-id.db.yaml"

unfoldable pub env_document_path : Text → Text
env_document_path instance_name = codes "secrets/" ++ instance_name ++ codes "/pocket-id.env"

-- yaml.v3, crypto/sha256 with encoding/hex, and encoding/base64, as the backup uses them.
pub record Formats : Type 0 where
  pub marshal : BackupDoc → Result Text
  pub unmarshal : Text → Result BackupDoc
  pub sha256_hex : Text → Text
  pub encode_base64 : Text → Text
  pub decode_base64 : Text → Result Text

-- yaml reads back what it wrote, base64 too, and its text has no white space around it.
pub record IsFaithful (f : Formats) : Type 0 where
  pub reads_back :
      (doc : BackupDoc) (raw : Text) → f.marshal doc ≡ ok raw → f.unmarshal raw ≡ ok doc
  pub decodes : (t : Text) → f.decode_base64 (f.encode_base64 t) ≡ ok t
  pub is_trimmed : (t : Text) → trim_space (f.encode_base64 t) ≡ f.encode_base64 t

abbrev pub backup_doc : Formats → Text → Text → Text → BackupDoc
backup_doc f now db source = record {
  api_version = backup_api;
  kind = backup_kind;
  metadata = record { created_at = now; source = source; sha256 = f.sha256_hex db };
  spec = record {
    encoding = codes "base64";
    size_bytes = length db;
    database_file = codes "pocket-id.db";
  };
  «data» = f.encode_base64 db;
}

-- The first text is the time in the format RFC 3339.
unfoldable pub encode_backup : Formats → Text → Text → Text → Result Text
encode_backup f now db source = f.marshal (backup_doc f now db source)

-- The check of the digest, where the document has one.
unfoldable pub check_digest : Formats → Text → Text → Result Text
check_digest f sha256 raw =
    if not (sha256 == []) && not (f.sha256_hex raw == sha256) then err digest_mismatch else ok raw

unfoldable pub decode_data : Formats → BackupDoc → Result Text
unfolding check_digest
decode_data f doc =
    if not (doc.kind == backup_kind)
    then err (unexpected_kind doc.kind)
    else if not (doc.spec.encoding == codes "base64")
    then err (unsupported_encoding doc.spec.encoding)
    else elim (f.decode_base64 (trim_space doc.«data»)) [
      | err _ ↦ err invalid_base64
      | ok raw ↦ check_digest f doc.metadata.sha256 raw
    ]

unfoldable pub decode_backup : Formats → Text → Result Text
unfolding decode_data
decode_backup f document = do doc ← f.unmarshal document; decode_data f doc

-- ===== src/Backup/Paths.antt =====
-- Where a backup is kept, and which part of it is encrypted.
use sealhub.Base.{◌≡◌, refl, true, false, ◌++◌}
use sealhub.Base.Text.{Text, cut_prefix}
use sealhub.Document.{default_encrypt_for_path, git_path, data_dir}
use sealhub.Backup.{db_document_path, env_document_path}

-- For every instance, the environment file is a document that is encrypted by default and the
-- database is one that is not, and both are kept under data/ in the repository.
pub backup_paths_lem :
    (name : Text)
    → (default_encrypt_for_path (env_document_path name) ≡ true)
      × (default_encrypt_for_path (db_document_path name) ≡ false)
      × (git_path (env_document_path name) ≡ data_dir ++ env_document_path name)
      × (git_path (db_document_path name) ≡ data_dir ++ db_document_path name)
unfolding default_encrypt_for_path git_path db_document_path env_document_path cut_prefix
backup_paths_lem name = (refl, refl, refl, refl)

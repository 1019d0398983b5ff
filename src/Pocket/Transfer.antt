-- ===== src/Pocket/Transfer.antt =====
-- Backup and Restore.
use sealhub.Base.{Bool, false, none, some, [], ◌∷◌, ◌++◌, if◌then◌else◌}
use sealhub.Base.Text.{Text, codes, trim_space}
use sealhub.Base.FilePath.{join}
use sealhub.Base.Action.{after}
use sealhub.Base.Result.{Result, ok, err}
use sealhub.Client.Types.{ApplyRequest, Http, Client}
use sealhub.Client.Calls.{get, apply}
use sealhub.Backup.{encode_backup, decode_backup, db_document_path, env_document_path}
use sealhub.Pocket.Machine.{
  Options, Machine, data_dir, env_file, db_file, wrapped, normalize, stop_pocket_id,
  start_pocket_id, snapshot_database,
}

abbrev pub env_request : Text → ApplyRequest
env_request t = record {
  document = t;
  content_type = codes "text/plain";
  encrypt = none;
  expected_version = 0;
}

abbrev pub db_request : Text → ApplyRequest
db_request t = record {
  document = t;
  content_type = codes "application/yaml";
  encrypt = some false;
  expected_version = 0;
}

module _ (h : Http) (m : Machine h) where
  abbrev pub Action : Type 0
  Action = h.World → Result (Unit {0}) × h.World

  -- What is started once more, whatever the body returned.
  abbrev pub restarted : Text → Result (Unit {0}) × h.World → Result (Unit {0}) × h.World
  restarted home (out, w) = (out, (start_pocket_id h m home w).1)

  -- The service is stopped before and started after.
  unfoldable pub with_stopped : Bool → Text → Action → Action
  with_stopped stop home body w =
      if stop then after (stop_pocket_id h m home w) (λ _ w1. restarted home (body w1)) else body w

  -- What an error of a call is told as.
  abbrev pub told : {A : Type 0} → Text → Result A × h.World → Result A × h.World
  told t (err x, w) = (err (wrapped h m t x), w)
  told t (ok a, w) = (ok a, w)

  unfoldable pub apply_database : Client → Text → Text → Action
  unfolding apply
  apply_database c instance_name doc w =
      after
        (told (codes "apply database")
          (apply h c (db_document_path instance_name) (db_request doc) w))
        (λ _ w'. (ok tt, w'))

  unfoldable pub apply_documents : Client → Text → Text → Text → Action
  unfolding apply apply_database
  apply_documents c instance_name env doc w =
      after
        (told (codes "apply env") (apply h c (env_document_path instance_name) (env_request env) w))
        (λ _ w'. apply_database c instance_name doc w')

  -- From the copy of the database on.
  unfoldable pub upload : Client → Options → Text → Text → Action
  unfolding encode_backup apply_documents
  upload c opt env copied w =
      after (m.read_file copied w, w)
        (λ db w1.
          after (encode_backup m.formats (m.now w1) db opt.home, w1)
            (λ doc w2. apply_documents c opt.instance_name env doc w2))

  unfoldable pub copy_and_upload : Client → Options → Text → Text → Action
  unfolding snapshot_database upload
  copy_and_upload c opt env copied w =
      after (snapshot_database h m (data_dir opt.home) copied opt.stop_compose w)
        (λ _ w'. upload c opt env copied w')

  abbrev pub removed : Text → Result (Unit {0}) × h.World → Result (Unit {0}) × h.World
  removed copied (out, w) = (out, m.remove copied w)

  -- The copy is removed at the end.
  unfoldable pub in_temp : Client → Options → Text → Action
  unfolding copy_and_upload
  in_temp c opt env w =
      after (m.create_temp w) (λ copied w'. removed copied (copy_and_upload c opt env copied w'))

  unfoldable pub backup : Client → Options → Action
  unfolding normalize in_temp with_stopped join
  backup c options w =
      let opt = normalize h m options in
      after (told (codes "read .env") (m.read_file (env_file opt.home) w, w))
        (λ env w'. with_stopped opt.stop_compose opt.home (in_temp c opt env) w')

  unfoldable pub write_database : Text → Text → Action
  unfolding join
  write_database home db w =
      let cleared =
        m.remove (db_file home ++ codes "-wal") (m.remove (db_file home ++ codes "-shm") w) in
      told (codes "write database") (m.write_file (db_file home) db cleared)

  unfoldable pub write_files : Text → Text → Text → Action
  unfolding write_database trim_space join
  write_files home env db w = after (m.mkdir_all (data_dir home) w) (λ _ w1.
      after
        (told (codes "write .env") (m.write_file (env_file home) (trim_space env ++ b'\n' ∷ []) w1))
        (λ _ w2. write_database home db w2))

  -- With both documents.
  unfoldable pub restore_files : Options → Text → Text → Action
  unfolding decode_backup write_files with_stopped
  restore_files opt env doc w =
      after (decode_backup m.formats doc, w)
        (λ db w'. with_stopped opt.stop_compose opt.home (write_files opt.home env db) w')

  unfoldable pub restore_database : Client → Options → Text → Action
  unfolding restore_files get
  restore_database c opt env w =
      after (told (codes "get database") (get h c (db_document_path opt.instance_name) w))
        (λ kept w'. restore_files opt env kept.document w')

  unfoldable pub restore : Client → Options → Action
  unfolding normalize restore_database get
  restore c options w =
      let opt = normalize h m options in
      after (told (codes "get env") (get h c (env_document_path opt.instance_name) w))
        (λ kept w'. restore_database c opt kept.document w')

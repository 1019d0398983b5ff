-- ===== src/Pocket/RoundTrip.antt =====
-- A restore that follows a backup.
use sealhub.Base.{◌≡◌, ◌≢◌, sym, ap, ◌∙◌, [], ◌∷◌, ◌++◌, if◌then◌else◌}
use sealhub.Base.Text.{Text, codes, trim_space}
use sealhub.Base.Action.{after, after-eq-ok}
use sealhub.Base.Result.{ok}
use sealhub.Document.{Envelope}
use sealhub.Client.Types.{Http, Client}
use sealhub.Client.Calls.{get}
use sealhub.Backup.{encode_backup, IsFaithful, decode_backup, db_document_path, env_document_path}
use sealhub.Backup.RoundTrip.{decode_backup-encode_backup}
use sealhub.Pocket.Machine.{
  Options, Machine, data_dir, env_file, db_file, normalize, start_pocket_id,
}
use sealhub.Pocket.Transfer.{
  with_stopped, told, write_database, write_files, restore_files, restore_database, restore,
}
use sealhub.Pocket.Uploaded.{told-eq-ok, IsDisk, with_stopped-eq-ok}

module _ (h : Http) (m : Machine h) where
  -- The file .env is none of the files of the database.
  pub record Apart (home : Text) : Type 0 where
    pub from_db : env_file home ≢ db_file home
    pub from_shm : env_file home ≢ db_file home ++ codes "-shm"
    pub from_wal : env_file home ≢ db_file home ++ codes "-wal"

  -- What the files are after a restore.
  abbrev pub Restored : Text → Text → Text → h.World → Type 0
  Restored home env db w =
      (m.read_file (env_file home) w ≡ ok (trim_space env ++ b'\n' ∷ []))
      × (m.read_file (db_file home) w ≡ ok db)

  write_files-Restored :
      (home env db : Text) (w w' : h.World)
      → IsDisk h m
      → Apart home
      → write_files h m home env db w ≡ (ok tt, w')
      → Restored home env db w'
  unfolding write_files write_database
  write_files-Restored home env db w w' disk apart e =
      let text = trim_space env ++ b'\n' ∷ [] in
      let (u, w1, made, e1) = after-eq-ok (m.mkdir_all (data_dir home) w) _ e in
      let (v, w2, put, e2) =
        after-eq-ok (told h m (codes "write .env") (m.write_file (env_file home) text w1)) _ e1 in
      let wrote = told-eq-ok h m (codes "write .env") (m.write_file (env_file home) text w1) put in
      let shm = m.remove (db_file home ++ codes "-shm") w2 in
      let cleared = m.remove (db_file home ++ codes "-wal") shm in
      let stored =
        told-eq-ok h m (codes "write database") (m.write_file (db_file home) db cleared) e2 in
      let still : m.read_file (env_file home) w' ≡ m.read_file (env_file home) w2 =
        ap (λ p. m.read_file (env_file home) p.1) (sym stored)
        ∙ disk.leaves (db_file home) (env_file home) db cleared apart.from_db
        ∙ disk.removes (db_file home ++ codes "-wal") (env_file home) shm apart.from_wal
        ∙ disk.removes (db_file home ++ codes "-shm") (env_file home) w2 apart.from_shm in
      (
        still ∙ disk.reads_written (env_file home) text w1 w2 wrote,
        disk.reads_written (db_file home) db cleared w' stored,
      )

  -- What a restore that succeeded went through.
  restore-write_files :
      (c : Client) (options : Options) (w w1 w2 w' : h.World) (env_kept db_kept : Envelope)
      (db : Text)
      → get h c (env_document_path (normalize h m options).instance_name) w ≡ (ok env_kept, w1)
      → get h c (db_document_path (normalize h m options).instance_name) w1 ≡ (ok db_kept, w2)
      → decode_backup m.formats db_kept.document ≡ ok db
      → restore h m c options w ≡ (ok tt, w')
      → with_stopped h m
          (normalize h m options).stop_compose
          (normalize h m options).home
          (write_files h m (normalize h m options).home env_kept.document db)
          w2
        ≡ (ok tt, w')
  unfolding restore restore_database restore_files
  restore-write_files c options w w1 w2 w' env_kept db_kept db g1 g2 decoded e =
      let opt = normalize h m options in
      sym (
        ap
          (λ r.
            after (told h m (codes "get env") r)
              (λ kept v. restore_database h m c opt kept.document v))
          g1
        ∙ ap
            (λ r.
              after (told h m (codes "get database") r)
                (λ kept v. restore_files h m opt env_kept.document kept.document v))
            g2
        ∙ ap
            (λ r.
              after (r, w2)
                (λ db v.
                  with_stopped h m opt.stop_compose opt.home
                    (write_files h m opt.home env_kept.document db) v))
            decoded)
      ∙ e

  -- Let writes and removals do to the files what they say, and the formats of a backup read back what
  -- they wrote. If a restore succeeds for which Get returns a document of the environment and the
  -- document that encodeBackup made of a database, under a home where .env is none of the files of the
  -- database, then it left .env with the environment, trimmed and with a line feed, and the file of the
  -- database with that database, before the service was started again, if it was to be stopped.
  pub restore-encode_backup :
      IsDisk h m
      → IsFaithful m.formats
      → (time db source doc : Text) → encode_backup m.formats time db source ≡ ok doc
      → (c : Client) (options : Options) (w1 w2 w3 w4 : h.World) (env_kept db_kept : Envelope)
      → Apart (normalize h m options).home
      → get h c (env_document_path (normalize h m options).instance_name) w1 ≡ (ok env_kept, w2)
      → get h c (db_document_path (normalize h m options).instance_name) w2 ≡ (ok db_kept, w3)
      → db_kept.document ≡ doc
      → restore h m c options w1 ≡ (ok tt, w4)
      → (t : h.World) × Restored (normalize h m options).home env_kept.document db t
        × (w4 ≡ (
            if (normalize h m options).stop_compose
            then (start_pocket_id h m (normalize h m options).home t).1
            else t))
  restore-encode_backup disk faithful time db source doc encoded c options w1 w2 w3 w4 env_kept
        db_kept apart g1 g2 same done =
      let opt = normalize h m options in
      let decoded =
        ap (decode_backup m.formats) same
        ∙ decode_backup-encode_backup m.formats faithful time db source doc encoded in
      let run = restore-write_files c options w1 w2 w3 w4 env_kept db_kept db g1 g2 decoded done in
      let (t1, t, wrote, last) =
        with_stopped-eq-ok h m opt.stop_compose opt.home
          (write_files h m opt.home env_kept.document db) w3 w4 run in
      (t, write_files-Restored opt.home env_kept.document db t1 t disk apart wrote, last)

-- ===== src/Pocket/Tests.antt =====
-- A backup of one directory, and a restore from it, on a machine whose files are in a table beside the
-- documents.
use sealhub.Base.{
  ◌≡◌, ◌≢◌, refl, sym, ap, ◌∙◌, true, false, Option, none, some, [], ◌∷◌, if◌then◌else◌, Bool-cases,
  inl, inr,
}
use sealhub.Base.Text.{Text, codes, ◌==◌, eq_iff, eq_refl, split, cut_prefix}
use sealhub.Base.FilePath.{join}
use sealhub.Base.Result.{Result, ok, err, foreign}
use sealhub.Document.{Envelope}
use sealhub.Client.Types.{Sent, Reply, Http, Client}
use sealhub.Client.Calls.{get}
use sealhub.Store.Index.{Table, find, assign, remove}
use sealhub.Store.Index.Contents.{find-assign, find-remove}
use sealhub.Backup.{db_document_path, env_document_path, encode_backup}
use sealhub.Backup.Tests.{clear, clear-IsFaithful}
use sealhub.Pocket.Machine.{compose_run, Options, Machine, normalize}
use sealhub.Pocket.Transfer.{backup, restore}
use sealhub.Pocket.Uploaded.{IsDisk}
use sealhub.Pocket.RoundTrip.{Apart, Restored, restore-encode_backup}

abbrev or_missing : Option Text → Result Text
or_missing none = err (foreign (codes "no such file"))
or_missing (some t) = ok t

abbrev reply : Option Text → Reply
reply none = record { status = 404; body = []; reads = [] }
reply (some t) = record { status = 200; body = t; reads = [] }

abbrev served : Sent → Table Text → Result Reply × Table Text
served q w =
    if q.method == codes "PUT"
    then (ok (reply (some q.body)), assign q.url q.body w)
    else (ok (reply (find q.url w)), w)

abbrev pub http : Http
http = record {
  World = Table Text;
  Item = Text;
  check_url = λ u. none;
  with_query = λ u q. some u;
  send = served;
  itoa = λ n. [];
  marshal_apply = λ ar. ar.document;
  marshal_exchange = λ issuer t. [];
  decode_envelope = λ r. ok (record {
    schema = 1;
    metadata = record {
      version = 1;
      content_type = [];
      encrypted = false;
      labels = [];
      owner = [];
    };
    document = r.body;
  });
  decode_documents = λ r. ok [];
  decode_access_token = λ r. ok (codes "at");
  unmarshal_event = λ t. err (foreign []);
}

-- Neither docker nor sqlite3 is there.
abbrev pub machine : Machine http
machine = record {
  getenv = λ k. [];
  read_file = λ p w. or_missing (find p w);
  write_file = λ p t w. (ok tt, assign p t w);
  mkdir_all = λ p w. (ok tt, w);
  remove = λ p w. remove p w;
  create_temp = λ w. (ok (codes "/t"), w);
  stat = λ p w. none;
  look_path = λ p w. false;
  run = λ bin args dir w. (ok tt, w);
  combined_output = λ bin args w. (([], none), w);
  now = λ w. codes "2026-01-01T00:00:00Z";
  error_text = λ x. [];
  formats = clear;
}

same_key : (p t : Text) (w : Table Text) → (if p == p then some t else find p w) ≡ some t
same_key p t w = rw (eq_refl p) refl

other_key :
    (p q : Text) (v : Option Text) (w : Table Text)
    → q ≢ p
    → (if p == q then v else find q w) ≡ find q w
other_key p q v w n = elim (Bool-cases (p == q)) [
  | inl e ↦ absurd (n (sym ((eq_iff p q).0 e)))
  | inr e ↦ rw e refl
]

pub machine-IsDisk : IsDisk http machine
machine-IsDisk = record {
  reads_written = λ p t w w' e.
      ap (λ r. or_missing (find p r.1)) (sym e)
      ∙ ap or_missing (find-assign p p t w ∙ same_key p t w);
  leaves = λ p q t w n. ap or_missing (find-assign p q t w ∙ other_key p q (some t) w n);
  removes = λ p q w n. ap or_missing (find-remove p q w ∙ other_key p q none w n);
}

abbrev client : Client
client = record { base_url = []; token = [] }

abbrev options : Options
options = record { home = codes "/p"; instance_name = codes "i"; stop_compose = true }

abbrev start : Table Text
start = (codes "/p/.env", codes "K=v") ∷ (codes "/p/data/pocket-id.db", codes "db") ∷ []

abbrev stored : Table Text
stored = (backup http machine client options start).1

-- A restore under another home.
abbrev moved : Options
moved = record { home = codes "/q"; instance_name = codes "i"; stop_compose = false }

abbrev text_of : Result Text → Text
text_of (ok t) = t
text_of (err _) = []

abbrev doc : Text
doc = text_of (encode_backup clear (codes "2026-01-01T00:00:00Z") (codes "db") (codes "/p"))

abbrev kept : Text → Envelope
kept t = record {
  schema = 1;
  metadata = record { version = 1; content_type = []; encrypted = false; labels = []; owner = [] };
  document = t;
}

abbrev restored : Table Text
restored = (restore http machine client moved stored).1

moved-Apart : Apart http machine (normalize http machine moved).home
unfolding normalize join split cut_prefix ◌==◌
moved-Apart = record { from_db = λ e. cc; from_shm = λ e. cc; from_wal = λ e. cc }

restore-stored : restore http machine client moved stored ≡ (ok tt, restored)
unfolding backup restore find ◌==◌ cut_prefix split assign remove env_document_path db_document_path
    compose_run
restore-stored = refl

restore-encode_backup_example :
    (t : Table Text) × Restored http machine (codes "/q") (codes "K=v") (codes "db") t
    × (restored ≡ t)
unfolding backup restore find ◌==◌ cut_prefix split assign remove env_document_path db_document_path
    compose_run get encode_backup normalize
restore-encode_backup_example =
    restore-encode_backup http machine machine-IsDisk clear-IsFaithful
      (codes "2026-01-01T00:00:00Z") (codes "db") (codes "/p") doc refl client moved stored stored
      stored restored (kept (codes "K=v")) (kept doc) moved-Apart refl refl refl restore-stored

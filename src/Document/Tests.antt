-- ===== src/Document/Tests.antt =====
-- Runs of the envelope's functions, with a codec that writes each field behind its length.
use sealhub.Base.{
  ℕ, ◌≡◌, refl, sym, Bool, true, false, [], ◌∷◌, ◌++◌, nat_eq, length, take, drop,
  take-length-append, drop-length-append,
}
use sealhub.Base.Text.{Text, codes}
use sealhub.Base.Result.{Result, ok, err, ok-injective, foreign}
use sealhub.Document.{Envelope, EnvelopeYaml, IsCodec, schema_version}

abbrev pub bit : Bool → ℕ
bit true = 1
bit false = 0

abbrev pub written : Envelope → Text
written e =
    e.schema
    ∷ e.metadata.version
    ∷ bit e.metadata.encrypted
    ∷ length e.metadata.content_type
    ∷ (e.metadata.content_type ++ (length e.metadata.owner ∷ (e.metadata.owner ++ e.document)))

abbrev pub read_owner : ℕ → ℕ → ℕ → Text → Text → Result Envelope
read_owner schema version enc content_type [] = err (foreign [])
read_owner schema version enc content_type (n ∷ rest) = ok (record {
  schema = schema;
  metadata = record {
    version = version;
    content_type = content_type;
    encrypted = nat_eq enc 1;
    labels = [];
    owner = take n rest;
  };
  document = drop n rest;
})

abbrev pub read_fields : Text → Result Envelope
read_fields (schema ∷ version ∷ enc ∷ n ∷ rest) =
    read_owner schema version enc (take n rest) (drop n rest)
read_fields _ = err (foreign [])

abbrev pub plain_yaml : EnvelopeYaml
plain_yaml = record { unmarshal = read_fields; marshal = λ e. ok (written e) }

nat_eq-bit : (b : Bool) → nat_eq (bit b) 1 ≡ b
nat_eq-bit true = refl
nat_eq-bit false = refl

read_fields-written : (e : Envelope) → e.metadata.labels ≡ [] → read_fields (written e) ≡ ok e
read_fields-written e h =
    let tail = length e.metadata.owner ∷ (e.metadata.owner ++ e.document) in
    rw
      (
        take-length-append e.metadata.content_type tail,
        drop-length-append e.metadata.content_type tail,
        take-length-append e.metadata.owner e.document,
        drop-length-append e.metadata.owner e.document,
        nat_eq-bit e.metadata.encrypted,
      )
      cc

pub plain_yaml-IsCodec : IsCodec plain_yaml
plain_yaml-IsCodec = record {
  reads_back = λ e raw h w. rw (sym (ok-injective w)) (read_fields-written e h);
}

abbrev letter : Envelope
letter = record {
  schema = 0;
  metadata = record {
    version = 3;
    content_type = codes "text/plain";
    encrypted = false;
    labels = [];
    owner = codes "ann";
  };
  document = codes "hi";
}

abbrev letter_read : Envelope
letter_read = record letter { schema = schema_version }

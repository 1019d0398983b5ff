-- ===== src/Document.antt =====
-- pkg/document/envelope.go: the envelope of a stored document and where it lies in the repository.
pub mod Paths
pub mod Envelopes
pub mod Tests
use sealhub.Base.{◌≡◌, Bool, ◌&&◌, not, List, [], ◌++◌, if◌then◌else◌, nat_eq}
use sealhub.Base.Text.{Text, codes, has_prefix, trim_prefix}
use sealhub.Base.Int.{Int64}
use sealhub.Base.Result.{Result, ok, err, unsupported_schema, ◌>>=◌}

abbrev pub schema_version : Int64
schema_version = 1

-- `labels` lists the entries of the map.
pub record Metadata : Type 0 where
  pub version : Int64
  pub content_type : Text
  pub encrypted : Bool
  pub labels : List (Text × Text)
  pub owner : Text

pub record Envelope : Type 0 where
  pub schema : Int64
  pub metadata : Metadata
  pub document : Text

-- What the program uses of gopkg.in/yaml.v3 for envelopes.
pub record EnvelopeYaml : Type 0 where
  pub unmarshal : Text → Result Envelope
  pub marshal : Envelope → Result Text

-- yaml.v3 reads back what it wrote. An envelope with labels is left out: the order in which a map
-- is listed is not kept.
pub record IsCodec (y : EnvelopeYaml) : Type 0 where
  pub reads_back :
      (e : Envelope) (raw : Text)
      → e.metadata.labels ≡ []
      → y.marshal e ≡ ok raw
      → y.unmarshal raw ≡ ok e

unfoldable pub parse_envelope : EnvelopeYaml → Text → Result Envelope
parse_envelope y raw = do
  env ← y.unmarshal raw
  if not (nat_eq env.schema 0) && not (nat_eq env.schema schema_version)
      then err (unsupported_schema env.schema)
      else if nat_eq env.schema 0
      then ok (record env { schema = schema_version })
      else ok env

-- (*Envelope).Marshal: the schema is set in place, so the caller's envelope has it afterwards too.
unfoldable pub marshal_envelope : EnvelopeYaml → Envelope → Result Text × Envelope
marshal_envelope y e = let e' = record e { schema = schema_version } in (y.marshal e', e')

abbrev pub slash : Text
slash = codes "/"

abbrev pub system_dir : Text
system_dir = codes "system/"

abbrev pub data_dir : Text
data_dir = codes "data/"

abbrev pub secrets_dir : Text
secrets_dir = codes "secrets/"

unfoldable pub git_path : Text → Text
git_path api_path =
    let p = trim_prefix api_path slash in if has_prefix p system_dir then p else data_dir ++ p

unfoldable pub default_encrypt_for_path : Text → Bool
default_encrypt_for_path api_path = has_prefix (trim_prefix api_path slash) secrets_dir

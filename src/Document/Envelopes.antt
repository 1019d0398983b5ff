-- ===== src/Document/Envelopes.antt =====
-- What parsing accepts, and the round trip of an envelope through its text.
use sealhub.Base.{◌≡◌, ◌⊎◌, ◌≢◌, [], arith, refl}
use sealhub.Base.Text.{Text}
use sealhub.Base.Result.{ok, err, unsupported_schema, >>=-eq-ok}
use sealhub.Document.{
  Envelope, EnvelopeYaml, IsCodec, schema_version, parse_envelope, marshal_envelope,
}

module _ (y : EnvelopeYaml) where
  -- What is parsed has schema 1, and is what yaml read but for a schema that was 0 or left out.
  pub parse_envelope-schema :
      (raw : Text) (env : Envelope)
      → parse_envelope y raw ≡ ok env
      → (given : Envelope) × (y.unmarshal raw ≡ ok given)
        × ((given.schema ≡ 0) ⊎ (given.schema ≡ schema_version))
        × (env ≡ record given { schema = schema_version })
  unfolding parse_envelope
  parse_envelope-schema raw env h =
      let (given, read, rest) = >>=-eq-ok (y.unmarshal raw) _ h in
      (given, read, ground arith, ground arith)

  -- An envelope with any other schema is refused.
  pub parse_envelope-unsupported :
      (raw : Text) (given : Envelope)
      → y.unmarshal raw ≡ ok given
      → given.schema ≢ 0
      → given.schema ≢ schema_version
      → parse_envelope y raw ≡ err (unsupported_schema given.schema)
  unfolding parse_envelope
  parse_envelope-unsupported raw given read h k = rw read (ground arith)

  -- With a yaml that is a codec, parsing what was written of an envelope without labels gives
  -- back the envelope, with the schema that writing sets.
  pub parse_envelope-marshal_envelope :
      IsCodec y
      → (e : Envelope) (raw : Text) → e.metadata.labels ≡ []
      → (marshal_envelope y e).0 ≡ ok raw
      → parse_envelope y raw ≡ ok (marshal_envelope y e).1
  unfolding parse_envelope marshal_envelope
  parse_envelope-marshal_envelope codec e raw plain h =
      rw (codec.reads_back (record e { schema = schema_version }) raw plain h) refl

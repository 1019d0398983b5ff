-- ===== src/Store/Spec.antt =====
-- What the store promises of its documents, without git, files and keys: a map from the documents'
-- files to their newest versions.
pub mod Simulation
pub mod Calls
pub mod Refinement
pub mod Refused
mod Tests
use sealhub.Base.{
  ◌≡◌, Bool, true, false, not, ◌&&◌, Option, none, some, List, [], ◌∷◌, if◌then◌else◌, nat_eq,
}
use sealhub.Base.Text.{Text, ◌==◌}
use sealhub.Base.Int.{Int64, lt_int, inc_int}
use sealhub.Base.Result.{Result, ok, err, Error, not_found, version_conflict, ◌>>=◌}
use sealhub.Document.{Envelope}
use sealhub.Store.Documents.{default_content_type}

pub record Doc : Type 0 where
  pub version : Int64
  pub content_type : Text
  pub owner : Text
  pub body : Text

abbrev pub doc_of : Envelope → Doc
doc_of env = record {
  version = env.metadata.version;
  content_type = env.metadata.content_type;
  owner = env.metadata.owner;
  body = env.document;
}

abbrev pub Docs : Type 0
Docs = Text → Option Doc

abbrev pub place : Text → Option Doc → Docs → Docs
place f d docs g = if f == g then d else docs g

-- The version that is written over a document, for a caller that expects one.
unfoldable pub version_after : Option Doc → Int64 → Result Int64
version_after none expected = if lt_int 1 expected then err version_conflict else ok 1
version_after (some d) expected =
    if lt_int 0 expected && not (nat_eq d.version expected)
    then err version_conflict
    else ok (inc_int d.version)

abbrev pub new_doc : Int64 → Text → Text → Text → Doc
new_doc version body content_type owner = record {
  version = version;
  content_type = default_content_type content_type;
  owner = owner;
  body = body;
}

unfoldable pub put : Text → Text → Text → Int64 → Text → Docs → Result (Doc × Docs)
unfolding version_after
put f body content_type expected owner docs = do
  v ← version_after (docs f) expected
  ok (new_doc v body content_type owner, place f (some (new_doc v body content_type owner)) docs)

unfoldable pub check_remove : Option Doc → Int64 → Result (Unit {0})
check_remove none expected = err not_found
check_remove (some d) expected =
    if lt_int 0 expected && not (nat_eq d.version expected) then err version_conflict else ok tt

unfoldable pub remove : Text → Int64 → Docs → Result Docs
unfolding check_remove
remove f expected docs = do _ ← check_remove (docs f) expected; ok (place f none docs)

unfoldable pub get : Text → Docs → Result Doc
get f docs = elim (docs f) [ none ↦ err not_found | some d ↦ ok d ]

-- A call that changes documents, with its arguments.
pub data Call : Type 0 where
  puts : Text → Text → Text → Bool → Int64 → Text → Call
  removes : Text → Int64 → Call

-- Calls one after the other; `file` gives the file of a path.
unfoldable pub run : (Text → Text) → List Call → Docs → Result Docs
unfolding put remove
run file [] docs = ok docs
run file (puts path body content_type enc expected owner ∷ cs) docs = do
  (_, docs') ← put (file path) body content_type expected owner docs
  run file cs docs'
run file (removes path expected ∷ cs) docs = do
  docs' ← remove (file path) expected docs
  run file cs docs'

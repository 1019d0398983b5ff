-- ===== src/Api/Documents.antt =====
-- handleDocumentList and handleDocumentPath.
use sealhub.Base.{
  Bool, true, false, not, ◌&&◌, Option, none, some, List, [], ◌∷◌, ◌++◌, if◌then◌else◌,
}
use sealhub.Base.Text.{Text, codes, ◌==◌, has_prefix, trim_prefix}
use sealhub.Base.Int.{Int64}
use sealhub.Base.Result.{Result, Error, ok, err, not_found, version_conflict, ◌>>=◌}
use sealhub.Document.{Metadata, Envelope, git_path, default_encrypt_for_path, slash, system_dir}
use sealhub.Auth.Engine.{
  Engine, Principal, Kind, bootstrap, token, oidc, authorize, action_read, action_write,
}
use sealhub.Store.Index.{DocEntry, Table}
use sealhub.Store.Git.{Outside, Sys}
use sealhub.Store.Documents
use sealhub.Store.Documents.{get_document, apply}
use sealhub.Api.Types.{
  Request, query_value, Answer, no_body, http_error, failed, write_json, not_found_page,
  unauthorized_page, forbidden_page, method_not_allowed, documents, envelope, PutRequest, Web,
  Server, Handled,
}

abbrev pub documents_route : Text
documents_route = codes "/api/v1/documents/"

abbrev pub label_mark : Text
label_mark = codes "label."

-- The loop over the query: the last key with the mark that is visited counts.
unfoldable pub label_loop : Text × Text → Table Text → Text × Text
label_loop found [] = found
label_loop found ((k, v) ∷ rest) =
    label_loop (if has_prefix k label_mark then (trim_prefix k label_mark, v) else found) rest

-- The loop over the entries, with those that the principal may read.
unfoldable pub readable : Engine → Principal → List DocEntry → List (Text × Metadata)
unfolding authorize
readable e p [] = []
readable e p (it ∷ its) =
    let rest = readable e p its in
    if not (authorize e p (git_path it.path) action_read)
    then rest
    else (it.path, it.metadata) ∷ rest

abbrev pub kind_text : Kind → Text
kind_text bootstrap = codes "bootstrap"
kind_text token = codes "token"
kind_text oidc = codes "oidc"

abbrev pub is_bootstrap : Kind → Bool
is_bootstrap bootstrap = true
is_bootstrap _ = false

-- fmt.Sprintf("%s:%s", p.Kind, p.ID)
abbrev pub owner_of : Principal → Text
owner_of p = kind_text p.kind ++ codes ":" ++ p.id

abbrev pub read_failed : Error → Answer
read_failed not_found = not_found_page
read_failed x = failed 500 x

abbrev pub apply_failed : Error → Answer
apply_failed version_conflict = http_error 409 (codes "conflict")
apply_failed x = failed 500 x

abbrev pub delete_failed : Error → Answer
delete_failed not_found = not_found_page
delete_failed version_conflict = http_error 409 (codes "conflict")
delete_failed x = failed 500 x

abbrev pub no_content : Answer
no_content = record { status = 204; body = no_body }

abbrev pub encrypt_or : Option Bool → Bool → Bool
encrypt_or none d = d
encrypt_or (some b) d = b

-- The document that the request's path names.
abbrev pub document_path : Request → Text
document_path r = trim_prefix (trim_prefix r.path documents_route) slash

-- What the body of a put holds; either error is answered alike.
unfoldable pub put_request : Web → Request → Result PutRequest
put_request w r = r.body >>= w.unmarshal_put

module _ (o : Outside) (w : Web) where
  unfoldable pub handle_document_list : Request → Option Principal → Server o → Handled o
  unfolding label_loop readable query_value
  handle_document_list r who s =
      if not (r.method == codes "GET") then some (method_not_allowed, s) else elim who [
        | none ↦ some (unauthorized_page, s)
        | some p ↦
            let (key, val) = label_loop ([], []) r.query in
            let items = Documents.list o (query_value (codes "prefix") r) key val s.sys in
            some (write_json (documents (readable s.engine p items)), s)
      ]

  unfoldable pub handle_get : Text → Principal → Server o → Handled o
  unfolding authorize get_document
  handle_get path p s =
      if not (authorize s.engine p (git_path path) action_read)
      then some (forbidden_page, s)
      else elim (get_document o path s.sys) [
        | err x ↦ some (read_failed x, s)
        | ok env ↦ some (write_json (envelope env), s)
      ]

  -- The version that the writer expects: the header If-Match counts where it is a number.
  unfoldable pub expected_version : Request → PutRequest → Int64
  expected_version r req =
      let (n, bad) = w.atoi r.if_match in
      if not (r.if_match == []) && not bad then n else req.expected_version

  abbrev pub applied : Server o → Result Envelope × Sys o → Answer × Server o
  applied s (ok env, t) = (write_json (envelope env), record s { sys = t })
  applied s (err x, t) = (apply_failed x, record s { sys = t })

  -- The put once the body is read.
  unfoldable pub put_document : Text → Request → Principal → PutRequest → Server o → Handled o
  unfolding expected_version apply
  put_document path r p req s =
      elim (apply o path req.document req.content_type
        (encrypt_or req.encrypt (default_encrypt_for_path path)) (expected_version r req)
        (owner_of p) s.sys) [ none ↦ none | some res ↦ some (applied s res) ]

  unfoldable pub handle_put : Text → Request → Principal → Server o → Handled o
  unfolding authorize put_request put_document
  handle_put path r p s =
      if has_prefix path system_dir && not (is_bootstrap p.kind)
      then some (forbidden_page, s)
      else if not (authorize s.engine p (git_path path) action_write)
      then some (forbidden_page, s)
      else elim (put_request w r) [
        | err x ↦ some (failed 400 x, s)
        | ok req ↦ put_document path r p req s
      ]

  abbrev pub deleted : Server o → Result (Unit {0}) × Sys o → Answer × Server o
  deleted s (ok _, t) = (no_content, record s { sys = t })
  deleted s (err x, t) = (delete_failed x, record s { sys = t })

  unfoldable pub handle_delete : Text → Request → Principal → Server o → Handled o
  unfolding authorize query_value
  handle_delete path r p s =
      if not (authorize s.engine p (git_path path) action_write)
      then some (forbidden_page, s)
      else elim (Documents.delete o path (w.atoi (query_value (codes "version") r)).0 s.sys) [
        | none ↦ none
        | some res ↦ some (deleted s res)
      ]

  unfoldable pub handle_document_path : Request → Option Principal → Server o → Handled o
  unfolding handle_get handle_put handle_delete
  handle_document_path r who s =
      let path = document_path r in
      if path == [] then some (not_found_page, s) else elim who [
        | none ↦ some (unauthorized_page, s)
        | some p ↦
            if r.method == codes "GET"
            then handle_get path p s
            else if r.method == codes "PUT"
            then handle_put path r p s
            else if r.method == codes "DELETE"
            then handle_delete path r p s
            else some (method_not_allowed, s)
      ]

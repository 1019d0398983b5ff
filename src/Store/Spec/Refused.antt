-- ===== src/Store/Spec/Refused.antt =====
-- The calls that the store refuses.
use sealhub.Base.{◌≡◌, ◌∙◌, refl, ap, Bool, some, [], ◌∷◌, inl, inr}
use sealhub.Base.Text.{Text}
use sealhub.Base.Int.{Int64}
use sealhub.Base.Action.{>>=-of-err}
use sealhub.Base.Result.{err, Error, Result-cases}
use sealhub.Store.Git.{Outside, Sys, read_file_at_head}
use sealhub.Store.Documents.{check_apply, apply, delete}
use sealhub.Store.Documents.Frame.{file_of}
use sealhub.Store.Spec.{Docs, version_after, put, check_remove, remove, Call, puts, removes, run}
use sealhub.Store.Spec.Calls.{in_dir, run_calls}
use sealhub.Store.Spec.Simulation.{Stores, next_version-Holds, check_delete-Holds}

module _ (o : Outside) where
  refused-apply :
      (path body content_type : Text) (enc : Bool) (expected : Int64) (owner : Text) (s : Sys o)
      (docs : Docs) (x : Error)
      → Stores o s docs
      → version_after (docs (file_of o path s)) expected ≡ err x
      → apply o path body content_type enc expected owner s ≡ some (err x, s)
  unfolding apply check_apply read_file_at_head
  refused-apply path body content_type enc expected owner s docs x v h =
      rw
        (next_version-Holds o s (file_of o path s) (docs (file_of o path s)) expected (v.holds path)
          ∙ h)
        refl

  refused-delete :
      (path : Text) (expected : Int64) (s : Sys o) (docs : Docs) (x : Error)
      → Stores o s docs
      → check_remove (docs (file_of o path s)) expected ≡ err x
      → delete o path expected s ≡ some (err x, s)
  unfolding delete read_file_at_head
  refused-delete path expected s docs x v h =
      rw
        (check_delete-Holds o s (file_of o path s) (docs (file_of o path s)) expected (v.holds path)
          ∙ h)
        refl

  -- A store that has the documents of a map refuses a call that the map refuses, for its version or
  -- since the document is missing: it returns the same error, and changes nothing.
  pub run_calls-refused :
      (c : Call) (s : Sys o) (docs : Docs) (x : Error)
      → Stores o s docs
      → run (in_dir s.store.work_dir) (c ∷ []) docs ≡ err x
      → run_calls o (c ∷ []) s ≡ some (err x, s)
  unfolding run run_calls put remove
  run_calls-refused (puts path body content_type enc expected owner) s docs x v h =
      elim (Result-cases (version_after (docs (file_of o path s)) expected)) [
        | inl (n, e) ↦ (let h' = rw (e, run) at h in cc)
        | inr (y, e) ↦
            (let h' = rw (e, run) at h in
              let error : y ≡ x = cc in
              >>=-of-err (apply o path body content_type enc expected owner) _ s s x (
                refused-apply path body content_type enc expected owner s docs x v
                  (e ∙ ap (λ z. err z) error)))
      ]
  run_calls-refused (removes path expected) s docs x v h =
      elim (Result-cases (check_remove (docs (file_of o path s)) expected)) [
        | inl (n, e) ↦ (let h' = rw (e, run) at h in cc)
        | inr (y, e) ↦
            (let h' = rw (e, run) at h in
              let error : y ≡ x = cc in
              >>=-of-err (delete o path expected) _ s s x
                (refused-delete path expected s docs x v (e ∙ ap (λ z. err z) error)))
      ]

-- ===== src/Store/Documents/Applied.antt =====
-- What a successful Apply went through.
use mathlib.Core.Path.{subst, subst₂}
use sealhub.Base.{◌≡◌, sym, Bool, Option, some, arith, ◌∙◌}
use sealhub.Base.Text.{Text}
use sealhub.Base.Int.{Int64}
use sealhub.Base.Result.{Result, ok, ok-injective}
use sealhub.Base.Action.{>>=-eq-ok, lift, pure}
use sealhub.Document.{Envelope, marshal_envelope, git_path}
use sealhub.Store.Git.{Outside, Sys, read_file_at_head}
use sealhub.Store.Documents.{
  new_envelope, shown, next_version, stored_body, save, check_apply, apply_version, apply_body,
  apply_raw, apply,
}

module _ (o : Outside) (path body content_type : Text) (enc : Bool) (expected : Int64)
    (owner : Text) where
  -- The version was checked, the body encrypted where asked, and the envelope written and pushed.
  pub record Applied (s : Sys o) (out : Envelope) (s' : Sys o) : Type 0 where
    pub version : Int64
    pub doc_body : Text
    pub raw : Text
    pub checked : next_version o (read_file_at_head o (git_path path) s) expected ≡ ok version
    pub sealing : stored_body o enc body s ≡ some (ok doc_body, s)
    pub marshalled :
        (marshal_envelope o.yaml (new_envelope version content_type enc owner doc_body)).0 ≡ ok raw
    pub saving : save o path raw s ≡ some (ok tt, s')
    pub result :
        out
        ≡ shown enc body
            (marshal_envelope o.yaml (new_envelope version content_type enc owner doc_body)).1

  same_state :
      {A : Type 0} (r : Result A) (a : A) (s t : Sys o)
      → ◌≡◌ {A = Option (Result A × Sys o)} (some (r, s)) (some (ok a, t))
      → (r ≡ ok a) × (s ≡ t)
  same_state r a s t h = (cc, cc)

  stored_body-state : (d : Text) (s t : Sys o) → stored_body o enc body s ≡ some (ok d, t) → s ≡ t
  unfolding stored_body
  stored_body-state d s t h = ground arith

  pub apply-Applied :
      (s s' : Sys o) (out : Envelope)
      → apply o path body content_type enc expected owner s ≡ some (ok out, s')
      → Applied s out s'
  unfolding apply
  apply-Applied s s' out h =
      let (version, s0, checking, h0) =
        >>=-eq-ok (check_apply o path expected) (apply_version o path body content_type enc owner) s
          h in
      let (checked, e0) = same_state _ version s s0 checking in
      let (doc_body, s1, sealing, h1) =
        >>=-eq-ok (stored_body o enc body) (apply_body o path body content_type enc owner version)
          s0 h0 in
      let e1 = stored_body-state doc_body s0 s1 sealing in
      let sealed : stored_body o enc body s0 ≡ some (ok doc_body, s0) =
        subst (λ t. stored_body o enc body s0 ≡ some (ok doc_body, t)) (sym e1) sealing in
      let (text, env) =
        marshal_envelope o.yaml (new_envelope version content_type enc owner doc_body) in
      let (raw, s2, lifting, h2) = >>=-eq-ok (lift text) (apply_raw o path body enc env) s1 h1 in
      let (marshalled, e2) = same_state _ raw s1 s2 lifting in
      let (_, s3, saving, h3) =
        >>=-eq-ok (save o path raw) (λ _. pure (shown enc body env)) s2 h2 in
      let (result, e3) = same_state _ out s3 s' h3 in
      record {
        version = version;
        doc_body = doc_body;
        raw = raw;
        checked = checked;
        sealing = subst (λ t. stored_body o enc body t ≡ some (ok doc_body, t)) (sym e0) sealed;
        marshalled = marshalled;
        saving = subst₂ (λ t u. save o path raw t ≡ some (ok tt, u)) (sym (e0 ∙ e1 ∙ e2)) e3 saving;
        result = sym (ok-injective result);
      }

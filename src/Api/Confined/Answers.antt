-- ===== src/Api/Confined/Answers.antt =====
-- Answers that disclose nothing, and how an answer's confinement becomes a handler's.
use mathlib.Core.Path.{subst₂}
use sealhub.Base.{◌≡◌, inl, ap, Option, some}
use sealhub.Base.Text.{Text}
use sealhub.Base.Result.{Error, not_found, version_conflict}
use sealhub.Auth.Engine.{Principal}
use sealhub.Store.Git.{Outside}
use sealhub.Api.Types.{Request, Body, Answer, Server, Handled}
use sealhub.Api.Documents.{read_failed, apply_failed, delete_failed}
use sealhub.Api.Confined.{Discloses, Confined}

abbrev pub Silent : Request → Body → Type 0
Silent r b = (q : Text) → Discloses r b q → ⊥

pub read_failed-Silent : (r : Request) (x : Error) → Silent r (read_failed x).body
read_failed-Silent r not_found q d = d
read_failed-Silent r _ q d = d

pub apply_failed-Silent : (r : Request) (x : Error) → Silent r (apply_failed x).body
apply_failed-Silent r version_conflict q d = d
apply_failed-Silent r _ q d = d

pub delete_failed-Silent : (r : Request) (x : Error) → Silent r (delete_failed x).body
delete_failed-Silent r not_found q d = d
delete_failed-Silent r version_conflict q d = d
delete_failed-Silent r _ q d = d

module _ (o : Outside) (r : Request) where
  pub quiet :
      (who : Option Principal) (s : Server o) (a : Answer) (s' : Server o)
      → Silent r a.body
      → s'.sys ≡ s.sys
      → Confined o r who s a s'
  quiet who s a s' silent same = record {
    kept = inl (ap (λ t. t.outside) same, ap (λ t. t.store.index) same);
    told = λ q d. absurd (silent q d);
  }

  pub returned :
      (who : Option Principal) (s : Server o) (a b : Answer) (t s' : Server o)
      → Confined o r who s b t
      → ◌≡◌ {A = Handled o} (some (b, t)) (some (a, s'))
      → Confined o r who s a s'
  returned who s a b t s' c h =
      let answers : b ≡ a = cc in
      let servers : t ≡ s' = cc in subst₂ (Confined o r who s) answers servers c

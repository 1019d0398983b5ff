-- ===== src/Base/Result.antt =====
-- Go's (value, error) results. `Error` has a constructor for each error value that a caller can tell
-- apart, and `foreign` for the errors of libraries and of the operating system.
use Prim.Native.Nat.{ℕ}
use mathlib.Core.Path.{◌≡◌, refl}
use mathlib.Core.Logic.{◌⊎◌, inl, inr}
use sealhub.Base.Text.{Text}

pub data Error : Type 0 where
  not_found version_conflict not_ready : Error
  unsupported_schema bad_key_size : ℕ → Error
  invalid_base64 no_keys ciphertext_too_short decrypt_failed : Error
  missing_token invalid_jwt unknown_issuer invalid_claims issuer_mismatch token_expired : Error
  git_failed : Text → Text → Error
  missing_setting unexpected_kind unsupported_encoding : Text → Error
  digest_mismatch : Error
  foreign : Text → Error

pub data Result {ℓ} (A : Type ℓ) : Type ℓ where
  ok : A → Result A
  err : Error → Result A

module _ {ℓ κ} {A : Type ℓ} {B : Type κ} where
  infixl 5 ◌>>=◌
  abbrev pub ◌>>=◌ : Result A → (A → Result B) → Result B
  err x >>= next = err x
  ok a >>= next = next a

  -- What a chain that returned a value went through.
  pub >>=-eq-ok :
      (r : Result A) (next : A → Result B) {out : B}
      → (r >>= next) ≡ ok out
      → (a : A) × (r ≡ ok a) × (next a ≡ ok out)
  >>=-eq-ok (err x) next h = cc
  >>=-eq-ok (ok a) next h = (a, refl, h)

-- To split on a computed result and keep the equation.
pub Result-cases {ℓ} :
    {A : Type ℓ} (r : Result A) → ((a : A) × (r ≡ ok a)) ⊎ ((e : Error) × (r ≡ err e))
Result-cases (ok a) = inl (a, refl)
Result-cases (err e) = inr (e, refl)

pub ok-injective {ℓ} : {A : Type ℓ} {a b : A} → ◌≡◌ {A = Result A} (ok a) (ok b) → a ≡ b
ok-injective h = cc

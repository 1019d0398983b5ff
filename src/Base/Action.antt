-- ===== src/Base/Action.antt =====
-- Methods that change a state and may fail or panic: what was changed before an error stays changed,
-- so the state comes back beside the error too. `none` is a panic.
use mathlib.Core.Path.{◌≡◌, refl, ap}
use mathlib.Core.Option.{Option, none, some}
use sealhub.Base.Result.{Result, ok, err, Error}

abbrev pub Act : Type 0 → Type 0 → Type 0
Act S A = S → Option (Result A × S)

module _ {S A B : Type 0} where
  abbrev pub continue : (A → Act S B) → Result A × S → Option (Result B × S)
  continue f (ok a, s) = f a s
  continue f (err x, s) = some (err x, s)

  infixl 5 ◌>>=◌ ◌>>◌
  abbrev pub ◌>>=◌ : Act S A → (A → Act S B) → Act S B
  ◌>>=◌ m f s = elim (m s) [ none ↦ none | some r ↦ continue f r ]

  abbrev pub ◌>>◌ : Act S A → Act S B → Act S B
  m >> n = m >>= λ _. n

  -- What a chain that returned a value went through.
  pub >>=-eq-ok :
      (m : Act S A) (f : A → Act S B) (s : S) {b : B} {s' : S}
      → (m >>= f) s ≡ some (ok b, s')
      → (a : A) × (t : S) × (m s ≡ some (ok a, t)) × (f a t ≡ some (ok b, s'))
  >>=-eq-ok m f s {b} {s'} h = go (m s) refl h
    where
      go :
          (r : Option (Result A × S))
          → m s ≡ r
          → ◌≡◌ {A = Option (Result B × S)}
              (elim r [ none ↦ none | some q ↦ continue f q ])
              (some (ok b, s'))
          → (a : A) × (t : S) × (m s ≡ some (ok a, t)) × (f a t ≡ some (ok b, s'))
      go none e k = cc
      go (some (ok a, t)) e k = (a, t, e, k)
      go (some (err x, t)) e k = cc

  -- A chain whose first part returned, or failed.
  pub >>=-of-ok :
      (m : Act S A) (f : A → Act S B) (s t : S) (a : A) → m s ≡ some (ok a, t) → (m >>= f) s ≡ f a t
  >>=-of-ok m f s t a h =
      ap (λ (r : Option (Result A × S)). elim r [ none ↦ none | some q ↦ continue f q ]) h

  pub >>=-of-err :
      (m : Act S A) (f : A → Act S B) (s t : S) (x : Error)
      → m s ≡ some (err x, t)
      → (m >>= f) s ≡ some (err x, t)
  >>=-of-err m f s t x h =
      ap (λ (r : Option (Result A × S)). elim r [ none ↦ none | some q ↦ continue f q ]) h

module _ {S A : Type 0} where
  abbrev pub pure : A → Act S A
  pure a s = some (ok a, s)

  abbrev pub fail : Error → Act S A
  fail x s = some (err x, s)

  abbrev pub lift : Result A → Act S A
  lift r s = some (r, s)

  abbrev pub gets : (S → A) → Act S A
  gets f s = some (ok (f s), s)

-- What follows a call that may fail; an error is returned with the world as it is then.
abbrev pub after : {W A B : Type 0} → Result A × W → (A → W → Result B × W) → Result B × W
after (err x, w) next = (err x, w)
after (ok a, w) next = next a w

-- What a chain that returned a value went through.
pub after-eq-ok :
    {W A B : Type 0} (r : Result A × W) (next : A → W → Result B × W) {b : B} {w' : W}
    → after r next ≡ (ok b, w')
    → (a : A) × (w : W) × (r ≡ (ok a, w)) × (next a w ≡ (ok b, w'))
after-eq-ok (err x, w) next e = cc
after-eq-ok (ok a, w) next e = (a, w, refl, e)

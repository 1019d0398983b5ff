-- ===== src/Hub/Encryption.antt =====
-- What `hub apply` asks for of the encryption.
use sealhub.Base.{◌≡◌, ◌≢◌, ◌↔◌, ◌⊎◌, inl, inr, refl, true, List, [], ◌∷◌, Any, Bool-cases}
use sealhub.Base.Text.{Text, codes, ◌==◌, eq_iff}
use sealhub.Document.{default_encrypt_for_path}
use sealhub.Hub.Command.{apply_encrypt_flag}

-- An element stands in a list, and another one not before it.
abbrev pub ComesFirst : Text → Text → List Text → Type 0
ComesFirst x y [] = ⊥
ComesFirst x y (a ∷ as_) = (a ≡ x) ⊎ ((a ≢ y) × ComesFirst x y as_)

abbrev pub Absent : Text → List Text → Type 0
Absent x as_ = ¬ Any (λ a. a ≡ x) as_

abbrev pub encrypt_flag : Text
encrypt_flag = codes "-encrypt"

abbrev pub no_encrypt_flag : Text
no_encrypt_flag = codes "-no-encrypt"

-- `hub apply` asks for the encryption of a document exactly if "-encrypt" is among its arguments with no
-- "-no-encrypt" before it, or neither is there and the document is one that is encrypted by default.
pub apply_encrypt_flag_iff :
    (path : Text) (args : List Text)
    → (apply_encrypt_flag path args ≡ true) ↔ (
        ComesFirst encrypt_flag no_encrypt_flag args
        ⊎ (Absent encrypt_flag args
            × Absent no_encrypt_flag args
            × (default_encrypt_for_path path ≡ true)))
unfolding apply_encrypt_flag
apply_encrypt_flag_iff path [] =
    (λ e. inr (λ a. a, λ a. a, e), λ k. elim k [ inl z ↦ absurd z | inr (_, _, e) ↦ e ])
apply_encrypt_flag_iff path (a ∷ args) =
    let ih = apply_encrypt_flag_iff path args in
    elim (Bool-cases (a == encrypt_flag)) [
      | inl e ↦ rw e (λ _. inl (inl ((eq_iff a encrypt_flag).0 e)), λ _. refl)
      | inr e ↦
          let other : a ≢ encrypt_flag = λ z. let k = (eq_iff a encrypt_flag).1 z in cc in
          elim (Bool-cases (a == no_encrypt_flag)) [
            | inl n ↦
                let same = (eq_iff a no_encrypt_flag).0 n in
                rw (e, n)
                  (
                    λ z. cc,
                    λ k. elim k [
                      | inl (inl z) ↦ absurd (other z)
                      | inl (inr (z, _)) ↦ absurd (z same)
                      | inr (_, z, _) ↦ absurd (z (inl same))
                    ],
                  )
            | inr n ↦
                let third : a ≢ no_encrypt_flag =
                  λ z. let k = (eq_iff a no_encrypt_flag).1 z in cc in
                rw (e, n)
                  (
                    λ z. elim (ih.0 z) [
                      | inl k ↦ inl (inr (third, k))
                      | inr (p, q, d) ↦ inr (
                        λ k. elim k [ inl y ↦ other y | inr y ↦ p y ],
                        λ k. elim k [ inl y ↦ third y | inr y ↦ q y ],
                        d,
                      )
                    ],
                    λ k. elim k [
                      | inl (inl z) ↦ absurd (other z)
                      | inl (inr (_, z)) ↦ ih.1 (inl z)
                      | inr (p, q, d) ↦ ih.1 (inr (λ y. p (inr y), λ y. q (inr y), d))
                    ],
                  )
          ]
    ]

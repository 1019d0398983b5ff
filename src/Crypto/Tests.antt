-- ===== src/Crypto/Tests.antt =====
-- Runs of the key ring, with a cipher that writes the key before the text.
use sealhub.Base.{
  ℕ, zero, suc, ◌+◌, ◌≡◌, ◌≢◌, ◌↔◌, inl, inr, refl, sym, ap, ◌∙◌, Bool, true, false, Option, none,
  some, List, [], ◌∷◌, ◌++◌, arith, length, All, take, take-length-append, Option-cases,
}
use sealhub.Base.Text.{Text, codes, cut_prefix, cut_prefix-append, eq_append_of_cut_prefix}
use sealhub.Base.Result.{Result, Error, ok, err, decrypt_failed}
use sealhub.Crypto.{
  KeyRing, Primitives, IsAuthenticated, key_size, encrypt, decrypt, load_key_ring, scan_lines,
}
use sealhub.Crypto.Loading.{Holds, load_key_ring_iff, load_key_ring-encrypt}
use sealhub.Crypto.Rotation.{decrypt-encrypt}

abbrev pub or_fail : Option Text → Result Text
or_fail none = err decrypt_failed
or_fail (some t) = ok t

-- `count` times the byte `c`.
abbrev pub repeated : ℕ → ℕ → Text
repeated zero c = []
repeated (suc n) c = c ∷ repeated n c

pub length-repeated : (n c : ℕ) → length (repeated n c) ≡ n
length-repeated zero c = refl
length-repeated (suc n) c = omega (arith, length-repeated n c)

abbrev pub toy_cipher : Primitives
toy_cipher = record {
  encode_base64 = λ t. t;
  decode_base64 = λ t. ok t;
  new_gcm = λ key. ok tt;
  nonce_size = 2;
  seal = λ key nonce plain. key ++ plain;
  open_sealed = λ key nonce sealed. or_fail (cut_prefix sealed key);
}

refused :
    (key other plain : Text)
    → length key ≡ key_size
    → length other ≡ key_size
    → other ≢ key
    → (x : Error) × (or_fail (cut_prefix (key ++ plain) other) ≡ err x)
refused key other plain k l differ = elim (Option-cases (cut_prefix (key ++ plain) other)) [
  | inl e ↦ (decrypt_failed, ap or_fail e)
  | inr (r, e) ↦
      (let split = eq_append_of_cut_prefix (key ++ plain) other {r = r} e in
        let heads : key ≡ other =
          sym (take-length-append key plain)
          ∙ ap (λ t. take (length key) t) split
          ∙ ap (λ n. take n (other ++ r)) (k ∙ sym l)
          ∙ take-length-append other r in
        absurd (differ (sym heads)))
]

pub toy_cipher-IsAuthenticated : IsAuthenticated toy_cipher
toy_cipher-IsAuthenticated = record {
  accepts = λ key h. refl;
  decodes = λ t. refl;
  opens = λ key nonce plain. ap or_fail (cut_prefix-append key plain);
  refuses = λ key other nonce plain k l differ. refused key other plain k l differ;
}

abbrev pub old_key : Text
old_key = repeated 32 b'k'

abbrev pub new_key : Text
new_key = repeated 32 b'n'

abbrev pub old_ring : KeyRing
old_ring = record { keys = old_key ∷ [] }

abbrev pub new_ring : KeyRing
new_ring = record { keys = new_key ∷ old_key ∷ [] }

-- A random source of zeros.
abbrev pub zeros : ℕ → Result Text
zeros n = ok (repeated n 0)

pub zeros-length : (n : ℕ) (bytes : Text) → zeros n ≡ ok bytes → length bytes ≡ n
zeros-length n bytes h =
    let e : repeated n 0 ≡ bytes = cc in ap (λ t. length t) (sym e) ∙ length-repeated n 0

abbrev sealed_hi : Text
sealed_hi = 0 ∷ 0 ∷ (old_key ++ codes "hi")

-- After a rotation, the old text is still read.
decrypt-encrypt_example : decrypt toy_cipher new_ring sealed_hi ≡ ok (codes "hi")
unfolding encrypt
decrypt-encrypt_example =
    decrypt-encrypt toy_cipher toy_cipher-IsAuthenticated zeros old_ring new_ring old_key []
      (codes "hi") sealed_hi zeros-length refl (refl, (refl, tt)) (inr (inl refl)) refl

abbrev key_file : Text
key_file = codes "# keys\n" ++ old_key ++ codes "\n"

load_key_ring_iff_example :
    (load_key_ring toy_cipher (ok key_file) ≡ ok old_ring)
    ↔ (Holds toy_cipher (scan_lines key_file) old_ring.keys × (old_ring.keys ≢ []))
load_key_ring_iff_example = load_key_ring_iff toy_cipher key_file old_ring

load_key_ring-encrypt_example :
    All (λ k. length k ≡ key_size) old_ring.keys
    × ((random : ℕ → Result Text) (plain : Text) → encrypt toy_cipher random old_ring plain ≢ none)
unfolding load_key_ring sealhub.Base.Text.split sealhub.Base.Text.◌==◌ sealhub.Base.Text.trim_space
    sealhub.Base.Text.cut_suffix
load_key_ring-encrypt_example = load_key_ring-encrypt toy_cipher (ok key_file) old_ring refl

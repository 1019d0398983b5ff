-- ===== src/Crypto/Rotation.antt =====
-- Decrypting what was encrypted, with the ring of pkg/crypto/keyring.go or a later one.
use mathlib.Core.Option.{some-injective}
use sealhub.Base.{
  ℕ, ◌≡◌, ◌≢◌, inl, inr, ◌∙◌, false, Option, none, some, List, [], ◌∷◌, ◌++◌, ltb, length, arith,
  Bool-cases, All, Any, take-length-append, drop-length-append, length-append,
}
use sealhub.Base.Text.{Text, ◌==◌, eq_iff}
use sealhub.Base.Result.{Result, ok, err, Error, ◌>>=◌, >>=-eq-ok, ok-injective}
use sealhub.Crypto.{
  KeyRing, Primitives, IsAuthenticated, key_size, encrypt, decrypt_with_key, decrypt_loop, decrypt,
}

module _ (c : Primitives) (a : IsAuthenticated c) where
  module _ (key nonce plain : Text) (sized : length key ≡ key_size)
      (fits : length nonce ≡ c.nonce_size) where
    abbrev raw : Text
    raw = nonce ++ c.seal key nonce plain

    with_key :
        (k : Text)
        → length k ≡ key_size
        → decrypt_with_key c k raw ≡ c.open_sealed k nonce (c.seal key nonce plain)
    unfolding decrypt_with_key
    with_key k h =
        let long : ltb (length raw) (length nonce) ≡ false =
          ground (arith, length-append nonce (c.seal key nonce plain)) in
        rw (a.accepts k h, ← fits, long, take-length-append, drop-length-append)

    loop_opened :
        (last : Option Error) (k : Text) (keys : List Text)
        → decrypt_with_key c k raw ≡ ok plain
        → decrypt_loop c raw last (k ∷ keys) ≡ ok plain
    unfolding decrypt_loop
    loop_opened last k keys h = rw (h, decrypt_loop)

    loop_refused :
        (last : Option Error) (k : Text) (keys : List Text) (x : Error)
        → decrypt_with_key c k raw ≡ err x
        → decrypt_loop c raw last (k ∷ keys) ≡ decrypt_loop c raw (some x) keys
    unfolding decrypt_loop
    loop_refused last k keys x h = rw (h, decrypt_loop)

    decrypt_loop_finds :
        (last : Option Error) (keys : List Text)
        → All (λ k. length k ≡ key_size) keys
        → Any (λ k. k ≡ key) keys
        → decrypt_loop c raw last keys ≡ ok plain
    decrypt_loop_finds last [] h found = absurd found
    decrypt_loop_finds last (k ∷ keys) h found = elim (Bool-cases (k == key)) [
      | inl same ↦
          let e : k ≡ key = (eq_iff k key).0 same in
          let opened : decrypt_with_key c k raw ≡ ok plain =
            with_key k h.0 ∙ rw e (a.opens key nonce plain) in
          loop_opened last k keys opened
      | inr other ↦
          let e : k ≢ key = λ p. cc ((eq_iff k key).1 p) in
          let (x, refused) = a.refuses key k nonce plain sized h.0 e in
          let later : Any (λ q. q ≡ key) keys = elim found [ inl p ↦ absurd (e p) | inr q ↦ q ] in
          loop_refused last k keys x (with_key k h.0 ∙ refused)
          ∙ decrypt_loop_finds (some x) keys h.1 later
    ]

    decrypt-encode :
        (kr' : KeyRing)
        → All (λ k. length k ≡ key_size) kr'.keys
        → Any (λ k. k ≡ key) kr'.keys
        → decrypt c kr' (c.encode_base64 raw) ≡ ok plain
    unfolding decrypt
    decrypt-encode kr' h found = rw (a.decodes raw) (decrypt_loop_finds none kr'.keys h found)

  sized_of_Any :
      (first : Text) (keys : List Text)
      → All (λ k. length k ≡ key_size) keys
      → Any (λ k. k ≡ first) keys
      → length first ≡ key_size
  sized_of_Any first [] h found = absurd found
  sized_of_Any first (k ∷ keys) h (inl e) = rw (← e) h.0
  sized_of_Any first (k ∷ keys) h (inr q) = sized_of_Any first keys h.1 q

  -- With an authenticated cipher and a random source that draws as much as is asked: what one
  -- ring encrypted, any ring of 32-byte keys that holds the first key of that ring decrypts,
  -- wherever the key stands in it.
  pub decrypt-encrypt :
      (random : ℕ → Result Text) (kr kr' : KeyRing) (first : Text) (older : List Text)
      (plain sealed : Text)
      → ((n : ℕ) (bytes : Text) → random n ≡ ok bytes → length bytes ≡ n)
      → kr.keys ≡ first ∷ older
      → All (λ k. length k ≡ key_size) kr'.keys
      → Any (λ k. k ≡ first) kr'.keys
      → encrypt c random kr plain ≡ some (ok sealed)
      → decrypt c kr' sealed ≡ ok plain
  unfolding encrypt
  decrypt-encrypt random kr kr' first older plain sealed drawn ring sized found h =
      let known = sized_of_Any first kr'.keys sized found in
      let h' : (c.new_gcm first >>= λ _.
      random c.nonce_size >>= λ nonce. ok (c.encode_base64 (nonce ++ c.seal first nonce plain)))
          ≡ ok sealed =
        some-injective _ _ (rw (ring, encrypt) at h) in
      let (_, _, drawing) = >>=-eq-ok (c.new_gcm first) _ h' in
      let (nonce, bytes, same) = >>=-eq-ok (random c.nonce_size) _ drawing in
      let e = ok-injective same in
      rw (← e)
        (decrypt-encode first nonce plain known (drawn c.nonce_size nonce bytes) kr' sized found)

-- ===== src/Crypto/Loading.antt =====
-- What a key ring file holds when it loads.
use mathlib.Core.Path.{subst}
use sealhub.Base.{
  ℕ, ◌<◌, ◌≡◌, ◌≢◌, ◌↔◌, inl, inr, refl, true, false, none, List, [], ◌∷◌, if◌then◌else◌, nat_eq,
  leb, length, arith, Bool-cases, All,
}
use sealhub.Base.Text.{Text}
use sealhub.Base.Result.{Result, ok, err, >>=-eq-ok, ok-injective, no_keys}
use sealhub.Crypto.{
  KeyRing, Primitives, key_size, scan_lines, max_token_size, trimmed, is_skipped, decode_key,
  load_loop, load_key_ring, encrypt,
}

-- The keys that a file's lines hold, in order: a line is blank, a comment or the base64 text of a
-- key of 32 bytes, and is no longer than the scanner takes.
pub data Holds (c : Primitives) : List Text → List Text → Type 0 where
  done : Holds c [] []
  skip :
      {lines keys : List Text} (line : Text)
      → length line < max_token_size
      → is_skipped (trimmed line) ≡ true
      → Holds c lines keys
      → Holds c (line ∷ lines) keys
  key :
      {lines keys : List Text} (line k : Text)
      → length line < max_token_size
      → is_skipped (trimmed line) ≡ false
      → c.decode_base64 (trimmed line) ≡ ok k
      → length k ≡ key_size
      → Holds c lines keys
      → Holds c (line ∷ lines) (k ∷ keys)

module _ (c : Primitives) where
  decode_key_iff :
      (line k : Text)
      → (decode_key c line ≡ ok k) ↔ ((c.decode_base64 line ≡ ok k) × (length k ≡ key_size))
  unfolding decode_key
  decode_key_iff line k = ground arith

  load_loop_sound : (lines keys : List Text) → load_loop c lines ≡ ok keys → Holds c lines keys
  unfolding load_loop
  load_loop_sound [] keys h = let e : [] ≡ keys = ok-injective h in subst (Holds c []) e done
  load_loop_sound (line ∷ lines) keys h = elim (Bool-cases (leb max_token_size (length line))) [
    | inl long ↦ cc (rw (long, load_loop) at h)
    | inr fits ↦ elim (Bool-cases (is_skipped (trimmed line))) [
      | inl empty ↦
          skip line (ground arith) empty
            (load_loop_sound lines keys (rw (fits, empty, load_loop) at h))
      | inr full ↦
          let (k, decoded, h') =
            >>=-eq-ok (decode_key c (trimmed line)) _ (rw (fits, full, load_loop) at h) in
          let (ks, rest, same) = >>=-eq-ok (load_loop c lines) _ h' in
          let (d, size) = (decode_key_iff (trimmed line) k).0 decoded in
          let e : k ∷ ks ≡ keys = ok-injective same in
          subst (Holds c (line ∷ lines)) e
            (key line k (ground arith) full d size (load_loop_sound lines ks rest))
    ]
  ]

  not-long : (n : ℕ) → n < max_token_size → leb max_token_size n ≡ false
  not-long n h = ground arith

  load_loop_complete : {lines keys : List Text} → Holds c lines keys → load_loop c lines ≡ ok keys
  unfolding load_loop
  load_loop_complete done = refl
  load_loop_complete (skip line short empty rest) =
      let s = not-long (length line) short in rw (s, empty) (load_loop_complete rest)
  load_loop_complete (key line k short full decoded size rest) =
      let s = not-long (length line) short in
      rw (s, full, (decode_key_iff (trimmed line) k).1 (decoded, size), load_loop_complete rest)

  ring_inv :
      (keys : List Text) (kr : KeyRing)
      → (if nat_eq (length keys) 0 then err no_keys else ok (record { keys = keys })) ≡ ok kr
      → (keys ≢ []) × (kr.keys ≡ keys)
  ring_inv [] kr h = cc
  ring_inv (k ∷ ks) kr h = ground arith

  ring_of_keys :
      (kr : KeyRing)
      → kr.keys ≢ []
      → (if nat_eq (length kr.keys) 0 then err no_keys else ok (record { keys = kr.keys })) ≡ ok kr
  ring_of_keys kr full = ground arith

  -- A file loads exactly if its lines hold one key at least, and the ring has those keys in order.
  pub load_key_ring_iff :
      (raw : Text) (kr : KeyRing)
      → (load_key_ring c (ok raw) ≡ ok kr) ↔ (Holds c (scan_lines raw) kr.keys × (kr.keys ≢ []))
  unfolding load_key_ring
  load_key_ring_iff raw kr = (to, from)
    where
      to : load_key_ring c (ok raw) ≡ ok kr → Holds c (scan_lines raw) kr.keys × (kr.keys ≢ [])
      to h =
          let (keys, loaded, rest) = >>=-eq-ok (load_loop c (scan_lines raw)) _ h in
          let (full, same) = ring_inv keys kr rest in
          rw same (load_loop_sound (scan_lines raw) keys loaded, full)

      from : Holds c (scan_lines raw) kr.keys × (kr.keys ≢ []) → load_key_ring c (ok raw) ≡ ok kr
      from (held, full) = rw (load_loop_complete held) (ring_of_keys kr full)

  Holds-key_size :
      {lines keys : List Text} → Holds c lines keys → All (λ k. length k ≡ key_size) keys
  Holds-key_size done = tt
  Holds-key_size (skip line short empty rest) = Holds-key_size rest
  Holds-key_size (key line k short full decoded size rest) = (size, Holds-key_size rest)

  encrypt-ne-none :
      (random : ℕ → Result Text) (kr : KeyRing) (plain : Text)
      → kr.keys ≢ []
      → encrypt c random kr plain ≢ none
  unfolding encrypt
  encrypt-ne-none random kr plain full = ground arith

  load_key_ring-read :
      (file : Result Text) (kr : KeyRing)
      → load_key_ring c file ≡ ok kr
      → (raw : Text) × (file ≡ ok raw)
  unfolding load_key_ring
  load_key_ring-read file kr h = let (raw, read, _) = >>=-eq-ok file _ h in (raw, read)

  -- A ring that was loaded has keys of 32 bytes, and encrypting with it does not panic.
  pub load_key_ring-encrypt :
      (file : Result Text) (kr : KeyRing)
      → load_key_ring c file ≡ ok kr
      → All (λ k. length k ≡ key_size) kr.keys
        × ((random : ℕ → Result Text) (plain : Text) → encrypt c random kr plain ≢ none)
  load_key_ring-encrypt file kr h =
      let (raw, read) = load_key_ring-read file kr h in
      let (held, full) = (load_key_ring_iff raw kr).0 (rw read at h) in
      (Holds-key_size held, λ random plain. encrypt-ne-none random kr plain full)

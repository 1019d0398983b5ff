-- ===== src/Crypto.antt =====
-- pkg/crypto/keyring.go: the key ring, its file, and the encryption of document bodies.
pub mod Loading
pub mod Rotation
pub mod Tests
use mathlib.Core.Option.{get_or}
use sealhub.Base.{
  ℕ, ◌+◌, ◌≤◌, ◌<◌, ◌≡◌, ◌≢◌, Bool, true, false, not, ◌&&◌, ◌||◌, Option, none, some, List, [], ◌∷◌,
  ◌++◌, if◌then◌else◌, nat_eq, ltb, leb, length, take, drop,
}
use sealhub.Base.Text.{Text, codes, ◌==◌, has_prefix, trim_space, trim_suffix, split}
use sealhub.Base.Result.{
  Result, ok, err, Error, invalid_base64, bad_key_size, no_keys, ciphertext_too_short,
  decrypt_failed, foreign, ◌>>=◌,
}

pub record KeyRing : Type 0 where
  pub keys : List Text

-- encoding/base64 and crypto/aes with crypto/cipher, as the program uses them. `new_gcm` is
-- aes.NewCipher and cipher.NewGCM, `seal` and `open_sealed` are Seal and Open with no additional
-- data; Seal's result is without the nonce that the program puts before it.
pub record Primitives : Type 0 where
  pub encode_base64 : Text → Text
  pub decode_base64 : Text → Result Text
  pub new_gcm : Text → Result (Unit {0})
  pub nonce_size : ℕ
  pub seal : Text → Text → Text → Text
  pub open_sealed : Text → Text → Text → Result Text

abbrev pub key_size : ℕ
key_size = 32

-- Base64 reads back what it wrote; AES takes keys of 32 bytes; GCM opens what was sealed under the same key, and refuses it
-- under another key of the size that the ring holds.
pub record IsAuthenticated (c : Primitives) : Type 0 where
  pub accepts : (key : Text) → length key ≡ key_size → c.new_gcm key ≡ ok tt
  pub decodes : (t : Text) → c.decode_base64 (c.encode_base64 t) ≡ ok t
  pub opens : (key nonce plain : Text) → c.open_sealed key nonce (c.seal key nonce plain) ≡ ok plain
  pub refuses :
      (key other nonce plain : Text)
      → length key ≡ key_size
      → length other ≡ key_size
      → other ≢ key
      → (x : Error) × (c.open_sealed other nonce (c.seal key nonce plain) ≡ err x)

-- bufio.ScanLines: the lines without their end, and no empty last line.
unfoldable pub drop_last_empty : List Text → List Text
drop_last_empty [] = []
drop_last_empty ([] ∷ []) = []
drop_last_empty (l ∷ ls) = l ∷ drop_last_empty ls

unfoldable pub scan_lines : Text → List Text
unfolding drop_last_empty
scan_lines raw = drop_last_empty (split raw b'\n')

-- bufio.MaxScanTokenSize: a longer line stops the scanner with an error.
abbrev pub max_token_size : ℕ
max_token_size = 65536

-- The line as the loop sees it: without a carriage return at the end, and trimmed.
abbrev pub trimmed : Text → Text
trimmed line = trim_space (trim_suffix line (13 ∷ []))

abbrev pub is_skipped : Text → Bool
is_skipped line = line == [] || has_prefix line (codes "#")

unfoldable pub decode_key : Primitives → Text → Result Text
decode_key c line = elim (c.decode_base64 line) [
  | err _ ↦ err invalid_base64
  | ok k ↦ if not (nat_eq (length k) key_size) then err (bad_key_size (length k)) else ok k
]

unfoldable pub load_loop : Primitives → List Text → Result (List Text)
load_loop c [] = ok []
load_loop c (line ∷ lines) =
    let rest = load_loop c lines in
    let with_key = decode_key c (trimmed line) >>= λ k. rest >>= λ ks. ok (k ∷ ks) in
    if leb max_token_size (length line)
    then err (foreign (codes "bufio.Scanner: token too long"))
    else if is_skipped (trimmed line)
    then rest
    else with_key

-- LoadKeyRing on what reading the file gave.
unfoldable pub load_key_ring : Primitives → Result Text → Result KeyRing
unfolding load_loop decode_key scan_lines
load_key_ring c file = do
  raw ← file
  keys ← load_loop c (scan_lines raw)
  if nat_eq (length keys) 0 then err no_keys else ok (record { keys = keys })

-- Encrypt with the bytes that the random source gives for the nonce. `none` is a panic: keys[0] of
-- an empty ring.
unfoldable pub encrypt : Primitives → (ℕ → Result Text) → KeyRing → Text → Option (Result Text)
encrypt c random kr plaintext = elim kr.keys [
  | [] ↦ none
  | key ∷ _ ↦ some (
      c.new_gcm key >>= λ _.
      random c.nonce_size >>= λ nonce. ok (c.encode_base64 (nonce ++ c.seal key nonce plaintext)))
]

unfoldable pub decrypt_with_key : Primitives → Text → Text → Result Text
decrypt_with_key c key raw = c.new_gcm key >>= λ _.
    if ltb (length raw) c.nonce_size
    then err ciphertext_too_short
    else c.open_sealed key (take c.nonce_size raw) (drop c.nonce_size raw)

-- The loop over the keys, with the last error.
unfoldable pub decrypt_loop : Primitives → Text → Option Error → List Text → Result Text
decrypt_loop c raw last [] = err (get_or last decrypt_failed)
decrypt_loop c raw last (key ∷ keys) = elim (decrypt_with_key c key raw) [
  | ok plain ↦ ok plain
  | err x ↦ decrypt_loop c raw (some x) keys
]

unfoldable pub decrypt : Primitives → KeyRing → Text → Result Text
unfolding decrypt_loop decrypt_with_key
decrypt c kr encoded = do raw ← c.decode_base64 encoded; decrypt_loop c raw none kr.keys

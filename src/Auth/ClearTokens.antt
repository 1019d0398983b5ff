-- ===== src/Auth/ClearTokens.antt =====
-- Passwords and tokens in the clear, for the runs of the authorization: a bcrypt and a JWT that do
-- what their documents promise.
use sealhub.Base.{
  ℕ, zero, suc, length, take-length-append, drop-length-append, ◌≤◌, ◌<◌, ◌≡◌, refl, sym, true,
  none, some, List, [], ◌∷◌, ◌++◌, arith, ltb, leb, ◌&&◌, if◌then◌else◌,
}
use sealhub.Base.Fields.{put, taken}
use sealhub.Base.Text.{Text, codes, ◌==◌, cut_prefix, cut_prefix-append}
use sealhub.Base.Result.{Result, ok, err, foreign, ok-injective}
use sealhub.Auth.Bearer.{
  Bcrypt, Jwt, IsSound, SigningMethod, hs256, other_method, SealhubClaims, ParsedToken,
}

-- A hash is "#" with the password behind it.
abbrev pub hashing : Bcrypt
hashing = record {
  compare_hash_and_password = λ hash t. hash == codes "#" ++ t;
  generate_from_password = λ cost t. ok (codes "#" ++ t);
}

abbrev put_many : List Text → Text → Text
put_many [] rest = rest
put_many (t ∷ ts) rest = put t (put_many ts rest)

abbrev taken_many : ℕ → Text → List Text × Text
taken_many zero rest = ([], rest)
taken_many (suc n) rest =
    let (t, after) = taken rest in let (ts, last) = taken_many n after in (t ∷ ts, last)

taken_many-put_many :
    (ts : List Text) (rest : Text) → taken_many (length ts) (put_many ts rest) ≡ (ts, rest)
taken_many-put_many [] rest = refl
taken_many-put_many (t ∷ ts) rest =
    rw
      (
        take-length-append t (put_many ts rest),
        drop-length-append t (put_many ts rest),
        taken_many-put_many ts rest,
      )
      refl

abbrev put_list : List Text → Text → Text
put_list ts rest = length ts ∷ put_many ts rest

abbrev taken_list : Text → List Text × Text
taken_list [] = ([], [])
taken_list (n ∷ rest) = taken_many n rest

-- Claims in the clear, behind the key.
abbrev pub put_claims : SealhubClaims → Text
put_claims c =
    c.expires_at
    ∷ c.issued_at
    ∷ put c.subject (put c.issuer (put_list c.audience (put_list c.groups c.kind)))

abbrev taken_claims : ℕ → ℕ → Text → SealhubClaims
taken_claims expires issued rest =
    let (subject, r1) = taken rest in
    let (issuer, r2) = taken r1 in
    let (audience, r3) = taken_list r2 in
    let (groups, kind) = taken_list r3 in
    record {
      subject = subject;
      issuer = issuer;
      audience = audience;
      expires_at = expires;
      issued_at = issued;
      groups = groups;
      kind = kind;
    }

abbrev open_claims : ℕ → Text → Result ParsedToken
open_claims now (expires ∷ issued ∷ rest) =
    if ltb now expires && leb issued now
    then ok (record { claims = taken_claims expires issued rest; valid = true })
    else err (foreign [])
open_claims now _ = err (foreign [])

abbrev check_key : ℕ → Text → Result Text → Result ParsedToken
check_key now rest (err x) = err x
check_key now rest (ok key) = elim (cut_prefix rest key) [
  | none ↦ err (foreign [])
  | some claims ↦ open_claims now claims
]

abbrev clear_parse : ℕ → Text → (SigningMethod → Result Text) → Result ParsedToken
clear_parse now (zero ∷ rest) keys = check_key now rest (keys hs256)
clear_parse now (suc _ ∷ rest) keys = check_key now rest (keys other_method)
clear_parse now [] keys = err (foreign [])

abbrev tag : SigningMethod → ℕ
tag hs256 = 0
tag other_method = 1

abbrev pub clear_jwt : Jwt
clear_jwt = record {
  signed_string = λ m c key. ok (tag m ∷ (key ++ put_claims c));
  parse_with_claims = clear_parse;
}

taken_claims-put_claims :
    (c : SealhubClaims)
    → taken_claims c.expires_at c.issued_at
        (put c.subject (put c.issuer (put_list c.audience (put_list c.groups c.kind))))
      ≡ c
taken_claims-put_claims c =
    let r2 = put_list c.audience (put_list c.groups c.kind) in
    let r1 = put c.issuer r2 in
    rw
      (
        take-length-append c.subject r1,
        drop-length-append c.subject r1,
        take-length-append c.issuer r2,
        drop-length-append c.issuer r2,
        taken_many-put_many c.audience (put_list c.groups c.kind),
        taken_many-put_many c.groups c.kind,
      )
      refl

check_key-signed :
    (c : SealhubClaims) (key : Text) (now : ℕ)
    → now < c.expires_at
    → c.issued_at ≤ now
    → check_key now (key ++ put_claims c) (ok key) ≡ ok (record { claims = c; valid = true })
check_key-signed c key now h k =
    let early : ltb now c.expires_at ≡ true = ground arith in
    let late : leb c.issued_at now ≡ true = ground arith in
    rw (check_key, cut_prefix-append key (put_claims c), early, late, taken_claims-put_claims c)
      refl

clear_parse-signed :
    (m : SigningMethod) (c : SealhubClaims) (key : Text) (now : ℕ)
    (keys : SigningMethod → Result Text)
    → keys m ≡ ok key
    → now < c.expires_at
    → c.issued_at ≤ now
    → clear_parse now (tag m ∷ (key ++ put_claims c)) keys
      ≡ ok (record { claims = c; valid = true })
clear_parse-signed hs256 c key now keys e h k = rw e (check_key-signed c key now h k)
clear_parse-signed other_method c key now keys e h k = rw e (check_key-signed c key now h k)

pub clear_jwt-IsSound : IsSound clear_jwt
clear_jwt-IsSound = record {
  parses = λ m c key signed now keys made e h k.
      let same : tag m ∷ (key ++ put_claims c) ≡ signed = ok-injective made in
      rw (sym same) (clear_parse-signed m c key now keys e h k);
}

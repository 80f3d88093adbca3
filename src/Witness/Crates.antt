-- ===== src/Witness/Crates.antt =====
-- Small functions in place of the crates, for the witnesses: ids below four are one digit, a token is
-- the user's digit before the token's id, sealing changes nothing, and "hex" marks the colons.
use Prim.Native.Char.{Char, code}
use Prim.Native.Nat.{◌^◌}
use Prim.Native.String.{[], ◌∷◌, count}
use text.Mathlib.TextEquality.{Char-path}
use flutter_21_client.Prelude.{
  ℕ, suc, zero, ◌<◌, ◌≤◌, String, Bool, true, false, ◌&&◌, ◌≡◌, refl, ap, ◌∙◌, sym, Option, none,
  some, if◌then◌else◌, ltb, arith, nat_eq, nat_eq_iff, ◌==◌, text_eq, eq_iff, Bool-cases, inl, inr,
}
use flutter_21_client.Errors.{Result, ok, err}
use flutter_21_client.Witness.Documents.{Json, member, text_in, written, read_message}
use flutter_21_client.Services.{
  Uuid, Claims, DecodeError, expired_signature, other_error, NoColon, Codec,
}

abbrev pub digit : Uuid → String
digit zero = "0"
digit (suc zero) = "1"
digit (suc (suc zero)) = "2"
digit (suc (suc (suc n))) = "3"

abbrev pub read_digit : String → Option Uuid
read_digit t =
    if t == "0"
    then some 0
    else if t == "1"
    then some 1
    else if t == "2"
    then some 2
    else if t == "3"
    then some 3
    else none

pub read_digit-digit : (u : Uuid) → u < 4 → read_digit (digit u) ≡ some u
read_digit-digit zero h = refl
read_digit-digit (suc zero) h = refl
read_digit-digit (suc (suc zero)) h = refl
read_digit-digit (suc (suc (suc zero))) h = refl
read_digit-digit (suc (suc (suc (suc n)))) h = absurd (omega arith)

pub count-digit : (u : Uuid) → count (digit u) ≡ 1
count-digit zero = refl
count-digit (suc zero) = refl
count-digit (suc (suc zero)) = refl
count-digit (suc (suc (suc n))) = refl

abbrev pub token_of : Claims → String → Result String String
token_of c [] = err "no subject"
token_of c (d ∷ []) =
    if nat_eq c.exp 60 && (nat_eq c.iat 0 && nat_eq c.nbf 0) then ok (d ∷ c.jti) else err "time"
token_of c (d ∷ e ∷ s) = err "long subject"

abbrev pub claims_of : ℕ → String → Result Claims DecodeError
claims_of now [] = err (other_error "empty")
claims_of now (d ∷ s) =
    if ltb 60 now
    then err expired_signature
    else ok (record { sub = d ∷ []; jti = s; exp = 60; iat = 0; nbf = 0 })

same_claims :
    (c : Claims) (d : Char)
    → c.sub ≡ d ∷ []
    → c.exp ≡ 60
    → c.iat ≡ 0
    → c.nbf ≡ 0
    → record { sub = d ∷ []; jti = c.jti; exp = 60; iat = 0; nbf = 0 } ≡ c
same_claims c d s e i n =
    λ j. record { sub = sym s j; jti = c.jti; exp = sym e j; iat = sym i j; nbf = sym n j }

token_fields :
    (c : Claims) (d : Char) (token : String)
    → token_of c (d ∷ []) ≡ ok token
    → (token ≡ d ∷ c.jti) × (c.exp ≡ 60) × (c.iat ≡ 0) × (c.nbf ≡ 0)
token_fields c d token e = ground arith

live_claims :
    (now : ℕ) (d : Char) (s : String)
    → now ≤ 60
    → claims_of now (d ∷ s) ≡ ok (record { sub = d ∷ []; jti = s; exp = 60; iat = 0; nbf = 0 })
live_claims now d s h = ground arith

one_digit-claims :
    (c : Claims) (d : Char) (now : ℕ) (token : String)
    → c.sub ≡ d ∷ []
    → token_of c (d ∷ []) ≡ ok token
    → now ≤ c.exp
    → claims_of now token ≡ ok c
one_digit-claims c d now token s e h =
    let (spelt, exp, iat, nbf) = token_fields c d token e in
    ap (claims_of now) spelt
    ∙ live_claims now d c.jti (omega arith)
    ∙ ap ok (same_claims c d s exp iat nbf)

pub claims_of-token_of :
    (c : Claims) (sub : String) (now : ℕ) (token : String)
    → c.sub ≡ sub
    → token_of c sub ≡ ok token
    → now ≤ c.exp
    → claims_of now token ≡ ok c
claims_of-token_of c [] now token s e h = absurd (ground arith)
claims_of-token_of c (d ∷ []) now token s e h = one_digit-claims c d now token s e h
claims_of-token_of c (d ∷ x ∷ r) now token s e h = absurd (ground arith)

pub claims_same :
    (now later : ℕ) (token : String) (c d : Claims)
    → claims_of now token ≡ ok c
    → claims_of later token ≡ ok d
    → c ≡ d
claims_same now later [] c d h k = absurd (ground arith)
claims_same now later (x ∷ s) c d h k = ground arith

abbrev pub letter_a : Char
letter_a = "a"

abbrev pub letter_b : Char
letter_b = "b"

abbrev pub colon : Char
colon = ":"

-- A colon becomes "b", and another character has an "a" before it.
abbrev pub marked : String → String
marked [] = []
marked (c ∷ s) = if nat_eq (code c) b':' then letter_b ∷ marked s else letter_a ∷ (c ∷ marked s)

abbrev pub prefixed : Char → Result String String → Result String String
prefixed c (ok s) = ok (c ∷ s)
prefixed c (err e) = err e

-- The flag says that an "a" came before.
abbrev pub unmarked : Bool → String → Result String String
unmarked true [] = err "odd"
unmarked false [] = ok []
unmarked true (c ∷ s) = prefixed c (unmarked false s)
unmarked false (c ∷ s) =
    if nat_eq (code c) b'b' then prefixed colon (unmarked false s) else unmarked true s

after_mark :
    (c : Char) (s : String) → unmarked false (letter_a ∷ (c ∷ s)) ≡ prefixed c (unmarked false s)
after_mark c s = refl

for_colon : (s : String) → unmarked false (letter_b ∷ s) ≡ prefixed colon (unmarked false s)
for_colon s = refl

pub unmarked-marked : (s : String) → unmarked false (marked s) ≡ ok s
unmarked-marked [] = refl
unmarked-marked (c ∷ s) = elim (Bool-cases (nat_eq (code c) b':')) [
  | inl same ↦
      rw (same, unmarked-marked s)
        (ap (λ x. ok (x ∷ s)) (Char-path colon c (sym ((nat_eq_iff (code c) b':').0 same))))
  | inr other ↦ rw (other, unmarked-marked s) refl
]

pub NoColon-marked : (s : String) → NoColon (marked s)
NoColon-marked [] = tt
NoColon-marked (c ∷ s) = elim (Bool-cases (nat_eq (code c) b':')) [
  | inl same ↦ rw same (refl, NoColon-marked s)
  | inr other ↦ rw other (refl, (other, NoColon-marked s))
]

abbrev pub stored_password : String → Result String String
stored_password s = ok s

pub same_hash :
    (p : ℕ) (salt : ℕ) (password hash : String)
    → stored_password password ≡ ok hash
    → (h : String) × (stored_password hash ≡ ok h) × ((password == h) ≡ true)
same_hash p salt password hash e = (hash, refl, (eq_iff password hash).1 (ground arith))

-- A number for each width that the settings have, whatever the text.
abbrev pub small_number : ℕ → String → Option ℕ
small_number bits s =
    if nat_eq bits 16
    then some 3000
    else if nat_eq bits 32
    then some 10
    else if nat_eq bits 64
    then some 60
    else none

pub small_number-lt : (bits : ℕ) (s : String) (n : ℕ) → small_number bits s ≡ some n → n < 2 ^ bits
small_number-lt bits s n e = elim (Bool-cases (nat_eq bits 16)) [
  | inl h ↦
      let k : bits ≡ 16 = ground arith in let v : n ≡ 3000 = ground arith in rw (k, v) (omega arith)
  | inr h ↦ elim (Bool-cases (nat_eq bits 32)) [
    | inl h' ↦
        let k : bits ≡ 32 = ground arith in let v : n ≡ 10 = ground arith in rw (k, v) (omega arith)
    | inr h' ↦ elim (Bool-cases (nat_eq bits 64)) [
      | inl h'' ↦
          let k : bits ≡ 64 = ground arith in
          let v : n ≡ 60 = ground arith in rw (k, v) (omega arith)
      | inr h'' ↦ absurd (ground arith)
    ]
  ]
]

abbrev pub small_codec : Codec
small_codec = record {
  show_uuid = digit;
  parse_uuid = read_digit;
  uuid_bound = 4;
  parse-show = read_digit-digit;
  show_length = λ u v. count-digit u ∙ sym (count-digit v);
  random_uuid = λ n. n;
  random_token = λ n. digit n;
  Value = Json;
  from_str = read_message;
  get = member;
  as_str = text_in;
  value_text = written;
  encode = λ key c. token_of c c.sub;
  decode = λ key now token. claims_of now token;
  decode-encode = λ key c now token e from until. claims_of-token_of c c.sub now token refl e until;
  decode-same = λ key token now later c d. claims_same now later token c d;
  Bytes = String;
  byte_length = count;
  nonce = λ n. "twelve-bytes";
  nonce_length = λ n. refl;
  aes_encrypt = λ key n plain. ok plain;
  aes_decrypt = λ key n sealed. ok sealed;
  aes_decrypt-encrypt = λ key n plain sealed e. sym e;
  hex_encode = marked;
  hex_decode = unmarked false;
  hex_decode-encode = unmarked-marked;
  hex_no_colon = NoColon-marked;
  as_bytes = λ s. s;
  from_utf8 = λ s. ok s;
  from_utf8-as_bytes = λ s. refl;
  Argon2Params = ℕ;
  argon2_params = λ memory rounds lanes. ok memory;
  argon2_hash = λ p salt password. ok password;
  PasswordHash = String;
  parse_hash = λ hash. ok hash;
  verify_hash = λ password hash. password == hash;
  verify-hash = same_hash;
  show_number = digit;
  regex_is_match = λ re s. true;
  lower = λ s. s;
  trim = λ s. s;
  parse_unsigned = small_number;
  parse_unsigned-lt = small_number-lt;
  ilike = λ s pattern. s == pattern;
  collates = λ s t. true;
  to_rfc3339 = λ n. "1970";
}

-- ===== src/Services/Crates.antt =====
-- The crates that code and decode: uuid (text form, random ids), serde_json, jsonwebtoken, aes-gcm
-- with hex, argon2, regex; and SQL's LOWER.
use Prim.Native.Char.{code}
use flutter_21_client.Prelude.{ℕ, ◌≤◌, ◌<◌, ◌≡◌, Bool, true, false, Option, some, nat_eq}
use flutter_21_client.Errors.{Result, ok}
use flutter_21_client.Services.Keys.{Uuid}
use Prim.Native.Nat.{◌^◌}
use Prim.Native.String.{String, [], ◌∷◌, count}

-- auth/jwt.rs, `Claims`; times are seconds since 1970.
pub record Claims : Type 0 where
  pub sub : String
  pub jti : String
  pub exp : ℕ
  pub iat : ℕ
  pub nbf : ℕ

-- What `jsonwebtoken::decode` reports of a token that it refuses.
pub data DecodeError : Type 0 where
  expired_signature : DecodeError
  other_error : String → DecodeError

-- The text holds no colon.
abbrev pub NoColon : String → Type 0
NoColon [] = Unit
NoColon (c ∷ s) = (nat_eq (code c) b':' ≡ false) × NoColon s

pub record Codec : Type 1 where
  pub show_uuid : Uuid → String
  pub parse_uuid : String → Option Uuid
  -- An id has 128 bits: this is 2 ^ 128.
  pub uuid_bound : ℕ
  pub parse-show : (u : Uuid) → u < uuid_bound → parse_uuid (show_uuid u) ≡ some u
  -- The hyphenated form has a fixed length.
  pub show_length : (u v : Uuid) → count (show_uuid u) ≡ count (show_uuid v)
  -- The n-th random id that the process draws.
  pub random_uuid : ℕ → Uuid
  -- The n-th random token of twelve letters and digits.
  pub random_token : ℕ → String
  pub Value : Type 0
  pub from_str : String → Option Value
  pub get : Value → String → Option Value
  pub as_str : Value → Option String
  pub value_text : Value → String
  -- Signing key, claims; verification key, time in seconds, token.
  pub encode : String → Claims → Result String String
  pub decode : String → ℕ → String → Result Claims DecodeError
  pub decode-encode :
      (key : String) (c : Claims) (now : ℕ) (token : String)
      → encode key c ≡ ok token
      → c.nbf ≤ now
      → now ≤ c.exp
      → decode key now token ≡ ok c
  -- The claims of a token are its payload; the time decides only whether they are answered.
  pub decode-same :
      (key token : String) (now later : ℕ) (c d : Claims)
      → decode key now token ≡ ok c
      → decode key later token ≡ ok d
      → c ≡ d
  -- Rust's byte slices and vectors.
  pub Bytes : Type 0
  pub byte_length : Bytes → ℕ
  -- The n-th nonce drawn; key, nonce, plain text; key, nonce, cipher text.
  pub nonce : ℕ → Bytes
  pub nonce_length : (n : ℕ) → byte_length (nonce n) ≡ 12
  pub aes_encrypt : Bytes → Bytes → Bytes → Result Bytes String
  pub aes_decrypt : Bytes → Bytes → Bytes → Result Bytes String
  pub aes_decrypt-encrypt :
      (key n plain sealed : Bytes)
      → aes_encrypt key n plain ≡ ok sealed
      → aes_decrypt key n sealed ≡ ok plain
  pub hex_encode : Bytes → String
  pub hex_decode : String → Result Bytes String
  pub hex_decode-encode : (bytes : Bytes) → hex_decode (hex_encode bytes) ≡ ok bytes
  pub hex_no_colon : (bytes : Bytes) → NoColon (hex_encode bytes)
  -- Rust's UTF-8 view of a text.
  pub as_bytes : String → Bytes
  pub from_utf8 : Bytes → Result String String
  pub from_utf8-as_bytes : (s : String) → from_utf8 (as_bytes s) ≡ ok s
  pub Argon2Params : Type 0
  -- Memory in KiB, rounds, lanes.
  pub argon2_params : ℕ → ℕ → ℕ → Result Argon2Params String
  -- With the n-th salt drawn.
  pub argon2_hash : Argon2Params → ℕ → String → Result String String
  pub PasswordHash : Type 0
  pub parse_hash : String → Result PasswordHash String
  pub verify_hash : String → PasswordHash → Bool
  pub verify-hash :
      (p : Argon2Params) (salt : ℕ) (password hash : String)
      → argon2_hash p salt password ≡ ok hash
      → (h : PasswordHash) × (parse_hash hash ≡ ok h) × (verify_hash password h ≡ true)
  -- `Display` of an i64 that is not negative
  pub show_number : ℕ → String
  pub regex_is_match : String → String → Bool
  pub lower : String → String
  -- `str::trim`
  pub trim : String → String
  -- `str::parse` of an unsigned integer of so many bits.
  pub parse_unsigned : ℕ → String → Option ℕ
  pub parse_unsigned-lt :
      (bits : ℕ) (s : String) (n : ℕ) → parse_unsigned bits s ≡ some n → n < 2 ^ bits
  -- Whether a text is ILIKE a pattern in the database, and whether a text stands before another in its collation.
  pub ilike : String → String → Bool
  pub collates : String → String → Bool
  -- RFC 3339 text of milliseconds since 1970
  pub to_rfc3339 : ℕ → String

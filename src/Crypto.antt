-- ===== src/Crypto.antt =====
-- crypto/mod.rs: the coding of encrypted payloads (`SignalingCrypto`) and password hashing. The key
-- that stands for the cipher is the secret of the configuration.
pub mod RoundTrip
use Prim.Native.Char.{code}
use Prim.Native.String.{String, [], ◌∷◌, ◌++◌}
use flutter_21_client.Prelude.{ℕ, Bool, Option, none, some, nat_eq, length, if◌then◌else◌, List}
use flutter_21_client.Errors.{Result, ok, err, ApiResult, crypto, map_err}
use flutter_21_client.Services.{Services}
use flutter_21_client.World.{M, ◌>>=◌, lift, draw, pure}

abbrev pub push_front : String → Option (String × String) → Option (String × String)
push_front c none = none
push_front c (some (a, b)) = some (c ++ a, b)

-- `split_once(':')`
unfoldable pub split_once : String → Option (String × String)
split_once [] = none
split_once (c ∷ s) =
    if nat_eq (code c) b':' then some ("", s) else push_front (c ∷ []) (split_once s)

-- What a call answers, or a panic.
pub data Run (A : Type 0) : Type 0 where
  returns : A → Run A
  panics : Run A

module _ (E : Services) where
  unfoldable pub seal : E.Bytes → ℕ → String → ApiResult String
  seal key n plaintext = elim (E.aes_encrypt key (E.nonce n) (E.as_bytes plaintext)) [
    | ok sealed ↦ ok (E.hex_encode (E.nonce n) ++ (":" ++ E.hex_encode sealed))
    | err e ↦ err (crypto e)
  ]

  -- An error of the crate also stands for a text that is no PHC string.
  unfoldable pub verify_password : String → String → ApiResult Bool
  verify_password password hash = elim (E.parse_hash hash) [
    | ok parsed ↦ ok (E.verify_hash password parsed)
    | err e ↦ err (crypto e)
  ]

  -- main.rs: the conversion of the secret to 32 bytes, and `SignalingCrypto::new`.
  unfoldable pub signaling_key : E.Bytes → Run E.Bytes
  signaling_key secret = if nat_eq (E.byte_length secret) 32 then returns secret else panics

  abbrev open_bytes : E.Bytes → E.Bytes → E.Bytes → ApiResult String
  open_bytes key nonce ct = elim (E.aes_decrypt key nonce ct) [
    | ok plaintext ↦ map_err crypto (E.from_utf8 plaintext)
    | err e ↦ err (crypto "Decryption failed — tampered payload?")
  ]

  -- `Nonce::from_slice` panics unless the slice has twelve bytes.
  abbrev open_parts : E.Bytes → E.Bytes → E.Bytes → Run (ApiResult String)
  open_parts key nonce ct =
      if nat_eq (E.byte_length nonce) 12 then returns (open_bytes key nonce ct) else panics

  abbrev open_hex : E.Bytes → String → String → Run (ApiResult String)
  open_hex key nonce_hex ct_hex = elim (E.hex_decode nonce_hex) [
    | err e ↦ returns (err (crypto e))
    | ok nonce ↦ elim (E.hex_decode ct_hex) [
      | err e ↦ returns (err (crypto e))
      | ok ct ↦ open_parts key nonce ct
    ]
  ]

  unfoldable pub decrypt : E.Bytes → String → Run (ApiResult String)
  unfolding split_once
  decrypt key payload = elim (split_once payload) [
    | none ↦ returns (err (crypto "Invalid encrypted format"))
    | some (nonce_hex, ct_hex) ↦ open_hex key nonce_hex ct_hex
  ]

-- `SignalingCrypto::encrypt`, with the nonce drawn here.
unfoldable pub encrypt : {E : Services} → E.Bytes → String → M E String
unfolding draw seal
encrypt {E} key plaintext = do n ← draw; lift (seal E key n plaintext)

-- Argon2id over 19 MiB with two rounds and one lane; the salt is drawn here.
unfoldable pub hash_password : {E : Services} → String → M E String
unfolding draw
hash_password {E} password = do
  params ← lift (map_err crypto (E.argon2_params 19456 2 1))
  salt ← draw
  lift (map_err crypto (E.argon2_hash params salt password))

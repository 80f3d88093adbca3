-- ===== src/Crypto/RoundTrip.antt =====
-- crypto/mod.rs: what is encrypted decrypts to itself.
use Prim.Native.Char.{Char}
use Prim.Native.String.{String, [], ◌∷◌, ◌++◌}
use text.Mathlib.TextLemmas.{nil-append, cons-append}
use flutter_21_client.Prelude.{ℕ, Option, some, ◌≡◌, arith, ap, ◌∙◌, inl, inr, ◌≢◌}
use flutter_21_client.Errors.{ok, Result-cases}
use flutter_21_client.Services.{Services, NoColon}
use flutter_21_client.World.{World}
use flutter_21_client.Crypto.{split_once, returns, panics, decrypt, encrypt}

colon : Char
colon = ":"

split_once-colon : (b : String) → split_once (":" ++ b) ≡ some ("", b)
unfolding split_once colon
split_once-colon b =
    ap split_once (cons-append colon [] b)
    ∙ ap {B = Option (String × String)} (λ t. some ("", t)) (nil-append b)

split_once-append : (a b : String) → NoColon a → split_once (a ++ (":" ++ b)) ≡ some (a, b)
unfolding split_once
split_once-append [] b h = rw (nil-append (":" ++ b)) (split_once-colon b)
split_once-append (c ∷ a) b (h, hs) =
    rw (cons-append c a (":" ++ b), split_once-append a b hs, h, cons-append c [] a, nil-append a)

sealed_lem :
    (E : Services) (key : E.Bytes) (plaintext payload : String) (n : ℕ) (sealed : E.Bytes)
    → E.aes_encrypt key (E.nonce n) (E.as_bytes plaintext) ≡ ok sealed
    → E.hex_encode (E.nonce n) ++ (":" ++ E.hex_encode sealed) ≡ payload
    → decrypt E key payload ≡ returns (ok plaintext)
unfolding decrypt
sealed_lem E key plaintext payload n sealed e same = rw (← same) (
    ground (
      arith,
      split_once-append (E.hex_encode (E.nonce n)) (E.hex_encode sealed)
          (E.hex_no_colon (E.nonce n)),
      E.hex_decode-encode (E.nonce n),
      E.hex_decode-encode sealed,
      E.nonce_length n,
      E.aes_decrypt-encrypt key (E.nonce n) (E.as_bytes plaintext) sealed e,
      E.from_utf8-as_bytes plaintext,
    ))

-- A payload that `encrypt` made decrypts, under the same secret, to the text that was encrypted.
pub decrypt-encrypt :
    {E : Services} (key : E.Bytes) (plaintext payload : String) (w : World E)
    → (encrypt key plaintext w).0 ≡ ok payload
    → decrypt E key payload ≡ returns (ok plaintext)
unfolding encrypt
decrypt-encrypt {E} key plaintext payload w h =
    let n = E.nonce w.drawn in
    elim (Result-cases (E.aes_encrypt key n (E.as_bytes plaintext))) [
      | inl (sealed, e) ↦ sealed_lem E key plaintext payload w.drawn sealed e (ground arith)
      | inr (x, e) ↦ absurd (ground arith)
    ]

-- `decrypt` panics on a payload of two hex parts whose first part has not twelve bytes, where it
-- should answer an error.
pub decrypt_panics :
    (E : Services) (key : E.Bytes) (nonce sealed : E.Bytes)
    → E.byte_length nonce ≢ 12
    → decrypt E key (E.hex_encode nonce ++ (":" ++ E.hex_encode sealed)) ≡ panics
unfolding decrypt
decrypt_panics E key nonce sealed h = ground (
  arith,
  split_once-append (E.hex_encode nonce) (E.hex_encode sealed) (E.hex_no_colon nonce),
  E.hex_decode-encode nonce,
  E.hex_decode-encode sealed,
)

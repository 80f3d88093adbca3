-- ===== src/Witness/AuthCases.antt =====
-- Refresh tokens, sealed payloads and keys.
use flutter_21_client.Prelude.{
  String, false, ap, ◌∙◌, ◌≡◌, ◌≢◌, refl, none, some, List, [], ◌∷◌, arith, any, ◌==◌, text_eq,
  eq_iff, if◌then◌else◌, nat_eq, ◌&&◌,
}
use flutter_21_client.Errors.{ok, err}
use flutter_21_client.Services.{Claims, Uuid, refresh as refresh_token_key, refresh_list}
use flutter_21_client.World.{World, ◌>>◌}
use flutter_21_client.Auth.{Tokens, refresh, issue_tokens}
use flutter_21_client.Auth.Issue.{next_jti}
use flutter_21_client.Auth.Rotation.{
  reuse_error, IsFresh, IsHeld, IsRotated, refresh-rotates, refresh_once, refresh_of_reused,
}
use flutter_21_client.Crypto.{returns, panics, encrypt, decrypt}
use flutter_21_client.Crypto.RoundTrip.{decrypt-encrypt, decrypt_panics}
use flutter_21_client.RedisStore.{revoke_all_refresh_tokens}
use flutter_21_client.RedisStore.Sessions.{store_each, eleventh_survives_revoke}
use flutter_21_client.Witness.Setting.{small, settings, start}

-- The token of user 1 with the id "1".
abbrev pub old_claims : Claims
old_claims = record { sub = "1"; jti = "1"; exp = 60; iat = 0; nbf = 0 }

abbrev pub held : World small
held = record start { store = small.set_ex (refresh_token_key 1 "1") "1" 60 start.store }

abbrev pub new_tokens : Tokens
new_tokens = record { access_token = "11"; refresh_token = "12" }

rotated : (refresh {E = small} settings "11" held).0 ≡ ok new_tokens
unfolding refresh flutter_21_client.Auth.rotate issue_tokens
rotated = refl

issued : (issue_tokens {E = small} settings 1 held).0 ≡ ok new_tokens
unfolding issue_tokens
issued = refl

abbrev old_jti : String
old_jti = "1"

abbrev new_jti : String
new_jti = "2"

id_differs : (new_jti == old_jti) ≡ false
id_differs = refl

fresh_id : next_jti {E = small} settings held ≢ "1"
fresh_id e = cc (id_differs, (eq_iff new_jti old_jti).1 e)

fresh : IsFresh settings "11" held
fresh claims d e =
    let same = small.decode-same "refresh" "11" 0 0 claims old_claims d refl in
    fresh_id (e ∙ ap (λ (x : Claims). x.jti) same)

refresh-rotates_example :
    (claims : Claims) × (user : Uuid) × IsHeld settings "11" held claims user
    × IsRotated settings held claims user new_tokens (refresh settings "11" held).1
refresh-rotates_example = refresh-rotates settings "11" held new_tokens (omega arith) fresh rotated

abbrev after_rotation : World small
after_rotation = (refresh settings "11" held).1

refresh_once_example :
    (refresh {E = small} settings "11"
      (record after_rotation { store = small.advance 5 after_rotation.store })).0
    ≢ ok new_tokens
unfolding refresh flutter_21_client.Auth.rotate issue_tokens
refresh_once_example =
    refresh_once settings "11" held
      (record after_rotation { store = small.advance 5 after_rotation.store }) new_tokens new_tokens
      5 (omega arith) fresh rotated refl

refresh_of_reused_example :
    ((refresh {E = small} settings "12" held).0 ≡ err reuse_error)
    × (small.items (refresh_list 1) (refresh settings "12" held).1.store ≡ [])
    × (small.value (refresh_token_key 1 "1") (refresh settings "12" held).1.store ≡ (
        if nat_eq 1 1 && any (λ (j : String). j == "1") (small.items (refresh_list 1) held.store)
        then none
        else small.value (refresh_token_key 1 "1") held.store))
refresh_of_reused_example =
    refresh_of_reused settings "12" held (record old_claims { jti = "2" }) 1 1 "1" refl refl refl
      refl

sealed_text : (encrypt {E = small} "secret" "a:b" start).0 ≡ ok "atawaealavaea-abayataeas:aabab"
unfolding encrypt
sealed_text = refl

decrypt-encrypt_example :
    decrypt small "secret" "atawaealavaea-abayataeas:aabab" ≡ returns (ok "a:b")
decrypt-encrypt_example =
    decrypt-encrypt "secret" "a:b" "atawaealavaea-abayataeas:aabab" start sealed_text

decrypt_panics_example : decrypt small "secret" "asahaoarat:ax" ≡ panics
decrypt_panics_example = decrypt_panics small "secret" "short" "x" (λ e. omega arith)

abbrev ten : List String
ten = "a" ∷ "b" ∷ "c" ∷ "d" ∷ "e" ∷ "f" ∷ "g" ∷ "h" ∷ "i" ∷ "j" ∷ []

eleventh_survives_revoke_example :
    (((do store_each 1 60 ("first" ∷ ten); revoke_all_refresh_tokens {E = small} 1) start).0
      ≡ ok tt)
    × (small.value
          (refresh_token_key 1 "first")
          ((do store_each 1 60 ("first" ∷ ten); revoke_all_refresh_tokens {E = small} 1)
            start).1.store
        ≡ some "1")
eleventh_survives_revoke_example =
    eleventh_survives_revoke 1 60 "first" ten start (omega arith) refl refl
      (refl, (refl, (refl, (refl, (refl, (refl, (refl, (refl, (refl, (refl, tt))))))))))

-- ===== src/Auth/Logout.antt =====
-- routes/auth.rs, `logout`: the end of a session.
use flutter_21_client.Prelude.{
  ℕ, String, true, false, any, ◌==◌, text_eq, eq_refl, some, none, [], ◌≡◌, ◌≢◌, ◌⊎◌, ◌∙◌, ap,
  arith, inl, inr,
}
use flutter_21_client.Errors.{ok}
use flutter_21_client.Services.{Services, Claims, refresh as refresh_key, refresh_list}
use flutter_21_client.World.{World}
use flutter_21_client.Config.{Config}
use flutter_21_client.Jwt.{timestamp, verify_refresh, jwt_service}
use flutter_21_client.RedisStore.{revoke_all_refresh_tokens, revoke_refresh_token, delete_tokens}
use flutter_21_client.RedisStore.Tokens.{value-delete_tokens}
use flutter_21_client.Auth.{AuthUser, LogoutRequest, Tokens, wants_all, logout, refresh}
use flutter_21_client.Auth.Rotation.{refresh_of_absent}

module _ {E : Services} (c : Config E) where
  -- The key of the token is gone.
  value-logout_all :
      (auth : AuthUser) (body : LogoutRequest) (jti : String) (w : World E)
      → wants_all body.logout_all ≡ true
      → any (λ j. j == jti) (E.items (refresh_list auth.user_id) w.store) ≡ true
      → w.redis_outcomes ≡ []
      → E.value (refresh_key auth.user_id jti) (logout c auth body w).1.store ≡ none
  unfolding logout revoke_all_refresh_tokens
  value-logout_all auth body jti w all listed up =
      let user = auth.user_id in
      let jtis = E.items (refresh_list user) w.store in
      ground (
        arith,
        E.value-del_list (refresh_key user jti) (refresh_list user)
            (delete_tokens E user jtis w.store),
        value-delete_tokens E user user jti jtis w.store,
      )

  value-logout_one :
      (auth : AuthUser) (body : LogoutRequest) (token : String) (claims : Claims) (w : World E)
      → wants_all body.logout_all ≡ false
      → body.refresh_token ≡ some token
      → E.decode c.jwt_refresh_secret (timestamp w.now) token ≡ ok claims
      → w.redis_outcomes ≡ []
      → E.value (refresh_key auth.user_id claims.jti) (logout c auth body w).1.store ≡ none
  unfolding logout revoke_refresh_token verify_refresh jwt_service
  value-logout_one auth body token claims w one given d up = ground (
    arith,
    E.value-del (refresh_key auth.user_id claims.jti) (refresh_key auth.user_id claims.jti) w.store,
    eq_refl claims.jti,
  )

  -- The log-out is of the token: of all sessions, and the token's id is in the user's list, or of
  -- this token.
  abbrev pub IsOf : AuthUser → LogoutRequest → String → Claims → World E → Type 0
  IsOf auth body token claims w =
      ((wants_all body.logout_all ≡ true)
        × (any (λ j. j == claims.jti) (E.items (refresh_list auth.user_id) w.store) ≡ true))
      ⊎ ((wants_all body.logout_all ≡ false) × (body.refresh_token ≡ some token))

  value-logout :
      (auth : AuthUser) (body : LogoutRequest) (token : String) (claims : Claims) (w : World E)
      → IsOf auth body token claims w
      → E.decode c.jwt_refresh_secret (timestamp w.now) token ≡ ok claims
      → w.redis_outcomes ≡ []
      → E.value (refresh_key auth.user_id claims.jti) (logout c auth body w).1.store ≡ none
  value-logout auth body token claims w (inl (all, listed)) d up =
      value-logout_all auth body claims.jti w all listed up
  value-logout auth body token claims w (inr (one, given)) d up =
      value-logout_one auth body token claims w one given d up

  -- After a log-out the session of a token does not come back: when a user, for whom the token
  -- verifies then, has logged out with it, or from all sessions while the user's list has its id, and
  -- Redis carried the commands out, no refresh by the token succeeds in any state whose keyspace is
  -- what the log-out left after some time has passed.
  pub logout-ends :
      (auth : AuthUser) (body : LogoutRequest) (token : String) (claims : Claims) (w v : World E)
      (d : ℕ) (tokens : Tokens)
      → IsOf auth body token claims w
      → E.decode c.jwt_refresh_secret (timestamp w.now) token ≡ ok claims
      → E.parse_uuid claims.sub ≡ some auth.user_id
      → w.redis_outcomes ≡ []
      → v.store ≡ E.advance d (logout c auth body w).1.store
      → (refresh c token v).0 ≢ ok tokens
  logout-ends auth body token claims w v d tokens of dec own up later =
      let k = refresh_key auth.user_id claims.jti in
      let gone = value-logout auth body token claims w of dec up in
      refresh_of_absent c token w v claims auth.user_id tokens dec own
        (ap (E.value k) later ∙ E.value_none-advance k d _ gone)

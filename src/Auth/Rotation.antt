-- ===== src/Auth/Rotation.antt =====
-- routes/auth.rs, `refresh`: rotation of refresh tokens and the answer to a reused one.
use flutter_21_client.Prelude.{
  ℕ, ◌<◌, ◌≡◌, ◌≢◌, ap, sym, subst, Option-cases, inl, inr, ◌∙◌, String, some, none, arith,
  if◌then◌else◌, [], any, ◌==◌, text_eq, eq_refl, eq_iff, nat_eq, ◌&&◌,
}
use flutter_21_client.Errors.{ok, err, AppError, unauthorized, Result-cases}
use flutter_21_client.Services.{Services, Uuid, refresh as refresh_token_key, refresh_list, Claims}
use flutter_21_client.World.{World}
use flutter_21_client.Config.{Config}
use flutter_21_client.Jwt.{timestamp, claims_for}
use flutter_21_client.RedisStore.{
  is_refresh_token_valid, revoke_refresh_token, revoke_all_refresh_tokens, delete_tokens,
}
use flutter_21_client.RedisStore.Tokens.{value-stored_token, value-delete_tokens}
use flutter_21_client.Auth.{Tokens, refresh, rotate, revoke_sessions}
use flutter_21_client.Auth.Issue.{next_claims, next_jti, issue_tokens-ok}

abbrev pub reuse_error : AppError
reuse_error = unauthorized "Refresh token invalid — all sessions revoked for security"

module _ {E : Services} (c : Config E) where
  -- The old id is gone and the new one stored, if the two differ.
  rotate-ok :
      (user : Uuid) (jti : String) (w : World E) (tokens : Tokens)
      → 0 < c.jwt_refresh_exp_secs
      → next_jti c w ≢ jti
      → (rotate c user jti w).0 ≡ ok tokens
      → (E.value (refresh_token_key user jti) (rotate c user jti w).1.store ≡ none)
        × (E.value (refresh_token_key user (next_jti c w)) (rotate c user jti w).1.store ≡ some "1")
        × (E.decode c.jwt_refresh_secret (timestamp w.now) tokens.refresh_token
            ≡ ok (next_claims c w user))
  unfolding rotate claims_for
  rotate-ok user jti w tokens pos fresh h =
      let w' : World E = (revoke_refresh_token {E = E} user jti w).1 in
      let k = refresh_token_key user jti in
      let k' = refresh_token_key user (next_jti c w) in
      ground (
        arith,
        issue_tokens-ok c user w' tokens,
        value-stored_token E k user (next_jti c w) c.jwt_refresh_exp_secs w'.store pos,
        value-stored_token E k' user (next_jti c w) c.jwt_refresh_exp_secs w'.store pos,
        E.value-del k k w.store,
        eq_iff (next_jti c w) jti,
        eq_refl (next_jti c w),
        eq_refl jti,
      )

  revoke_sessions-fails :
      (user : Uuid) (w : World E) (tokens : Tokens) → (revoke_sessions c user w).0 ≢ ok tokens
  unfolding revoke_sessions
  revoke_sessions-fails user w tokens h = ground arith

  -- What a refresh was given when it succeeds: a token that verifies, for a user whose key for the
  -- token's id is present.
  abbrev pub IsHeld : String → World E → Claims → Uuid → Type 0
  IsHeld token w claims user =
      (E.decode c.jwt_refresh_secret (timestamp w.now) token ≡ ok claims)
      × (E.parse_uuid claims.sub ≡ some user)
      × (E.value (refresh_token_key user claims.jti) w.store ≢ none)

  refresh-IsHeld :
      (token : String) (w : World E) (tokens : Tokens)
      → (refresh c token w).0 ≡ ok tokens
      → (claims : Claims) × (user : Uuid) × IsHeld token w claims user
  unfolding refresh
  refresh-IsHeld token w tokens h =
      elim (Result-cases (E.decode c.jwt_refresh_secret (timestamp w.now) token)) [
        | inl (claims, verified) ↦ elim (Option-cases (E.parse_uuid claims.sub)) [
          | inl bad ↦ absurd (ground arith)
          | inr (user, parsed) ↦
              let w' : World E = (is_refresh_token_valid {E = E} user claims.jti w).1 in
              (
                claims,
                user,
                (verified, parsed, λ gone. ground (arith, revoke_sessions-fails user w' tokens)),
              )
        ]
        | inr (e, refused) ↦ absurd (ground arith)
      ]

  -- The refresh token that is issued next has another id than the token.
  abbrev pub IsFresh : String → World E → Type 0
  IsFresh token w =
      (claims : Claims)
      → E.decode c.jwt_refresh_secret (timestamp w.now) token ≡ ok claims
      → next_jti c w ≢ claims.jti

  -- What a refresh leaves: the key of the token's id is gone, the key of the id that the new token
  -- carries is there, and the new token verifies for the same user.
  abbrev pub IsRotated : World E → Claims → Uuid → Tokens → World E → Type 0
  IsRotated w claims user tokens v =
      (E.value (refresh_token_key user claims.jti) v.store ≡ none)
      × (E.value (refresh_token_key user (next_jti c w)) v.store ≡ some "1")
      × (E.decode c.jwt_refresh_secret (timestamp w.now) tokens.refresh_token
          ≡ ok (next_claims c w user))

  rotates_held :
      (token : String) (w : World E) (claims : Claims) (user : Uuid) (tokens : Tokens)
      → 0 < c.jwt_refresh_exp_secs
      → E.decode c.jwt_refresh_secret (timestamp w.now) token ≡ ok claims
      → E.parse_uuid claims.sub ≡ some user
      → next_jti c w ≢ claims.jti
      → (refresh c token w).0 ≡ ok tokens
      → IsRotated w claims user tokens (refresh c token w).1
  unfolding refresh claims_for
  rotates_held token w claims user tokens pos d p fresh h =
      let w' : World E = (is_refresh_token_valid {E = E} user claims.jti w).1 in
      ground (arith, rotate-ok user claims.jti w' tokens pos, revoke_sessions-fails user w' tokens)

  -- A refresh that succeeds was given a token that verifies, for a user whose key for the token's id
  -- was present; afterwards that key is gone, the key of the id that the new token carries is there,
  -- and the new token verifies for the same user. The life time is positive and the new id differs
  -- from the id of the token, if the token verifies.
  pub refresh-rotates :
      (token : String) (w : World E) (tokens : Tokens)
      → 0 < c.jwt_refresh_exp_secs
      → IsFresh token w
      → (refresh c token w).0 ≡ ok tokens
      → (claims : Claims) × (user : Uuid) × IsHeld token w claims user
        × IsRotated w claims user tokens (refresh c token w).1
  refresh-rotates token w tokens pos fresh h =
      let (claims, user, held) = refresh-IsHeld token w tokens h in
      let rotated =
        rotates_held token w claims user tokens pos held.0 held.1 (fresh claims held.0) h in
      (claims, user, held, rotated)

  -- A token whose key is absent is never exchanged for new tokens: its claims, if it verifies now, are
  -- those that it has had before.
  pub refresh_of_absent :
      (token : String) (w v : World E) (claims : Claims) (user : Uuid) (tokens : Tokens)
      → E.decode c.jwt_refresh_secret (timestamp w.now) token ≡ ok claims
      → E.parse_uuid claims.sub ≡ some user
      → E.value (refresh_token_key user claims.jti) v.store ≡ none
      → (refresh c token v).0 ≢ ok tokens
  refresh_of_absent token w v claims user tokens d p gone h =
      let (claims', user', (d', p', present)) = refresh-IsHeld token v tokens h in
      let same =
        E.decode-same c.jwt_refresh_secret token (timestamp w.now) (timestamp v.now) claims claims'
          d d' in
      let users : some user ≡ some user' =
        sym p ∙ ap (λ (x : Claims). E.parse_uuid x.sub) same ∙ p' in
      present (
        ap (λ (x : Claims). E.value (refresh_token_key user' x.jti) v.store) (sym same)
        ∙ subst (λ u. E.value (refresh_token_key u claims.jti) v.store ≡ none) (cc users) gone)

  -- A refresh token serves once: when a refresh by it has succeeded, a second one fails in any
  -- state whose keyspace is what the first one left after some time has passed. The life time is
  -- positive and the new id differs from the id of the token, if the token verifies.
  pub refresh_once :
      (token : String) (w v : World E) (tokens later : Tokens) (d : ℕ)
      → 0 < c.jwt_refresh_exp_secs
      → IsFresh token w
      → (refresh c token w).0 ≡ ok tokens
      → v.store ≡ E.advance d (refresh c token w).1.store
      → (refresh c token v).0 ≢ ok later
  refresh_once token w v tokens later d pos fresh h apart =
      let (claims, user, (dec, p, _), (spent, _, _)) = refresh-rotates token w tokens pos fresh h in
      let k = refresh_token_key user claims.jti in
      refresh_of_absent token w v claims user later dec p
        (ap (E.value k) apart ∙ E.value_none-advance k d _ spent)

  -- When the key of a verified token is absent and Redis carries the commands out, the refresh is
  -- refused, no id of the user's session list has a key any more, the list is empty, and the other
  -- refresh tokens, those of other users included, are as they were.
  pub refresh_of_reused :
      (token : String) (w : World E) (claims : Claims) (user u : Uuid) (jti : String)
      → E.decode c.jwt_refresh_secret (timestamp w.now) token ≡ ok claims
      → E.parse_uuid claims.sub ≡ some user
      → E.value (refresh_token_key user claims.jti) w.store ≡ none
      → w.redis_outcomes ≡ []
      → ((refresh c token w).0 ≡ err reuse_error)
        × (E.items (refresh_list user) (refresh c token w).1.store ≡ [])
        × (E.value (refresh_token_key u jti) (refresh c token w).1.store ≡ (
            if nat_eq user u && any (λ j. j == jti) (E.items (refresh_list user) w.store)
            then none
            else E.value (refresh_token_key u jti) w.store))
  unfolding refresh revoke_sessions revoke_all_refresh_tokens
  refresh_of_reused token w claims user u jti d p gone up =
      let jtis = E.items (refresh_list user) w.store in
      let s = delete_tokens E user jtis w.store in
      (
        ground arith,
        ground (arith, E.items-del_list (refresh_list user) (refresh_list user) s),
        ground (
          arith,
          E.value-del_list (refresh_token_key u jti) (refresh_list user) s,
          value-delete_tokens E user u jti jtis w.store,
        ),
      )

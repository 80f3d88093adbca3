-- ===== src/Auth/Issue.antt =====
-- routes/auth.rs, `issue_tokens`: what a pair of tokens stands for.
use flutter_21_client.Prelude.{suc, inl, inr, ◌≡◌, String, arith}
use flutter_21_client.Errors.{ok, Result-cases}
use flutter_21_client.Services.{Services, Uuid, Claims}
use flutter_21_client.World.{World}
use flutter_21_client.Config.{Config}
use flutter_21_client.Jwt.{claims_for, timestamp}
use flutter_21_client.RedisStore.Tokens.{stored_token}
use flutter_21_client.Auth.{Tokens, issue_tokens}

module _ {E : Services} (c : Config E) where
  -- The claims of the refresh token that `issue_tokens` makes next: its id is the second one drawn.
  abbrev pub next_claims : World E → Uuid → Claims
  next_claims w user = claims_for w user c.jwt_refresh_exp_secs (suc w.drawn)

  abbrev pub next_jti : World E → String
  next_jti w = E.show_uuid (E.random_uuid (suc w.drawn))

  -- The refresh token of a successful `issue_tokens` verifies at the time of the call to claims of
  -- the user with the second random id drawn, and the keyspace is the old one with that id stored.
  pub issue_tokens-ok :
      (user : Uuid) (w : World E) (tokens : Tokens)
      → (issue_tokens c user w).0 ≡ ok tokens
      → (E.decode c.jwt_refresh_secret (timestamp w.now) tokens.refresh_token
          ≡ ok (next_claims w user))
        × ((issue_tokens c user w).1.store
            ≡ stored_token E user (next_jti w) c.jwt_refresh_exp_secs w.store)
  unfolding issue_tokens claims_for
  issue_tokens-ok user w tokens h =
      elim (Result-cases (E.encode c.jwt_refresh_secret (next_claims w user))) [
        | inl (t, e) ↦
            ground
              (arith, E.decode-encode c.jwt_refresh_secret (next_claims w user) (timestamp w.now) t)
        | inr (x, e) ↦ ground arith
      ]

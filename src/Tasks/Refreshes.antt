-- ===== src/Tasks/Refreshes.antt =====
-- routes/auth.rs, `refresh` in steps: the look at the token's key and its deletion are two steps.
use flutter_21_client.Prelude.{
  ℕ, suc, String, Bool, true, false, Option, none, some, [], lookup, insert, uuid_eq, nat_eq, ◌≡◌,
  ◌≢◌, refl, ap, ◌∙◌, subst, arith, if◌then◌else◌, lookup-insert,
}
use flutter_21_client.Errors.{ok, err, ApiResult, map_err, unauthorized}
use flutter_21_client.Services.{Services, Uuid, Claims, refresh as refresh_key}
use flutter_21_client.World.{World, lift, or_fail}
use flutter_21_client.Config.{Config}
use flutter_21_client.Jwt.{timestamp, verify_refresh, decode_error, jwt_service}
use flutter_21_client.RedisStore.{is_refresh_token_valid}
use flutter_21_client.Auth.{Tokens, rotate}
use flutter_21_client.Tasks.{Task, finished, call, ◌>>=◌, run}
use flutter_21_client.Tasks.Accounts.{rotate_steps, revoke_sessions_steps, refresh_steps}
use flutter_21_client.Tasks.Requests.{Request, refreshes, Reply, renewed, replies, begin}
use flutter_21_client.Tasks.{Does}
use flutter_21_client.Tasks.Alone.Accounts.{Does-rotate}
use flutter_21_client.Tasks.Alone.Requests.{Does-replies}
use flutter_21_client.Tasks.Pool.{Pool, arrived, ◌⟶*◌}
use flutter_21_client.Tasks.Progress.{advance, advance-Reaches, run-Reaches, path_trans, Reaches}

module _ {E : Services} (c : Config E) where
  verified :
      (token : String) (w : World E) (claims : Claims)
      → E.decode c.jwt_refresh_secret (timestamp w.now) token ≡ ok claims
      → verify_refresh (jwt_service c) token w ≡ (ok claims, w)
  unfolding verify_refresh jwt_service
  verified token w claims d = ap (λ r. (map_err decode_error r, w)) d

  seen_valid :
      (user : Uuid) (jti : String) (w : World E)
      → E.value (refresh_key user jti) w.store ≢ none
      → w.redis_outcomes ≡ []
      → is_refresh_token_valid {E = E} user jti w ≡ (ok true, w)
  unfolding is_refresh_token_valid
  seen_valid user jti w present up = ground (arith, present)

  -- The rest of a refresh after its checks of the token, of its user, and of its key.
  abbrev from_key : Uuid → Claims → Bool → Task E Tokens
  from_key user claims valid =
      if valid then rotate_steps c user claims.jti else revoke_sessions_steps c user

  abbrev from_user : Claims → Uuid → Task E Tokens
  from_user claims user = call (is_refresh_token_valid user claims.jti) >>= from_key user claims

  abbrev from_claims : Claims → Task E Tokens
  from_claims claims =
      call (or_fail (E.parse_uuid claims.sub) (unauthorized "Bad token")) >>= from_user claims

  abbrev from_check : ApiResult Claims → Task E Tokens
  from_check checked =
      call (lift (map_err (λ _. unauthorized "Invalid or expired refresh token") checked))
      >>= from_claims

  -- The part of a refresh up to the look at the key.
  advance-refresh :
      (token : String) (w : World E) (claims : Claims) (user : Uuid)
      → E.decode c.jwt_refresh_secret (timestamp w.now) token ≡ ok claims
      → E.parse_uuid claims.sub ≡ some user
      → E.value (refresh_key user claims.jti) w.store ≢ none
      → w.redis_outcomes ≡ []
      → advance 4 (begin c (refreshes token)) w
        ≡ (replies renewed (rotate_steps c user claims.jti), w)
  unfolding advance begin refresh_steps replies call ◌>>=◌ verify_refresh is_refresh_token_valid
  advance-refresh token w claims user d p present up =
      let user_known : Option Uuid → Task E Tokens =
        λ o. call (or_fail o (unauthorized "Bad token")) >>= from_user claims in
      ap (λ r. advance 3 (replies renewed (from_check r.0)) r.1) (verified token w claims d)
      ∙ (ap (λ o. advance 2 (replies renewed (user_known o)) w) p
          ∙ ap (λ r. (replies renewed (finished r.0 >>= from_key user claims), r.1))
              (seen_valid user claims.jti w present up))

  begin-lookup :
      (r s : Request) (p : Pool E)
      → (lookup p.begun (arrived c s (arrived c r p)).tasks ≡ some (begin c r))
        × (lookup (suc p.begun) (arrived c s (arrived c r p)).tasks ≡ some (begin c s))
  unfolding arrived
  begin-lookup r s p = (
    ground (
      arith,
      lookup-insert p.begun p.begun (begin c r) p.tasks,
      lookup-insert (suc p.begun) p.begun (begin c s) (insert p.begun (begin c r) p.tasks),
    ),
    ground (
      arith,
      lookup-insert (suc p.begun) (suc p.begun) (begin c s) (insert p.begun (begin c r) p.tasks),
    ),
  )

  -- A refresh in progress goes up to its look at the key, and from there to its end.
  looks :
      (token : String) (claims : Claims) (user : Uuid) (i : ℕ) (p : Pool E) (w : World E)
      → E.decode c.jwt_refresh_secret (timestamp w.now) token ≡ ok claims
      → E.parse_uuid claims.sub ≡ some user
      → E.value (refresh_key user claims.jti) w.store ≢ none
      → w.redis_outcomes ≡ []
      → p.server.world ≡ w
      → lookup i p.tasks ≡ some (begin c (refreshes token))
      → Reaches c i (replies renewed (rotate_steps c user claims.jti), w) p
  looks token claims user i p w d u present up same at =
      let t = begin c (refreshes token) in
      subst (λ r. Reaches c i r p)
        (ap (advance 4 t) same ∙ advance-refresh token w claims user d u present up)
        (advance-Reaches c 4 i t p at)

  rotates :
      (user : Uuid) (jti : String) (i : ℕ) (p : Pool E) (w : World E) (a : Tokens)
      → (rotate c user jti w).0 ≡ ok a
      → p.server.world ≡ w
      → lookup i p.tasks ≡ some (replies renewed (rotate_steps c user jti))
      → Reaches c i (finished (ok (renewed a)), (rotate c user jti w).1) p
  unfolding Does
  rotates user jti i p w a good same at =
      let t : Task E Reply = replies renewed (rotate_steps c user jti) in
      let v : World E = (rotate c user jti w).1 in
      let answer_of : ApiResult Tokens → ApiResult Reply × World E = λ r.
        elim r as (λ _. ApiResult Reply × World E) [
          | ok a ↦ (ok (renewed a), v)
          | err e ↦ (err e, v)
        ] in
      subst (λ (r : ApiResult Reply × World E). Reaches c i (finished r.0, r.1) p)
        (ap (run t) same
          ∙ (Does-replies E c renewed _ _ (Does-rotate E c user jti) w ∙ ap answer_of good))
        (run-Reaches c i t p at)

  -- Two refreshes by one token can both be served: when the token verifies for a user whose key for
  -- its id is present, Redis carries the commands out, and tokens can be issued twice in a row, then
  -- two requests with the token can take their steps such that each is answered with new tokens.
  pub refresh_race :
      (token : String) (p : Pool E) (claims : Claims) (user : Uuid) (a b : Tokens)
      → E.decode c.jwt_refresh_secret (timestamp p.server.world.now) token ≡ ok claims
      → E.parse_uuid claims.sub ≡ some user
      → E.value (refresh_key user claims.jti) p.server.world.store ≢ none
      → p.server.world.redis_outcomes ≡ []
      → (rotate c user claims.jti p.server.world).0 ≡ ok a
      → (rotate c user claims.jti (rotate c user claims.jti p.server.world).1).0 ≡ ok b
      → (q : Pool E) × ◌⟶*◌ c (arrived c (refreshes token) (arrived c (refreshes token) p)) q
        × (lookup p.begun q.tasks ≡ some (finished (ok (renewed a))))
        × (lookup (suc p.begun) q.tasks ≡ some (finished (ok (renewed b))))
  unfolding arrived
  refresh_race token p claims user a b d u present up good good' =
      let w : World E = p.server.world in
      let v : World E = (rotate c user claims.jti w).1 in
      let i = p.begun in
      let apart : nat_eq i (suc i) ≡ false = ground arith in
      let apart' : nat_eq (suc i) i ≡ false = ground arith in
      let p₂ : Pool E = arrived c (refreshes token) (arrived c (refreshes token) p) in
      let (first, second) = begin-lookup (refreshes token) (refreshes token) p in
      let (q₁, to₁, (w₁, at₁, others₁)) =
        looks token claims user i p₂ w d u present up refl first in
      let (q₂, to₂, (w₂, at₂, others₂)) =
        looks token claims user (suc i) q₁ w d u present up w₁ (others₁ (suc i) apart ∙ second) in
      let (q₃, to₃, (w₃, at₃, others₃)) =
        rotates user claims.jti i q₂ w a good w₂ (others₂ i apart' ∙ at₁) in
      let (q₄, to₄, (w₄, at₄, others₄)) =
        rotates user claims.jti (suc i) q₃ v b good' w₃ (others₃ (suc i) apart ∙ at₂) in
      (
        q₄,
        path_trans c p₂ q₃ q₄ (path_trans c p₂ q₂ q₃ (path_trans c p₂ q₁ q₂ to₁ to₂) to₃) to₄,
        others₄ i apart' ∙ at₃,
        at₄,
      )

-- ===== src/Tasks/Accounts.antt =====
-- routes/auth.rs and db/redis_store.rs: the handlers as tasks, with every call of the database and of
-- Redis a step of its own.
use flutter_21_client.Prelude.{ℕ, String, not, Option, none, some, if◌then◌else◌}
use flutter_21_client.Errors.{ok, err, ApiResult, map_err, unauthorized, conflict}
use flutter_21_client.Services.{Services, Uuid, Claims, refresh as refresh_key, refresh_list}
use flutter_21_client.World.{lift, or_fail, attempt, redis_command, redis_query}
use flutter_21_client.World.Tables.{public_user}
use flutter_21_client.Config.{Config}
use flutter_21_client.Jwt.{
  jwt_service, generate_access_token, generate_refresh_token, verify_refresh,
}
use flutter_21_client.Database.{
  create_user, find_user_by_identifier, username_exists, email_exists, update_last_seen,
}
use flutter_21_client.RedisStore.{delete_tokens, is_refresh_token_valid, revoke_refresh_token}
use flutter_21_client.Crypto.{hash_password, verify_password}
use flutter_21_client.Auth.{
  RegisterRequest, LoginRequest, LogoutRequest, AuthUser, AuthResponse, Tokens, wants_all,
  validate_registration, reject_if,
}
use flutter_21_client.Tasks.{Task, finished, call, ◌>>=◌, ◌>>◌}

module _ {E : Services} where
  unfoldable pub store_token_steps : Uuid → String → ℕ → Task E (Unit {0})
  store_token_steps user jti exp_secs = do
    call (redis_command (E.set_ex (refresh_key user jti) "1" exp_secs))
    call (redis_command (E.lpush (refresh_list user) jti))
    call (redis_command (E.ltrim (refresh_list user) 9))
    call (redis_command (E.expire (refresh_list user) exp_secs))

  unfoldable pub revoke_all_steps : Uuid → Task E (Unit {0})
  revoke_all_steps user = do
    jtis ← call (redis_query (E.items (refresh_list user)))
    call (redis_command (λ s. E.del_list (refresh_list user) (delete_tokens E user jtis s)))

  abbrev pub ended : {A : Type 0} → A → Task E A
  ended a = finished (ok a)

module _ {E : Services} (c : Config E) where
  unfoldable pub issue_steps : Uuid → Task E Tokens
  issue_steps user = do
    access_token ← call (generate_access_token (jwt_service c) user)
    refresh_token ← call (generate_refresh_token (jwt_service c) user)
    claims ← call (verify_refresh (jwt_service c) refresh_token)
    store_token_steps user claims.jti c.jwt_refresh_exp_secs
    ended (record { access_token = access_token; refresh_token = refresh_token })

  -- `register` from the INSERT on.
  unfoldable pub enter_steps : RegisterRequest → String → Task E AuthResponse
  enter_steps body hash = do
    user ← call (create_user body.username body.email body.display_name hash)
    tokens ← issue_steps user.user_id
    ended (record { user = public_user user; tokens = tokens })

  unfoldable pub register_steps : RegisterRequest → Task E AuthResponse
  register_steps body = do
    call (lift (validate_registration E.regex_is_match body))
    name_taken ← call (username_exists body.username)
    call (reject_if name_taken (conflict "Username already taken"))
    email_taken ← call (email_exists body.email)
    call (reject_if email_taken (conflict "Email already in use"))
    hash ← call (hash_password body.password)
    enter_steps body hash

  unfoldable pub login_steps : LoginRequest → Task E AuthResponse
  login_steps body = do
    found ← call (find_user_by_identifier body.identifier)
    user ← call (or_fail found (unauthorized "Invalid credentials"))
    valid ← call (lift (verify_password E body.password user.password_hash))
    call (reject_if (not valid) (unauthorized "Invalid credentials"))
    tokens ← issue_steps user.user_id
    call (update_last_seen user.user_id)
    ended (record { user = public_user user; tokens = tokens })

  unfoldable pub rotate_steps : Uuid → String → Task E Tokens
  rotate_steps user jti = do call (revoke_refresh_token user jti); issue_steps user

  unfoldable pub revoke_sessions_steps : Uuid → Task E Tokens
  revoke_sessions_steps user = do
    revoke_all_steps user
    finished (err (unauthorized "Refresh token invalid — all sessions revoked for security"))

  unfoldable pub refresh_steps : String → Task E Tokens
  refresh_steps refresh_token = do
    checked ← call (attempt (verify_refresh (jwt_service c) refresh_token))
    claims ← call (lift (map_err (λ _. unauthorized "Invalid or expired refresh token") checked))
    user ← call (or_fail (E.parse_uuid claims.sub) (unauthorized "Bad token"))
    valid ← call (is_refresh_token_valid user claims.jti)
    if valid then rotate_steps user claims.jti else revoke_sessions_steps user

  abbrev pub revoke_if_ok_steps : Uuid → ApiResult Claims → Task E (Unit {0})
  revoke_if_ok_steps user (ok claims) = call (revoke_refresh_token user claims.jti)
  revoke_if_ok_steps user (err e) = ended tt

  abbrev pub revoke_one_steps : Uuid → Option String → Task E (Unit {0})
  revoke_one_steps user none = ended tt
  revoke_one_steps user (some token) = do
    checked ← call (attempt (verify_refresh (jwt_service c) token))
    revoke_if_ok_steps user checked

  unfoldable pub logout_steps : AuthUser → LogoutRequest → Task E String
  logout_steps auth body = do
    (if wants_all body.logout_all
        then revoke_all_steps auth.user_id
        else revoke_one_steps auth.user_id body.refresh_token)
    ended "Logged out successfully"

-- ===== src/Auth.antt =====
-- routes/auth.rs: register, login, refresh, logout and me.
-- `Config` carries the secrets and the life times. Log lines and counters are left out.
pub mod Issue
pub mod Rotation
pub mod Registration
pub mod Logout
use Prim.Native.String.{len}
use flutter_21_client.Prelude.{
  ℕ, String, Bool, true, false, ◌||◌, not, Option, none, some, ltb, nat_eq, if◌then◌else◌, ◌==◌,
  text_eq,
}
use flutter_21_client.Errors.{
  Result, ok, err, AppError, unauthorized, bad_request, conflict, not_found, crypto, ApiResult,
  map_err,
}
use flutter_21_client.Services.{Services, Uuid, Claims}
use flutter_21_client.World.{World, M, pure, fail, lift, or_fail, attempt, ◌>>=◌, ◌>>◌, draw}
use flutter_21_client.World.Tables.{User, PublicUser, public_user}
use flutter_21_client.Crypto.{hash_password, verify_password}
use flutter_21_client.Config.{Config}
use flutter_21_client.Jwt.{
  jwt_service, generate_access_token, generate_refresh_token, verify_access, verify_refresh,
}
use flutter_21_client.Database.{
  create_user, find_user_by_identifier, find_user_by_id, user_is_active, username_exists,
  email_exists, update_last_seen,
}
use flutter_21_client.RedisStore.{
  store_refresh_token, is_refresh_token_valid, revoke_refresh_token, revoke_all_refresh_tokens,
}

pub record RegisterRequest : Type 0 where
  pub username : String
  pub email : String
  pub display_name : String
  pub password : String

pub record LoginRequest : Type 0 where
  pub identifier : String
  pub password : String

pub record LogoutRequest : Type 0 where
  pub refresh_token : Option String
  pub logout_all : Option Bool

-- `RefreshResponse`, and the two tokens of `AuthResponse`.
pub record Tokens : Type 0 where
  pub access_token : String
  pub refresh_token : String

pub record AuthResponse : Type 0 where
  pub user : PublicUser
  pub tokens : Tokens

pub record AuthUser : Type 0 where
  pub user_id : Uuid
  pub display_name : String

abbrev username_re : String
username_re = "^[a-zA-Z0-9_.\\-]{3,30}$"

abbrev email_re : String
email_re = "^\\S+@\\S+\\.\\S+$"

-- The guards of `register`, in their order.
unfoldable pub validate_registration :
    (String → String → Bool) → RegisterRequest → ApiResult (Unit {0})
validate_registration is_match body =
    if not (is_match username_re body.username)
    then err (bad_request "Username: 3-30 chars, only letters/numbers/_.-")
    else if not (is_match email_re body.email)
    then err (bad_request "Invalid email")
    else if ltb (len body.password) 8
    then err (bad_request "Password min 8 chars")
    else if ltb 128 (len body.password)
    then err (bad_request "Password too long")
    else if body.display_name == "" || ltb 50 (len body.display_name)
    then err (bad_request "Display name: 1-50 chars")
    else ok tt

abbrev pub reject_if : {E : Services} → Bool → AppError → M E (Unit {0})
reject_if b e = if b then fail e else pure tt

abbrev pub display_name_of : Option User → String
display_name_of none = ""
display_name_of (some u) = u.display_name

abbrev pub wants_all : Option Bool → Bool
wants_all none = false
wants_all (some b) = b

module _ {E : Services} (c : Config E) where
  unfoldable pub issue_tokens : Uuid → M E Tokens
  unfolding generate_access_token generate_refresh_token verify_refresh store_refresh_token
      jwt_service
  issue_tokens user = do
    access_token ← generate_access_token (jwt_service c) user
    refresh_token ← generate_refresh_token (jwt_service c) user
    claims ← verify_refresh (jwt_service c) refresh_token
    store_refresh_token user claims.jti c.jwt_refresh_exp_secs
    pure (record { access_token = access_token; refresh_token = refresh_token })

  unfoldable pub register : RegisterRequest → M E AuthResponse
  unfolding validate_registration username_exists email_exists hash_password create_user public_user
  register body = do
    lift (validate_registration E.regex_is_match body)
    name_taken ← username_exists body.username
    reject_if name_taken (conflict "Username already taken")
    email_taken ← email_exists body.email
    reject_if email_taken (conflict "Email already in use")
    hash ← hash_password body.password
    user ← create_user body.username body.email body.display_name hash
    tokens ← issue_tokens user.user_id
    pure (record { user = public_user user; tokens = tokens })

  unfoldable pub login : LoginRequest → M E AuthResponse
  unfolding find_user_by_identifier verify_password update_last_seen public_user
  login body = do
    found ← find_user_by_identifier body.identifier
    user ← or_fail found (unauthorized "Invalid credentials")
    valid ← lift (verify_password E body.password user.password_hash)
    reject_if (not valid) (unauthorized "Invalid credentials")
    tokens ← issue_tokens user.user_id
    update_last_seen user.user_id
    pure (record { user = public_user user; tokens = tokens })

  -- The answer to a refresh token that was used or revoked before.
  unfoldable pub revoke_sessions : Uuid → M E Tokens
  unfolding revoke_all_refresh_tokens
  revoke_sessions user = do
    revoke_all_refresh_tokens user
    fail (unauthorized "Refresh token invalid — all sessions revoked for security")

  unfoldable pub rotate : Uuid → String → M E Tokens
  unfolding revoke_refresh_token
  rotate user jti = do revoke_refresh_token user jti; issue_tokens user

  unfoldable pub refresh : String → M E Tokens
  unfolding verify_refresh jwt_service is_refresh_token_valid
  refresh refresh_token = do
    checked ← attempt (verify_refresh (jwt_service c) refresh_token)
    claims ← lift (map_err (λ _. unauthorized "Invalid or expired refresh token") checked)
    user ← or_fail (E.parse_uuid claims.sub) (unauthorized "Bad token")
    valid ← is_refresh_token_valid user claims.jti
    if valid then rotate user claims.jti else revoke_sessions user

  -- A token that does not verify is passed over.
  abbrev pub revoke_if_ok : Uuid → ApiResult Claims → M E (Unit {0})
  revoke_if_ok user (ok claims) = revoke_refresh_token user claims.jti
  revoke_if_ok user (err e) = pure tt

  abbrev pub revoke_one : Uuid → Option String → M E (Unit {0})
  revoke_one user none = pure tt
  revoke_one user (some token) = do
    checked ← attempt (verify_refresh (jwt_service c) token)
    revoke_if_ok user checked

  unfoldable pub logout : AuthUser → LogoutRequest → M E String
  unfolding verify_refresh jwt_service revoke_all_refresh_tokens revoke_refresh_token
  logout auth body = do
    (if wants_all body.logout_all
        then revoke_all_refresh_tokens auth.user_id
        else revoke_one auth.user_id body.refresh_token)
    pure "Logged out successfully"

  unfoldable pub me : AuthUser → M E PublicUser
  unfolding find_user_by_id public_user
  me auth = do
    found ← find_user_by_id auth.user_id
    user ← or_fail found (not_found "User not found")
    pure (public_user user)

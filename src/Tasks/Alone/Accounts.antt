-- ===== src/Tasks/Alone/Accounts.antt =====
-- routes/auth.rs: the handlers in steps, run without a pause, are the handlers of `Auth`.
use flutter_21_client.Prelude.{ℕ, String, none, some, Option}
use flutter_21_client.Errors.{ok, err, ApiResult}
use flutter_21_client.Services.{Services, Uuid, Claims}
use flutter_21_client.Config.{Config}
use flutter_21_client.RedisStore.{store_refresh_token, revoke_all_refresh_tokens}
use flutter_21_client.Auth.{
  RegisterRequest, LoginRequest, LogoutRequest, AuthUser, register, login, refresh, rotate,
  revoke_sessions, issue_tokens, logout, revoke_one, revoke_if_ok, wants_all,
}
use flutter_21_client.Tasks.{Does, Does-bind, Does-call}
use flutter_21_client.Tasks.Accounts.{
  store_token_steps, revoke_all_steps, issue_steps, enter_steps, register_steps, login_steps,
  rotate_steps, revoke_sessions_steps, refresh_steps, revoke_if_ok_steps, revoke_one_steps,
  logout_steps,
}
use flutter_21_client.Tasks.Alone.{Does-ended, Does-if, Does-next}

module _ (E : Services) where
  Does-store_refresh_token :
      (user : Uuid) (jti : String) (secs : ℕ)
      → Does {E = E} (store_token_steps user jti secs) (store_refresh_token user jti secs)
  unfolding store_token_steps store_refresh_token
  Does-store_refresh_token user jti secs =
      Does-next E _ _ _ λ _. Does-next E _ _ _ λ _. Does-next E _ _ _ λ _. Does-call _

  Does-revoke_all :
      (user : Uuid) → Does {E = E} (revoke_all_steps user) (revoke_all_refresh_tokens user)
  unfolding revoke_all_steps revoke_all_refresh_tokens
  Does-revoke_all user = Does-next E _ _ _ λ jtis. Does-call _

  module _ (c : Config E) where
    pub Does-issue_tokens : (user : Uuid) → Does (issue_steps c user) (issue_tokens c user)
    unfolding issue_steps issue_tokens
    Does-issue_tokens user = Does-next E _ _ _ λ access. Does-next E _ _ _ λ token.
        Does-next E _ _ _ λ claims.
          Does-bind _ _ _ _ (Does-store_refresh_token user claims.jti c.jwt_refresh_exp_secs)
            λ _. Does-ended E (ok _)

    pub Does-register : (body : RegisterRequest) → Does (register_steps c body) (register c body)
    unfolding register_steps register enter_steps
    Does-register body = Does-next E _ _ _ λ _. Does-next E _ _ _ λ taken. Does-next E _ _ _ λ _.
        Does-next E _ _ _ λ used. Does-next E _ _ _ λ _. Does-next E _ _ _ λ hash.
          Does-next E _ _ _
            λ user. Does-bind _ _ _ _ (Does-issue_tokens user.user_id) λ tokens. Does-ended E (ok _)

    pub Does-login : (body : LoginRequest) → Does (login_steps c body) (login c body)
    unfolding login_steps login
    Does-login body = Does-next E _ _ _ λ found. Does-next E _ _ _ λ user.
        Does-next E _ _ _ λ valid. Does-next E _ _ _ λ _.
          Does-bind _ _ _ _ (Does-issue_tokens user.user_id)
            λ tokens. Does-next E _ _ _ λ _. Does-ended E (ok _)

    pub Does-rotate :
        (user : Uuid) (jti : String) → Does (rotate_steps c user jti) (rotate c user jti)
    unfolding rotate_steps rotate
    Does-rotate user jti = Does-next E _ _ _ λ _. Does-issue_tokens user

    Does-revoke_sessions :
        (user : Uuid) → Does (revoke_sessions_steps c user) (revoke_sessions c user)
    unfolding revoke_sessions_steps revoke_sessions
    Does-revoke_sessions user = Does-bind _ _ _ _ (Does-revoke_all user) λ _. Does-ended E (err _)

    pub Does-refresh : (token : String) → Does (refresh_steps c token) (refresh c token)
    unfolding refresh_steps refresh
    Does-refresh token = Does-next E _ _ _ λ checked. Does-next E _ _ _ λ claims.
        Does-next E _ _ _ λ user.
          Does-next E _ _ _ λ valid.
            Does-if E valid _ _ _ _ (Does-rotate user claims.jti) (Does-revoke_sessions user)

    Does-revoke_if_ok :
        (user : Uuid) (r : ApiResult Claims)
        → Does (revoke_if_ok_steps c user r) (revoke_if_ok c user r)
    Does-revoke_if_ok user (ok claims) = Does-call _
    Does-revoke_if_ok user (err e) = Does-ended E (ok tt)

    Does-revoke_one :
        (user : Uuid) (token : Option String)
        → Does (revoke_one_steps c user token) (revoke_one c user token)
    Does-revoke_one user none = Does-ended E (ok tt)
    Does-revoke_one user (some token) = Does-next E _ _ _ λ checked. Does-revoke_if_ok user checked

    pub Does-logout :
        (auth : AuthUser) (body : LogoutRequest)
        → Does (logout_steps c auth body) (logout c auth body)
    unfolding logout_steps logout
    Does-logout auth body =
        Does-bind _ _ _ _
          (Does-if E (wants_all body.logout_all) _ _ _ _ (Does-revoke_all auth.user_id)
            (Does-revoke_one auth.user_id body.refresh_token))
          λ _. Does-ended E (ok _)

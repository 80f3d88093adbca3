-- ===== src/Tasks/Steady/Accounts.antt =====
-- routes/auth.rs: no step of an account task breaks what every statement of the server keeps.
use flutter_21_client.Prelude.{ℕ, String, not, Option, none, some, uuid_eq}
use flutter_21_client.Errors.{ok, err, ApiResult, unauthorized, conflict}
use flutter_21_client.Services.{Services, Uuid, Claims}
use flutter_21_client.World.Keeps.{
  Keeps-command, Keeps-redis_query, Keeps-lift, Keeps-or_fail, Keeps-attempt,
}
use flutter_21_client.Config.{Config}
use flutter_21_client.Jwt.{
  jwt_service, verify_refresh, verify, generate_access_token, generate_refresh_token,
}
use flutter_21_client.Crypto.{verify_password}
use flutter_21_client.Auth.{RegisterRequest, LoginRequest, LogoutRequest, AuthUser, wants_all}
use flutter_21_client.System.Stable.{
  Keeps-reject_if, Keeps-hash_password, Keeps-create_user, Keeps-update_last_seen,
}
use flutter_21_client.System.Accounts.{
  Keeps-find_user_by_identifier, Keeps-username_exists, Keeps-email_exists, Keeps-sign,
  Keeps-verify, Keeps-is_refresh_token_valid, Keeps-revoke_refresh_token,
}
use flutter_21_client.Tasks.Accounts.{
  store_token_steps, revoke_all_steps, issue_steps, enter_steps, register_steps, login_steps,
  rotate_steps, revoke_sessions_steps, refresh_steps, revoke_if_ok_steps, revoke_one_steps,
  logout_steps,
}
use flutter_21_client.Tasks.Steady.{
  Steady, Steady-bind, Steady-call, Steady-next, Steady-if, Steady-finished,
}

module _ (E : Services) where
  Steady-store_token :
      (user : Uuid) (jti : String) (secs : ℕ) → Steady {E = E} (store_token_steps user jti secs)
  unfolding store_token_steps
  Steady-store_token user jti secs =
      Steady-next _ _ (λ P s. Keeps-command E P _)
        λ _.
          Steady-next _ _ (λ P s. Keeps-command E P _)
            λ _.
              Steady-next _ _ (λ P s. Keeps-command E P _)
                λ _. Steady-call _ (λ P s. Keeps-command E P _)

  Steady-revoke_all : (user : Uuid) → Steady {E = E} (revoke_all_steps user)
  unfolding revoke_all_steps
  Steady-revoke_all user =
      Steady-next _ _ (λ P s. Keeps-redis_query E P _)
        λ jtis. Steady-call _ (λ P s. Keeps-command E P _)

  module _ (c : Config E) where
    Steady-issue : (user : Uuid) → Steady (issue_steps c user)
    unfolding issue_steps generate_access_token generate_refresh_token verify_refresh verify
        jwt_service
    Steady-issue user =
        Steady-next _ _ (λ P s. Keeps-sign E P c.jwt_access_secret user c.jwt_access_exp_secs)
          λ _.
            Steady-next _ _ (λ P s. Keeps-sign E P c.jwt_refresh_secret user c.jwt_refresh_exp_secs)
              λ token.
                Steady-next _ _ (λ P s. Keeps-verify E P token c.jwt_refresh_secret)
                  λ claims.
                    Steady-bind _ _ (Steady-store_token user claims.jti c.jwt_refresh_exp_secs)
                      λ _. Steady-finished E (ok _)

    Steady-enter : (body : RegisterRequest) (hash : String) → Steady (enter_steps c body hash)
    unfolding enter_steps
    Steady-enter body hash =
        Steady-next _ _
          (λ P s. Keeps-create_user E P s body.username body.email body.display_name hash)
          λ user. Steady-bind _ _ (Steady-issue user.user_id) λ _. Steady-finished E (ok _)

    pub Steady-register : (body : RegisterRequest) → Steady (register_steps c body)
    unfolding register_steps
    Steady-register body =
        Steady-next _ _ (λ P s. Keeps-lift E P _)
          λ _.
            Steady-next _ _ (λ P s. Keeps-username_exists E P body.username)
              λ taken.
                Steady-next _ _
                  (λ P s. Keeps-reject_if E P taken (conflict "Username already taken"))
                  λ _.
                    Steady-next _ _ (λ P s. Keeps-email_exists E P body.email)
                      λ used.
                        Steady-next _ _
                          (λ P s. Keeps-reject_if E P used (conflict "Email already in use"))
                          λ _.
                            Steady-next _ _ (λ P s. Keeps-hash_password E P body.password)
                              λ hash. Steady-enter body hash

    pub Steady-login : (body : LoginRequest) → Steady (login_steps c body)
    unfolding login_steps
    Steady-login body =
        Steady-next _ _ (λ P s. Keeps-find_user_by_identifier E P body.identifier)
          λ found.
            Steady-next _ _ (λ P s. Keeps-or_fail E P found (unauthorized "Invalid credentials"))
              λ user.
                Steady-next _ _
                  (λ P s. Keeps-lift E P (verify_password E body.password user.password_hash))
                  λ valid.
                    Steady-next _ _
                      (λ P s. Keeps-reject_if E P (not valid) (unauthorized "Invalid credentials"))
                      λ _. Steady-bind _ _ (Steady-issue user.user_id) λ tokens.
                        Steady-next _ _ (λ P s. Keeps-update_last_seen E P s user.user_id)
                          λ _. Steady-finished E (ok _)

    Steady-rotate : (user : Uuid) (jti : String) → Steady (rotate_steps c user jti)
    unfolding rotate_steps
    Steady-rotate user jti =
        Steady-next _ _ (λ P s. Keeps-revoke_refresh_token E P user jti) λ _. Steady-issue user

    Steady-revoke_sessions : (user : Uuid) → Steady (revoke_sessions_steps c user)
    unfolding revoke_sessions_steps
    Steady-revoke_sessions user =
        Steady-bind _ _ (Steady-revoke_all user) λ _. Steady-finished E (err _)

    pub Steady-refresh : (token : String) → Steady (refresh_steps c token)
    unfolding refresh_steps verify_refresh verify jwt_service
    Steady-refresh token =
        Steady-next _ _ (λ P s. Keeps-attempt E P _ (Keeps-verify E P token c.jwt_refresh_secret))
          λ checked.
            Steady-next _ _ (λ P s. Keeps-lift E P _)
              λ claims.
                Steady-next _ _
                  (λ P s. Keeps-or_fail E P (E.parse_uuid claims.sub) (unauthorized "Bad token"))
                  λ user.
                    Steady-next _ _ (λ P s. Keeps-is_refresh_token_valid E P user claims.jti)
                      λ valid.
                        Steady-if valid _ _ (Steady-rotate user claims.jti)
                          (Steady-revoke_sessions user)

    Steady-revoke_if_ok :
        (user : Uuid) (r : ApiResult Claims) → Steady (revoke_if_ok_steps c user r)
    Steady-revoke_if_ok user (ok claims) =
        Steady-call _ (λ P s. Keeps-revoke_refresh_token E P user claims.jti)
    Steady-revoke_if_ok user (err e) = Steady-finished E (ok tt)

    Steady-revoke_one :
        (user : Uuid) (token : Option String) → Steady (revoke_one_steps c user token)
    unfolding verify_refresh verify jwt_service
    Steady-revoke_one user none = Steady-finished E (ok tt)
    Steady-revoke_one user (some token) =
        Steady-next _ _ (λ P s. Keeps-attempt E P _ (Keeps-verify E P token c.jwt_refresh_secret))
          λ checked. Steady-revoke_if_ok user checked

    pub Steady-logout : (auth : AuthUser) (body : LogoutRequest) → Steady (logout_steps c auth body)
    unfolding logout_steps
    Steady-logout auth body =
        Steady-bind _ _
          (Steady-if (wants_all body.logout_all) _ _ (Steady-revoke_all auth.user_id)
            (Steady-revoke_one auth.user_id body.refresh_token))
          λ _. Steady-finished E (ok _)

-- ===== src/System/Accounts.antt =====
-- routes/auth.rs, routes/mod.rs and auth/middleware.rs keep what every statement keeps.
use Prim.Native.String.{len}
use flutter_21_client.Prelude.{arith, ltb, ℕ, String, Bool, not, Option, none, some}
use flutter_21_client.Errors.{
  ok, err, ApiResult, map_err, unauthorized, conflict, not_found, bad_request,
}
use flutter_21_client.Services.{Services, Uuid, Claims, refresh_list, refresh as refresh_key}
use flutter_21_client.World.{M, pure, ◌>>=◌}
use flutter_21_client.World.Keeps.{
  Keeps, Keeps-bind, Keeps-command, Keeps-redis_query, Keeps-lift, Keeps-draw, Keeps-read,
  Keeps-or_fail, Keeps-attempt,
}
use flutter_21_client.World.Tables.{public_user}
use flutter_21_client.Config.{Config}
use flutter_21_client.Jwt.{jwt_service, sign, claims_for, verify, verify_refresh}
use flutter_21_client.Database.{
  create_user, find_user_by_id, find_user_by_identifier, user_is_active, username_exists,
  email_exists, find_room, search_users,
}
use flutter_21_client.RedisStore.{
  store_refresh_token, is_refresh_token_valid, revoke_refresh_token, revoke_all_refresh_tokens,
  delete_tokens, exists,
}
use flutter_21_client.Auth.{
  AuthUser, AuthResponse, RegisterRequest, LoginRequest, LogoutRequest, register, login, refresh,
  rotate, revoke_sessions, revoke_one, revoke_if_ok, wants_all, logout, me, issue_tokens,
  validate_registration,
}
use flutter_21_client.Crypto.{hash_password, verify_password}
use flutter_21_client.Middleware.{require_auth}
use flutter_21_client.Routes
use flutter_21_client.Auth.Rotation.{reuse_error}
use flutter_21_client.System.Stable.{
  Property, Stable, Keeps-reject_if, Keeps-if, Keeps-hash_password, Keeps-create_user,
  Keeps-create_room, Keeps-update_last_seen,
}

module _ (E : Services) (P : Property) where
  abbrev K : {A : Type 0} → M E A → Type 0
  K m = Keeps {E = E} P m

  pub Keeps-find_user_by_id : (u : Uuid) → K (find_user_by_id u)
  unfolding find_user_by_id Keeps
  Keeps-find_user_by_id u w p = ground arith

  pub Keeps-find_user_by_identifier : (t : String) → K (find_user_by_identifier t)
  unfolding find_user_by_identifier Keeps
  Keeps-find_user_by_identifier t w p = ground arith

  pub Keeps-user_is_active : (u : Uuid) → K (user_is_active u)
  unfolding user_is_active Keeps
  Keeps-user_is_active u w p = ground arith

  pub Keeps-username_exists : (t : String) → K (username_exists t)
  unfolding username_exists Keeps
  Keeps-username_exists t w p = ground arith

  pub Keeps-email_exists : (t : String) → K (email_exists t)
  unfolding email_exists Keeps
  Keeps-email_exists t w p = ground arith

  pub Keeps-find_room : (u : Uuid) → K (find_room u)
  unfolding find_room Keeps
  Keeps-find_room u w p = ground arith

  pub Keeps-search_users :
      (like : String → String → Bool) (q : String) (u : Uuid) → K (search_users like q u)
  unfolding search_users Keeps
  Keeps-search_users like q u w p = ground arith

  pub Keeps-sign : (key : String) (user : Uuid) (secs : ℕ) → K (sign key user secs)
  unfolding sign
  Keeps-sign key user secs = Keeps-bind P _ _ (Keeps-draw E P) λ n.
      Keeps-bind P _ _ (Keeps-read E P (λ w. claims_for w user secs n))
        λ claims. Keeps-lift E P (map_err unauthorized (E.encode key claims))

  pub Keeps-verify : (token key : String) → K (verify token key)
  unfolding verify Keeps
  Keeps-verify token key w p = p

  Keeps-store_refresh_token : (u : Uuid) (jti : String) (t : ℕ) → K (store_refresh_token u jti t)
  unfolding store_refresh_token
  Keeps-store_refresh_token u jti t =
      Keeps-bind P _ _ (Keeps-command E P (E.set_ex (refresh_key u jti) "1" t)) λ _.
        Keeps-bind P _ _ (Keeps-command E P (E.lpush (refresh_list u) jti)) λ _.
          Keeps-bind P _ _ (Keeps-command E P (E.ltrim (refresh_list u) 9))
            λ _. Keeps-command E P (E.expire (refresh_list u) t)

  pub Keeps-is_refresh_token_valid : (u : Uuid) (jti : String) → K (is_refresh_token_valid u jti)
  unfolding is_refresh_token_valid
  Keeps-is_refresh_token_valid u jti = Keeps-redis_query E P (exists E (refresh_key u jti))

  pub Keeps-revoke_refresh_token : (u : Uuid) (jti : String) → K (revoke_refresh_token u jti)
  unfolding revoke_refresh_token
  Keeps-revoke_refresh_token u jti = Keeps-command E P (E.del (refresh_key u jti))

  Keeps-revoke_all : (u : Uuid) → K (revoke_all_refresh_tokens u)
  unfolding revoke_all_refresh_tokens
  Keeps-revoke_all u =
      Keeps-bind P _ _ (Keeps-redis_query E P (E.items (refresh_list u)))
        λ jtis. Keeps-command E P (λ s. E.del_list (refresh_list u) (delete_tokens E u jtis s))

  pub Keeps-require_auth : (c : Config E) (bearer : Option String) → K (require_auth c bearer)
  unfolding require_auth
  Keeps-require_auth c bearer =
      Keeps-bind P _ _ (Keeps-or_fail E P bearer (unauthorized "No Bearer token")) λ token.
        Keeps-bind P _ _ (Keeps-verify token c.jwt_access_secret) λ claims.
          Keeps-bind P _ _
            (Keeps-or_fail E P (E.parse_uuid claims.sub) (unauthorized "Invalid user ID in token"))
            λ user. Keeps-bind P _ _ (Keeps-user_is_active user) λ active.
              Keeps-bind P _ _
                (Keeps-reject_if E P (not active) (unauthorized "User not found or deactivated"))
                λ _. Keeps-bind P _ _ (Keeps-find_user_by_id user) λ found. Keeps-lift E P (ok _)

  module _ (c : Config E) where
    pub Keeps-issue_tokens : (u : Uuid) → K (issue_tokens c u)
    unfolding issue_tokens
    Keeps-issue_tokens u =
        Keeps-bind P _ _ (Keeps-sign c.jwt_access_secret u c.jwt_access_exp_secs) λ access.
          Keeps-bind P _ _ (Keeps-sign c.jwt_refresh_secret u c.jwt_refresh_exp_secs) λ token.
            Keeps-bind P _ _ (Keeps-verify token c.jwt_refresh_secret) λ claims.
              Keeps-bind P _ _ (Keeps-store_refresh_token u claims.jti c.jwt_refresh_exp_secs)
                λ _. Keeps-lift E P (ok _)

    Keeps-rotate : (u : Uuid) (jti : String) → K (rotate c u jti)
    unfolding rotate
    Keeps-rotate u jti =
        Keeps-bind P _ _ (Keeps-revoke_refresh_token u jti) λ _. Keeps-issue_tokens u

    Keeps-revoke_sessions : (u : Uuid) → K (revoke_sessions c u)
    unfolding revoke_sessions
    Keeps-revoke_sessions u =
        Keeps-bind P _ _ (Keeps-revoke_all u) λ _. Keeps-lift E P (err reuse_error)

    pub Keeps-refresh : (token : String) → K (refresh c token)
    unfolding refresh
    Keeps-refresh token =
        Keeps-bind P _ _ (Keeps-attempt E P _ (Keeps-verify token c.jwt_refresh_secret)) λ checked.
          Keeps-bind P _ _
            (Keeps-lift E P
              (map_err (λ _. unauthorized "Invalid or expired refresh token") checked))
            λ claims.
              Keeps-bind P _ _
                (Keeps-or_fail E P (E.parse_uuid claims.sub) (unauthorized "Bad token"))
                λ user. Keeps-bind P _ _ (Keeps-is_refresh_token_valid user claims.jti) λ valid.
                  Keeps-if E P valid _ _ (Keeps-rotate user claims.jti) (Keeps-revoke_sessions user)

    pub Keeps-login : Stable P → (body : LoginRequest) → K (login c body)
    unfolding login
    Keeps-login stable body =
        Keeps-bind P _ _ (Keeps-find_user_by_identifier body.identifier) λ found.
          Keeps-bind P _ _ (Keeps-or_fail E P found (unauthorized "Invalid credentials")) λ user.
            Keeps-bind P _ _ (Keeps-lift E P (verify_password E body.password user.password_hash))
              λ valid.
                Keeps-bind P _ _
                  (Keeps-reject_if E P (not valid) (unauthorized "Invalid credentials"))
                  λ _. Keeps-bind P _ _ (Keeps-issue_tokens user.user_id) λ tokens.
                    Keeps-bind P _ _ (Keeps-update_last_seen E P stable user.user_id)
                      λ _. Keeps-lift E P (ok _)

    -- The rest of `register` after its checks.
    Keeps-registered :
        Stable P
        → (body : RegisterRequest)
        → K (do
          hash ← hash_password body.password
          user ← create_user body.username body.email body.display_name hash
          tokens ← issue_tokens c user.user_id
          pure {A = AuthResponse} (record { user = public_user user; tokens = tokens }))
    Keeps-registered stable body = Keeps-bind P _ _ (Keeps-hash_password E P body.password) λ hash.
        Keeps-bind P _ _
          (Keeps-create_user E P stable body.username body.email body.display_name hash)
          λ user. Keeps-bind P _ _ (Keeps-issue_tokens user.user_id) λ tokens. Keeps-lift E P (ok _)

    pub Keeps-register : Stable P → (body : RegisterRequest) → K (register c body)
    unfolding register
    Keeps-register stable body =
        Keeps-bind P _ _ (Keeps-lift E P (validate_registration E.regex_is_match body)) λ _.
          Keeps-bind P _ _ (Keeps-username_exists body.username) λ taken.
            Keeps-bind P _ _ (Keeps-reject_if E P taken (conflict "Username already taken")) λ _.
              Keeps-bind P _ _ (Keeps-email_exists body.email) λ used.
                Keeps-bind P _ _ (Keeps-reject_if E P used (conflict "Email already in use"))
                  λ _. Keeps-registered stable body

    Keeps-revoke_if_ok : (u : Uuid) (r : ApiResult Claims) → K (revoke_if_ok c u r)
    Keeps-revoke_if_ok u (ok claims) = Keeps-revoke_refresh_token u claims.jti
    Keeps-revoke_if_ok u (err e) = Keeps-lift E P (ok tt)

    Keeps-revoke_one : (u : Uuid) (t : Option String) → K (revoke_one c u t)
    unfolding verify_refresh verify jwt_service
    Keeps-revoke_one u none = Keeps-lift E P (ok tt)
    Keeps-revoke_one u (some token) =
        Keeps-bind P _ _ (Keeps-attempt E P _ (Keeps-verify token c.jwt_refresh_secret))
          λ checked. Keeps-revoke_if_ok u checked

    pub Keeps-logout : (auth : AuthUser) (body : LogoutRequest) → K (logout c auth body)
    unfolding logout
    Keeps-logout auth body =
        Keeps-bind P _ _
          (Keeps-if E P (wants_all body.logout_all) _ _ (Keeps-revoke_all auth.user_id)
            (Keeps-revoke_one auth.user_id body.refresh_token))
          λ _. Keeps-lift E P (ok "Logged out successfully")

    pub Keeps-me : (auth : AuthUser) → K (me c auth)
    unfolding me
    Keeps-me auth = Keeps-bind P _ _ (Keeps-find_user_by_id auth.user_id) λ found.
        Keeps-bind P _ _ (Keeps-or_fail E P found (not_found "User not found"))
          λ user. Keeps-lift E P (ok _)

  pub Keeps-get_user : (u : Uuid) → K (Routes.get_user u)
  unfolding Routes.get_user
  Keeps-get_user u = Keeps-bind P _ _ (Keeps-find_user_by_id u) λ found.
      Keeps-bind P _ _ (Keeps-or_fail E P found (not_found "User not found"))
        λ user. Keeps-lift E P (ok _)

  pub Keeps-search : (auth : AuthUser) (q : String) → K (Routes.search_users auth q)
  unfolding Routes.search_users
  Keeps-search auth q =
      Keeps-bind P _ _
        (Keeps-reject_if E P (ltb (len q) 2) (bad_request "Query must be at least 2 chars"))
        λ _.
          Keeps-bind P _ _ (Keeps-search_users E.ilike q auth.user_id)
            λ users. Keeps-lift E P (ok _)

  pub Keeps-new_room : Stable P → (c : Config E) (auth : AuthUser) → K (Routes.create_room c auth)
  unfolding Routes.create_room
  Keeps-new_room stable c auth =
      Keeps-bind P _ _ (Keeps-create_room E P stable auth.user_id) λ room. Keeps-lift E P (ok _)

  pub Keeps-get_room : (u : Uuid) → K (Routes.get_room u)
  unfolding Routes.get_room
  Keeps-get_room u = Keeps-bind P _ _ (Keeps-find_room u) λ found.
      Keeps-bind P _ _ (Keeps-or_fail E P found (not_found "Room not found or expired")) λ room.
        Keeps-bind P _ _ (Keeps-find_user_by_id room.created_by) λ creator. Keeps-lift E P (ok _)

-- ===== src/Middleware.antt =====
-- auth/middleware.rs: who a request acts for.
use Prim.Native.Char.{code}
use Prim.Native.String.{String, [], ◌∷◌}
use flutter_21_client.Prelude.{not, Option, none, some, nat_eq, if◌then◌else◌}
use flutter_21_client.Errors.{unauthorized}
use flutter_21_client.Services.{Services}
use flutter_21_client.World.{M, pure, or_fail, ◌>>=◌, ◌>>◌}
use flutter_21_client.Config.{Config}
use flutter_21_client.Jwt.{jwt_service, verify_access}
use flutter_21_client.Database.{user_is_active, find_user_by_id}
use flutter_21_client.Auth.{AuthUser, reject_if, display_name_of}

-- `str::strip_prefix`
abbrev pub strip_prefix : String → String → Option String
strip_prefix [] s = some s
strip_prefix (p ∷ ps) [] = none
strip_prefix (p ∷ ps) (c ∷ s) = if nat_eq (code p) (code c) then strip_prefix ps s else none

-- The headers of a request whose values are visible ASCII, by their names in lower case.
abbrev pub Headers : Type 0
Headers = String → Option String

unfoldable pub extract_bearer : Headers → Option String
extract_bearer headers = elim (headers "authorization") [
  | none ↦ none
  | some value ↦ strip_prefix "Bearer " value
]

module _ {E : Services} (c : Config E) where
  -- auth/middleware.rs, from the Bearer token, if the header holds one, to the handler's `AuthUser`.
  unfoldable pub require_auth : Option String → M E AuthUser
  unfolding verify_access jwt_service user_is_active find_user_by_id
  require_auth bearer = do
    token ← or_fail bearer (unauthorized "No Bearer token")
    claims ← verify_access (jwt_service c) token
    user ← or_fail (E.parse_uuid claims.sub) (unauthorized "Invalid user ID in token")
    active ← user_is_active user
    reject_if (not active) (unauthorized "User not found or deactivated")
    found ← find_user_by_id user
    pure (record { user_id = user; display_name = display_name_of found })

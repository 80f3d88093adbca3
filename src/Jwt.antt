-- ===== src/Jwt.antt =====
-- auth/jwt.rs: access and refresh tokens. The keys that the jsonwebtoken crate derives from the
-- secrets stand for themselves.
use Prim.Native.String.{◌++◌}
use flutter_21_client.Prelude.{ℕ, ◌+◌, ◌/◌, String}
use flutter_21_client.Errors.{AppError, unauthorized, map_err}
use flutter_21_client.Services.{Services, Uuid, Claims, DecodeError, expired_signature, other_error}
use flutter_21_client.World.{World, M, ◌>>=◌, lift, read, draw}
use flutter_21_client.Config.{Config}

pub record JwtService : Type 0 where
  pub access_key : String
  pub refresh_key : String
  pub access_exp_secs : ℕ
  pub refresh_exp_secs : ℕ

-- `JwtService::new` with the arguments that main.rs gives it.
unfoldable pub jwt_service : {E : Services} → Config E → JwtService
jwt_service c = record {
  access_key = c.jwt_access_secret;
  refresh_key = c.jwt_refresh_secret;
  access_exp_secs = c.jwt_access_exp_secs;
  refresh_exp_secs = c.jwt_refresh_exp_secs;
}

-- `Utc::now().timestamp()`
abbrev pub timestamp : ℕ → ℕ
timestamp millis = millis / 1000

unfoldable pub decode_error : DecodeError → AppError
decode_error expired_signature = unauthorized "TOKEN_EXPIRED"
decode_error (other_error e) = unauthorized ("Invalid token: " ++ e)

module _ {E : Services} where
  -- The claims of a token for the user, with the n-th random id. The life time is one that chrono
  -- takes, less than 2 ^ 63 milliseconds; it panics on a longer one.
  unfoldable pub claims_for : World E → Uuid → ℕ → ℕ → Claims
  claims_for w user exp_secs n = record {
    sub = E.show_uuid user;
    jti = E.show_uuid (E.random_uuid n);
    exp = timestamp w.now + exp_secs;
    iat = timestamp w.now;
    nbf = timestamp w.now;
  }

  unfoldable pub sign : String → Uuid → ℕ → M E String
  unfolding claims_for draw
  sign key user exp_secs = do
    n ← draw
    claims ← read (λ w. claims_for w user exp_secs n)
    lift (map_err unauthorized (E.encode key claims))

  unfoldable pub generate_access_token : JwtService → Uuid → M E String
  unfolding sign
  generate_access_token j user = sign j.access_key user j.access_exp_secs

  unfoldable pub generate_refresh_token : JwtService → Uuid → M E String
  unfolding sign
  generate_refresh_token j user = sign j.refresh_key user j.refresh_exp_secs

  unfoldable pub verify : String → String → M E Claims
  unfolding decode_error
  verify token key w = (map_err decode_error (E.decode key (timestamp w.now) token), w)

  unfoldable pub verify_access : JwtService → String → M E Claims
  unfolding verify
  verify_access j token = verify token j.access_key

  unfoldable pub verify_refresh : JwtService → String → M E Claims
  unfolding verify
  verify_refresh j token = verify token j.refresh_key

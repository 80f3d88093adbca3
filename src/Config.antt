-- ===== src/Config.antt =====
-- config.rs: the settings, and their reading from the environment. The two JWT secrets are kept as the
-- texts whose bytes they are; an `anyhow` error is its display text.
pub mod Startup
use flutter_21_client.Services.{Services}
use Prim.Native.Char.{code}
use Prim.Native.String.{String, [], ◌∷◌, ◌++◌}
use flutter_21_client.Prelude.{
  into_first, no_texts, texts_cut, ℕ, Option, none, some, List, map, nat_eq, if◌then◌else◌,
}
use flutter_21_client.Errors.{Result, ok, err}

pub record Config (E : Services) : Type 0 where
  pub port : ℕ
  pub database_url : String
  pub redis_url : String
  pub jwt_access_secret : String
  pub jwt_refresh_secret : String
  pub jwt_access_exp_secs : ℕ
  pub jwt_refresh_exp_secs : ℕ
  pub signaling_secret : E.Bytes
  pub app_base_url : String
  pub allowed_origins : List String
  pub auth_rate_per_minute : ℕ
  pub api_rate_per_minute : ℕ
  pub turn_urls : Option String
  pub turn_username : Option String
  pub turn_credential : Option String

-- `split(',')`
abbrev pub split_commas : String → List String
split_commas [] = texts_cut no_texts
split_commas (c ∷ s) =
    if nat_eq (code c) b','
    then texts_cut (split_commas s)
    else into_first (c ∷ []) (split_commas s)

-- The variables of the process with those of a `.env` file.
abbrev pub Environment : Type 0
Environment = String → Option String

infixl 5 ◌>>=◌
abbrev pub ◌>>=◌ : {A B : Type 0} → Result A String → (A → Result B String) → Result B String
◌>>=◌ (ok a) f = f a
◌>>=◌ (err e) f = err e

abbrev pub required : Environment → String → String → Result String String
required env name context = elim (env name) [ some v ↦ ok v | none ↦ err context ]

abbrev pub var_or : Environment → String → String → String
var_or env name default = elim (env name) [ some v ↦ v | none ↦ default ]

abbrev pub context : {A : Type 0} → String → Result A String → Result A String
context text (ok a) = ok a
context text (err e) = err text

module _ (E : Services) where
  abbrev pub parse : ℕ → String → Result ℕ String
  parse bits text = elim (E.parse_unsigned bits text) [
    | some n ↦ ok n
    | none ↦ err "invalid number"
  ]

  abbrev pub ensure_length : E.Bytes → Result E.Bytes String
  ensure_length secret =
      if nat_eq (E.byte_length secret) 32
      then ok secret
      else err "SIGNALING_SECRET must be 32 bytes (64 hex chars)"

  unfoldable pub from_env : Environment → Result (Config E) String
  from_env env = do
    access ← required env "JWT_ACCESS_SECRET" "JWT_ACCESS_SECRET not set"
    refresh ← required env "JWT_REFRESH_SECRET" "JWT_REFRESH_SECRET not set"
    hex ←
        required env "SIGNALING_SECRET" "SIGNALING_SECRET not set (generate: openssl rand -hex 32)"
    decoded ← context "SIGNALING_SECRET must be 64-char hex string" (E.hex_decode hex)
    secret ← ensure_length decoded
    port ← parse 16 (var_or env "PORT" "3000")
    database ← required env "DATABASE_URL" "DATABASE_URL not set"
    access_exp ← parse 64 (var_or env "JWT_ACCESS_EXP_SECS" "900")
    refresh_exp ← parse 64 (var_or env "JWT_REFRESH_EXP_SECS" "2592000")
    auth_rate ← parse 32 (var_or env "AUTH_RATE_PER_MINUTE" "10")
    api_rate ← parse 32 (var_or env "API_RATE_PER_MINUTE" "120")
    ok (record {
      port = port;
      database_url = database;
      redis_url = var_or env "REDIS_URL" "redis://127.0.0.1:6379";
      jwt_access_secret = access;
      jwt_refresh_secret = refresh;
      jwt_access_exp_secs = access_exp;
      jwt_refresh_exp_secs = refresh_exp;
      signaling_secret = secret;
      app_base_url = var_or env "APP_BASE_URL" "https://yourapp.com";
      allowed_origins =
          map E.trim (split_commas (var_or env "ALLOWED_ORIGINS" "http://localhost:3000"));
      auth_rate_per_minute = auth_rate;
      api_rate_per_minute = api_rate;
      turn_urls = env "TURN_URLS";
      turn_username = env "TURN_USERNAME";
      turn_credential = env "TURN_CREDENTIAL";
    })

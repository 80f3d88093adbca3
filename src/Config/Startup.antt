-- ===== src/Config/Startup.antt =====
-- config.rs and main.rs: settings that `from_env` accepts can be used as they are.
use Prim.Native.Nat.{◌^◌}
use flutter_21_client.Prelude.{String, ◌<◌, ◌≡◌, arith, some, Option-cases, inl, inr}
use flutter_21_client.Errors.{ok}
use flutter_21_client.Services.{Services}
use flutter_21_client.Crypto.{returns, signaling_key}
use flutter_21_client.Config.{Config, Environment, from_env, var_or}

module _ (E : Services) where
  -- In settings that `from_env` reads, the signalling secret becomes a key without a panic and is
  -- what the variable's hex text says, the port has 16 bits and the life times have 64, and the other
  -- secrets and the address of the database are those of the environment.
  pub from_env-ok :
      (env : Environment) (c : Config E)
      → from_env E env ≡ ok c
      → (signaling_key E c.signaling_secret ≡ returns c.signaling_secret)
        × ((hex : String) × (env "SIGNALING_SECRET" ≡ some hex)
            × (E.hex_decode hex ≡ ok c.signaling_secret))
        × (c.port < 2 ^ 16)
        × (c.jwt_access_exp_secs < 2 ^ 64)
        × (c.jwt_refresh_exp_secs < 2 ^ 64)
        × (env "JWT_ACCESS_SECRET" ≡ some c.jwt_access_secret)
        × (env "JWT_REFRESH_SECRET" ≡ some c.jwt_refresh_secret)
        × (env "DATABASE_URL" ≡ some c.database_url)
  unfolding from_env signaling_key
  from_env-ok env c h = elim (Option-cases (env "SIGNALING_SECRET")) [
    | inl missing ↦ absurd (ground arith)
    | inr (hex, given) ↦ (
      ground arith,
      (hex, given, ground arith),
      ground (arith, E.parse_unsigned-lt 16 (var_or env "PORT" "3000") c.port),
      ground (
        arith,
        E.parse_unsigned-lt 64 (var_or env "JWT_ACCESS_EXP_SECS" "900") c.jwt_access_exp_secs,
      ),
      ground (
        arith,
        E.parse_unsigned-lt 64 (var_or env "JWT_REFRESH_EXP_SECS" "2592000") c.jwt_refresh_exp_secs,
      ),
      ground arith,
      ground arith,
      ground arith,
    )
  ]

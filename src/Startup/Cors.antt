-- ===== src/Startup/Cors.antt =====
-- main.rs, `main`: the CORS layer stops it.
use flutter_21_client.Prelude.{true, false, List, [], ◌∷◌, ◌≡◌, refl}
use flutter_21_client.Errors.{ok}
use flutter_21_client.Services.{Services}
use flutter_21_client.Config.{Config, Environment, from_env}
use flutter_21_client.Crypto.{returns, signaling_key}
use flutter_21_client.Startup.{
  Platform, Action, installed_recorder, described, descriptions, install, connected_database,
  migrated, connected_manager, connected_pubsub, subscribed, spawned_subscriber, crashes, ◌>>=◌,
  any_header, CorsLayer, cors_layer, all_values, new_redis_store, start_hub, connect_pool,
  take_cors, listen, start_with, start, settled, demand, attempt, expect, unpanicked,
}

module _ (E : Services) (H : Platform) where
  -- The calls before the listener's succeed.
  abbrev pub IsPrepared : Config E → H.Recorder → Type 0
  IsPrepared c recorder =
      (H.install_recorder ≡ ok recorder)
      × (H.connect_database c.database_url ≡ ok tt)
      × (H.execute_migrations ≡ ok tt)
      × (H.open_redis c.redis_url ≡ ok tt)
      × (H.connect_manager c.redis_url ≡ ok tt)
      × (H.connect_pubsub c.redis_url ≡ ok tt)
      × (H.subscribe "signaling:messages" ≡ ok tt)
      × (signaling_key E c.signaling_secret ≡ returns c.signaling_secret)
      × (all_values H.is_header_value c.allowed_origins ≡ true)

  -- The plan without its last action.
  abbrev pub unheard : Config E → List Action
  unheard c =
      installed_recorder
      ∷ described descriptions
      ∷ connected_database c.database_url
      ∷ migrated
      ∷ connected_manager c.redis_url
      ∷ connected_pubsub c.redis_url
      ∷ subscribed "signaling:messages"
      ∷ spawned_subscriber
      ∷ []

  -- When the routers refuse every CORS layer that allows credentials together with any header, as
  -- tower-http documents, `main` panics at this point: with settings that could be read and calls
  -- that succeed, it has run the migrations and listens to the hub's channel, and never listens on
  -- its port.
  pub start-panics :
      (env : Environment) (c : Config E) (recorder : H.Recorder)
      → ((layer : CorsLayer)
          → layer.allow_credentials ≡ true
          → layer.allow_headers ≡ any_header
          → H.takes_layer layer ≡ false)
      → from_env E env ≡ ok c
      → IsPrepared c recorder
      → start E H env [] ≡ (crashes "Invalid CORS configuration", unheard c)
  unfolding start start_with install connect_pool new_redis_store start_hub take_cors listen ◌>>=◌
      attempt expect settled demand unpanicked
  start-panics env c recorder documented read (a1, a2, a3, a4, a5, a6, a7, a8, a9) =
      let refused = documented (cors_layer c.allowed_origins) refl refl in
      rw (read, a1, a2, a3, a4, a5, a6, a7, a8, a9, refused) refl

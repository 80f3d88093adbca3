-- ===== src/Startup.antt =====
-- main.rs, `main` up to the server that listens, with metrics/mod.rs and the constructors of the
-- parts. `Platform` is what the crates and the machine answer to the calls of `main`; an error of
-- those is its text. Log lines are left out.
pub mod Ready
pub mod Cors
use flutter_21_client.Prelude.{
  ℕ, String, Bool, true, Option, none, some, List, [], ◌∷◌, ◌++◌, ◌&&◌, if◌then◌else◌,
}
use flutter_21_client.Errors.{Result, ok, err}
use flutter_21_client.Services.{Services, Uuid}
use flutter_21_client.World.{WsTx}
use flutter_21_client.Config.{Config, Environment, from_env}
use flutter_21_client.Crypto.{Run, returns, panics, signaling_key}
use flutter_21_client.Jwt.{JwtService, jwt_service}

-- `tower_http::cors::Any`, or named headers.
pub data AllowHeaders : Type 0 where
  any_header : AllowHeaders
  these_headers : List String → AllowHeaders

pub record CorsLayer : Type 0 where
  pub allow_origin : List String
  pub allow_methods : List String
  pub allow_headers : AllowHeaders
  pub allow_credentials : Bool

pub record Platform : Type 1 where
  -- The handle of the metrics' recorder, and the text that it renders.
  pub Recorder : Type 0
  pub install_recorder : Result Recorder String
  pub render : Recorder → String
  pub connect_database : String → Result (Unit {0}) String
  pub execute_migrations : Result (Unit {0}) String
  -- `Client::open`, `ConnectionManager::new` and `get_async_pubsub`.
  pub open_redis : String → Result (Unit {0}) String
  pub connect_manager : String → Result (Unit {0}) String
  pub connect_pubsub : String → Result (Unit {0}) String
  pub subscribe : String → Result (Unit {0}) String
  -- A text that is a header's value.
  pub is_header_value : String → Bool
  -- Whether a router takes the layer without a panic.
  pub takes_layer : CorsLayer → Bool
  -- The port of all addresses, parsed, and a listener on it.
  pub parse_address : ℕ → Result (Unit {0}) String
  pub bind : ℕ → Result (Unit {0}) String

-- metrics/mod.rs: a metric with its name and its text.
pub data Metric : Type 0 where
  counter gauge : String → String → Metric

-- What `main` has done to the world outside.
pub data Action : Type 0 where
  installed_recorder : Action
  described : List Metric → Action
  connected_database : String → Action
  migrated : Action
  connected_manager connected_pubsub : String → Action
  subscribed : String → Action
  spawned_subscriber : Action
  listening : ℕ → Action

pub data Exit (A : Type 0) : Type 0 where
  goes : A → Exit A
  fails crashes : String → Exit A

-- A part of `main`, on what was done before, oldest first.
abbrev pub Boot : Type 0 → Type 0
Boot A = List Action → Exit A × List Action

abbrev pub pure : {A : Type 0} → A → Boot A
pure a done = (goes a, done)

abbrev pub continue_with :
    {A B : Type 0} → (A → Boot B) → Exit A × List Action → Exit B × List Action
continue_with f (goes a, done) = f a done
continue_with f (fails e, done) = (fails e, done)
continue_with f (crashes e, done) = (crashes e, done)

infixl 5 ◌>>=◌ ◌>>◌
unfoldable pub ◌>>=◌ : {A B : Type 0} → Boot A → (A → Boot B) → Boot B
◌>>=◌ m f done = continue_with f (m done)

abbrev pub ◌>>◌ : {B : Type 0} → Boot (Unit {0}) → Boot B → Boot B
m >> k = m >>= λ _. k

-- A call with `?`, and what it has done.
unfoldable pub attempt : {A : Type 0} → Action → Result A String → Boot A
attempt a (ok x) done = (goes x, done ++ (a ∷ []))
attempt a (err e) done = (fails e, done)

-- `expect`, of a call that does something.
unfoldable pub expect : {A : Type 0} → Action → String → Result A String → Boot A
expect a text (ok x) done = (goes x, done ++ (a ∷ []))
expect a text (err e) done = (crashes text, done)

-- `?` on a value.
unfoldable pub settled : {A : Type 0} → Result A String → Boot A
settled (ok x) done = (goes x, done)
settled (err e) done = (fails e, done)

-- `expect` and `unwrap` on a value, and an assertion of a crate.
unfoldable pub demand : Bool → String → Boot (Unit {0})
demand b text = if b then pure tt else λ done. (crashes text, done)

unfoldable pub unpanicked : {A : Type 0} → Run A → String → Boot A
unpanicked (returns x) text done = (goes x, done)
unpanicked panics text done = (crashes text, done)

-- signaling/hub.rs; `redis` is the URL that the connection was made for.
pub record SignalingHub : Type 0 where
  pub connections : List (Uuid × WsTx)
  pub redis : String
  pub channel : String

abbrev pub new_hub : String → SignalingHub
new_hub redis = record { connections = []; redis = redis; channel = "signaling:messages" }

-- The handles that requests share. The database and Redis stand as the URLs that they were opened for.
pub record AppState (E : Services) : Type 0 where
  pub db : String
  pub redis : String
  pub jwt : JwtService
  pub hub : SignalingHub
  pub crypto : E.Bytes
  pub config : Config E

-- What `main` has when it serves: the state, and what `PROMETHEUS` holds.
pub record Launched (E : Services) (Recorder : Type 0) : Type 0 where
  pub state : AppState E
  pub prometheus : Option Recorder

abbrev pub cors_layer : List String → CorsLayer
cors_layer origins = record {
  allow_origin = origins;
  allow_methods = "GET" ∷ "POST" ∷ "DELETE" ∷ "OPTIONS" ∷ [];
  allow_headers = any_header;
  allow_credentials = true;
}

abbrev pub all_values : (String → Bool) → List String → Bool
all_values test [] = true
all_values test (o ∷ os) = test o && all_values test os

abbrev pub descriptions : List Metric
descriptions =
    counter "auth.register.success" "Successful registrations"
    ∷ counter "auth.login.success" "Successful logins"
    ∷ counter "auth.login.failed" "Failed login attempts"
    ∷ counter "auth.refresh.reuse_detected" "Refresh token reuse attacks detected"
    ∷ counter "calls.initiated" "Calls initiated"
    ∷ counter "calls.ended" "Calls ended"
    ∷ counter "ws.auth.success" "WebSocket connections authenticated"
    ∷ gauge "ws.connected_clients" "Currently connected WebSocket clients"
    ∷ counter "http.requests" "HTTP requests"
    ∷ []

-- metrics/mod.rs: the status and the text of the answer.
unfoldable pub metrics_handler :
    {Recorder : Type 0} → (Recorder → String) → Option Recorder → ℕ × String
metrics_handler render (some handle) = (200, render handle)
metrics_handler render none = (500, "Metrics recorder not initialised")

module _ (H : Platform) where
  -- metrics/mod.rs; `PROMETHEUS` is set to the handle that it answers.
  unfoldable pub install : Boot H.Recorder
  install = do
    handle ← expect installed_recorder "Failed to install Prometheus recorder" H.install_recorder
    attempt (described descriptions) (ok tt)
    pure handle

  -- `RedisStore::new`; the store is its connection.
  unfoldable pub new_redis_store : String → Boot String
  new_redis_store url = do
    settled (H.open_redis url)
    attempt (connected_manager url) (H.connect_manager url)
    pure url

  -- The connection for the published messages, and the hub that listens on it.
  unfoldable pub start_hub : String → String → Boot SignalingHub
  start_hub url redis = do
    settled (H.open_redis url)
    attempt (connected_pubsub url) (H.connect_pubsub url)
    attempt (subscribed (new_hub redis).channel) (H.subscribe (new_hub redis).channel)
    attempt spawned_subscriber (ok tt)
    pure (new_hub redis)

  unfoldable pub connect_pool : String → Boot String
  connect_pool url = do
    attempt (connected_database url) (H.connect_database url)
    attempt migrated H.execute_migrations
    pure url

module _ (E : Services) (H : Platform) where
  -- The origins become header values, and the routers take the layer.
  unfoldable pub take_cors : Config E → Boot (Unit {0})
  take_cors config = do
    demand (all_values H.is_header_value config.allowed_origins) "an origin is no header value"
    demand (H.takes_layer (cors_layer config.allowed_origins)) "Invalid CORS configuration"

  unfoldable pub listen : Config E → Boot (Unit {0})
  listen config = do
    settled (H.parse_address config.port)
    attempt (listening config.port) (H.bind config.port)

  -- `main` from the metrics on.
  unfoldable pub start_with : Config E → Boot (Launched E H.Recorder)
  start_with config = do
    recorder ← install H
    pool ← connect_pool H config.database_url
    redis ← new_redis_store H config.redis_url
    hub ← start_hub H config.redis_url redis
    key ← unpanicked (signaling_key E config.signaling_secret) "Signaling secret must be 32 bytes"
    take_cors config
    listen config
    pure (record {
      state = record {
        db = pool;
        redis = redis;
        jwt = jwt_service config;
        hub = hub;
        crypto = key;
        config = config;
      };
      prometheus = some recorder;
    })

  unfoldable pub start : Environment → Boot (Launched E H.Recorder)
  start env = do config ← settled (from_env E env); start_with config

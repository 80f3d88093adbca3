-- ===== src/Witness/StartupCases.antt =====
-- A start of the server, on machines whose calls succeed or where Redis refuses one.
use flutter_21_client.Prelude.{String, Bool, true, false, ◌≡◌, refl, [], not, ◌&&◌}
use flutter_21_client.Errors.{ok, err}
use flutter_21_client.Startup.{
  Platform, CorsLayer, AllowHeaders, any_header, these_headers, crashes, start,
}
use flutter_21_client.Startup.Ready.{take_while, goes_through, plan, Panics, start-order}
use flutter_21_client.Startup.Cors.{IsPrepared, unheard, start-panics}
use flutter_21_client.Witness.Setting.{small}
use flutter_21_client.Witness.RouteCases.{variables, read_settings, variables_read}

abbrev machine : (CorsLayer → Bool) → Platform
machine takes_layer = record {
  Recorder = Unit;
  install_recorder = ok tt;
  render = λ _. "metrics";
  connect_database = λ _. ok tt;
  execute_migrations = ok tt;
  open_redis = λ _. ok tt;
  connect_manager = λ _. ok tt;
  connect_pubsub = λ _. ok tt;
  subscribe = λ _. ok tt;
  is_header_value = λ _. true;
  takes_layer = takes_layer;
  parse_address = λ _. ok tt;
  bind = λ _. ok tt;
}

abbrev is_any : AllowHeaders → Bool
is_any any_header = true
is_any (these_headers names) = false

-- The rule of tower-http.
abbrev strict : Platform
strict = machine (λ layer. not (layer.allow_credentials && is_any layer.allow_headers))

refuses :
    (layer : CorsLayer)
    → layer.allow_credentials ≡ true
    → layer.allow_headers ≡ any_header
    → strict.takes_layer layer ≡ false
refuses layer credentials headers = rw (credentials, headers) refl

prepared :
    (takes_layer : CorsLayer → Bool) → IsPrepared small (machine takes_layer) read_settings tt
unfolding flutter_21_client.Crypto.signaling_key
prepared takes_layer = (refl, refl, refl, refl, refl, refl, refl, refl, refl)

start-panics_example :
    start small strict variables []
    ≡ (crashes "Invalid CORS configuration", unheard small strict read_settings)
start-panics_example =
    start-panics small strict variables read_settings tt refuses variables_read
      (prepared strict.takes_layer)

-- Redis refuses the connection for the published messages.
abbrev unsubscribed : Platform
unsubscribed = record strict { connect_pubsub = λ _. err "refused" }

start-order_example :
    ((start small unsubscribed variables []).1
      ≡ take_while
          (goes_through small unsubscribed read_settings)
          (plan small unsubscribed read_settings))
    × ((text : String)
        → (start small unsubscribed variables []).0 ≡ crashes text
        → Panics small unsubscribed read_settings)
start-order_example = start-order small unsubscribed variables read_settings variables_read

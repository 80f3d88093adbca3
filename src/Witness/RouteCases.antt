-- ===== src/Witness/RouteCases.antt =====
-- Settings, routes, lists and calls.
use flutter_21_client.Prelude.{
  String, ◌&&◌, ◌≡◌, ◌<◌, refl, none, some, Option, List, [], ◌∷◌, arith, uuid_eq, any, ◌==◌,
  text_eq, if◌then◌else◌, find,
}
use Prim.Native.Nat.{◌^◌}
use Prim.Native.String.{◌++◌}
use flutter_21_client.Errors.{ok}
use flutter_21_client.Services.{Uuid}
use flutter_21_client.World.Events.{call_incoming}
use flutter_21_client.Auth.{display_name_of}
use flutter_21_client.Config.{Config, Environment, from_env}
use flutter_21_client.Config.Startup.{from_env-ok}
use flutter_21_client.Crypto.{returns, signaling_key, decrypt}
use flutter_21_client.Database.{is_active_user}
use flutter_21_client.Middleware.{Headers}
use flutter_21_client.Api.{removes, serve}
use flutter_21_client.Api.Gate.{HasNoToken, IsRefused}
use flutter_21_client.Api.Paths.{Payload, delete, route}
use flutter_21_client.Api.Private.{api-IsRefused}
use flutter_21_client.Contacts.Statements.{is_contact, user_exists, is_pending_from_to}
use flutter_21_client.Contacts.Listing.{
  ContactEntry, RequestEntry, list_contacts, pending_requests, sent_requests,
}
use flutter_21_client.Contacts.Listed.{lists_contact, lists_request, ShowsPresence, listing}
use flutter_21_client.Signaling.{dispatch_message}
use flutter_21_client.Signaling.Calls.{call_id_of}
use flutter_21_client.Signaling.Delivers.{call-delivers}
use flutter_21_client.World.{World}
use flutter_21_client.Signaling.Socket.{text, close, handle_socket}
use flutter_21_client.Signaling.Ends.{EndsWith, Reads, handle_socket-EndsWith}
use flutter_21_client.Witness.Crates.{marked}
use flutter_21_client.Witness.Documents.{call_message, text as document}
use flutter_21_client.Witness.Setting.{small, settings, start, ann, cleo}
use flutter_21_client.Contacts.Permission.{handle, accepts}
use flutter_21_client.Contacts.Standing.{standing}
use flutter_21_client.Contacts.Refinement.{spec, known_users, valid_links, handle-spec}

abbrev pub secret : String
secret = "0123456789abcdef0123456789abcdef"

abbrev pub variables : Environment
variables name =
    if name == "SIGNALING_SECRET"
    then some (marked secret)
    else if name == "JWT_ACCESS_SECRET"
    then some "access"
    else if name == "JWT_REFRESH_SECRET"
    then some "refresh"
    else if name == "DATABASE_URL"
    then some "postgres"
    else none

abbrev pub read_settings : Config small
read_settings = record {
  port = 3000;
  database_url = "postgres";
  redis_url = "redis://127.0.0.1:6379";
  jwt_access_secret = "access";
  jwt_refresh_secret = "refresh";
  jwt_access_exp_secs = 60;
  jwt_refresh_exp_secs = 60;
  signaling_secret = secret;
  app_base_url = "https://yourapp.com";
  allowed_origins = "http://localhost:3000" ∷ [];
  auth_rate_per_minute = 10;
  api_rate_per_minute = 10;
  turn_urls = none;
  turn_username = none;
  turn_credential = none;
}

pub variables_read : from_env small variables ≡ ok read_settings
unfolding from_env
variables_read = refl

from_env-ok_example :
    (signaling_key small secret ≡ returns secret)
    × ((hex : String) × (variables "SIGNALING_SECRET" ≡ some hex)
        × (small.hex_decode hex ≡ ok secret))
    × (read_settings.port < 2 ^ 16)
    × (read_settings.jwt_access_exp_secs < 2 ^ 64)
    × (read_settings.jwt_refresh_exp_secs < 2 ^ 64)
    × (variables "JWT_ACCESS_SECRET" ≡ some "access")
    × (variables "JWT_REFRESH_SECRET" ≡ some "refresh")
    × (variables "DATABASE_URL" ≡ some "postgres")
from_env-ok_example = from_env-ok small variables read_settings variables_read

abbrev no_headers : Headers
no_headers name = none

nobody : HasNoToken settings no_headers start
unfolding flutter_21_client.Middleware.extract_bearer
nobody token claims h = cc

abbrev no_payload : Payload
no_payload = record {
  register_request = none;
  login_request = none;
  refresh_request = none;
  logout_request = none;
  search_query = none;
  contact_request_body = none;
  accept_body = none;
  block_body = none;
  use_invite_body = none;
}

api-IsRefused_example :
    IsRefused settings no_headers start (serve settings no_headers (removes (some 2)) start)
unfolding route
api-IsRefused_example =
    api-IsRefused small.parse_uuid no_payload settings no_headers start "contacts" ("2" ∷ []) delete
      (removes (some 2)) refl refl nobody

listing_example :
    ((entries : List ContactEntry) × ((list_contacts ann start).0 ≡ ok entries)
      × (lists_contact 2 entries ≡ (is_contact 1 2 start.db && user_exists 2 start.db))
      × ShowsPresence small start.store entries)
    × ((asked : List RequestEntry) × ((pending_requests ann start).0 ≡ ok asked)
        × (lists_request 2 asked
            ≡ (any (is_pending_from_to 2 1) start.db.contacts && user_exists 2 start.db)))
    × ((sent : List RequestEntry) × ((sent_requests ann start).0 ≡ ok sent)
        × (lists_request 2 sent
            ≡ (any (is_pending_from_to 1 2) start.db.contacts && user_exists 2 start.db)))
listing_example = listing ann 2 start refl refl

abbrev sealed_offer : String
sealed_offer = marked "twelve-bytes" ++ (":" ++ marked "sdp")

call-delivers_example :
    ((dispatch_message small settings 1 "call" call_message start).0 ≡ ok tt)
    × ((dispatch_message small settings 1 "call" call_message start).1.sent
        ≡ (
          7,
          call_incoming 1
              (display_name_of (find (is_active_user 1) start.db.users))
              sealed_offer
              (call_id_of small 1 2 start),
        )
          ∷ start.sent)
    × (decrypt small "secret" sealed_offer ≡ returns (ok "sdp"))
unfolding flutter_21_client.Crypto.seal
call-delivers_example =
    call-delivers small settings 1 2 7 call_message (document "sdp") "2" sealed_offer start refl
      refl refl (λ e. omega (arith, e)) refl refl refl refl refl refl

handle_socket-EndsWith_example :
    (last : Option Uuid) × (v : World small) × Reads small settings 8 none
      (text "11" ∷ (close ∷ []))
      start
      last
      v
    × EndsWith small settings 8 none start last v
        (handle_socket small settings 8 none (text "11" ∷ (close ∷ [])) start)
handle_socket-EndsWith_example =
    handle_socket-EndsWith small settings 8 none (text "11" ∷ (close ∷ [])) start

handle-spec_example :
    standing (handle settings cleo (accepts 1) start).1.db 1 3
    ≡ spec (known_users start) (valid_links start) 3 (accepts 1) (standing start.db) 1 3
handle-spec_example = handle-spec cleo start 1 3 settings (accepts 1) refl (refl, (refl, tt))

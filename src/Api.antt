-- ===== src/Api.antt =====
-- main.rs: the routes of the HTTP interface and the handlers behind them. The framework extracts typed
-- arguments from path, query and body: `none` stands for an argument that it could not extract, which
-- it answers itself.
pub mod Paths
pub mod Gate
pub mod Private
use flutter_21_client.Prelude.{String, Option, none, some, List, [], ◌∷◌, ◌++◌}
use flutter_21_client.Errors.{Result, ok, err, AppError, ApiResult}
use flutter_21_client.Services.{Services, Uuid}
use flutter_21_client.World.{World, M, pure, ◌>>=◌}
use flutter_21_client.World.Tables.{PublicUser}
use flutter_21_client.Config.{Config}
use flutter_21_client.Auth.{
  AuthUser, RegisterRequest, LoginRequest, LogoutRequest, AuthResponse, Tokens, register, login,
  refresh, logout, me,
}
use flutter_21_client.Middleware.{Headers, extract_bearer, require_auth}
use flutter_21_client.Routes.{RoomResponse, RoomInfo, get_user, search_users, create_room, get_room}
use flutter_21_client.Contacts.{
  Card, send_request, accept_request, decline_request, remove_contact, block_user,
  get_user_by_handle, generate_invite_link, use_invite_link,
}
use flutter_21_client.Contacts.Listing.{
  ContactEntry, RequestEntry, list_contacts, pending_requests, sent_requests,
}

-- A route with the arguments of its handler.
pub data Endpoint : Type 0 where
  registers : Option RegisterRequest → Endpoint
  logs_in : Option LoginRequest → Endpoint
  refreshes : Option String → Endpoint
  logs_out : Option LogoutRequest → Endpoint
  asks_me : Endpoint
  searches by_handle : Option String → Endpoint
  asks_user : Option Uuid → Endpoint
  creates_room : Endpoint
  asks_room : Option Uuid → Endpoint
  lists lists_pending lists_sent : Endpoint
  sends accepts declines removes blocks : Option Uuid → Endpoint
  invites : Endpoint
  redeems : Option (Uuid × String) → Endpoint
  asks_ice asks_health asks_metrics upgrades : Endpoint

-- An entry of `iceServers`.
pub record IceServer : Type 0 where
  pub urls : String
  pub credentials : Option (String × String)

pub data Answer : Type 0 where
  account : AuthResponse → Answer
  tokens : Tokens → Answer
  message : String → Answer
  user : PublicUser → Answer
  users : List PublicUser → Answer
  handle_card : Card → Answer
  room : RoomResponse → Answer
  room_info : RoomInfo → Answer
  contacts : List ContactEntry → Answer
  requests : List RequestEntry → Answer
  healthy : String → Answer
  ice_servers : List IceServer → Answer

-- What a request comes to: a handler's result, or an answer of the framework alone.
pub data Reply : Type 0 where
  handled : ApiResult Answer → Reply
  by_framework : Reply

abbrev pub turn_server : Option String → Option String → Option String → List IceServer
turn_server (some urls) (some name) (some credential) =
    record { urls = urls; credentials = some (name, credential) } ∷ []
turn_server _ _ _ = []

unfoldable pub ice_config_handler : {E : Services} → Config E → List IceServer
ice_config_handler c =
    record { urls = "stun:stun.l.google.com:19302"; credentials = none }
    ∷ record { urls = "stun:stun1.l.google.com:19302"; credentials = none }
    ∷ turn_server c.turn_urls c.turn_username c.turn_credential

abbrev pub Served : Services → Type 0
Served E = World E → Reply × World E

abbrev pub answered : {A : Type 0} → (A → Answer) → ApiResult A → ApiResult Answer
answered f (ok a) = ok (f a)
answered f (err e) = err e

module _ {E : Services} where
  abbrev pub run : {A : Type 0} → (A → Answer) → M E A → Served E
  run f m w = (handled (answered f (m w).0), (m w).1)

  -- A handler whose argument the framework extracts.
  abbrev pub given : {A : Type 0} → Option A → (A → Served E) → Served E
  given none handler w = (by_framework, w)
  given (some a) handler w = handler a w

  -- The rest of a request after the middleware `require_auth`.
  abbrev pub after_auth : (AuthUser → Served E) → ApiResult AuthUser → Served E
  after_auth handler (ok auth) w = handler auth w
  after_auth handler (err e) w = (handled (err e), w)

  abbrev pub with_user : Config E → Headers → (AuthUser → Served E) → Served E
  with_user c headers handler w =
      let (checked, w') = require_auth c (extract_bearer headers) w in after_auth handler checked w'

  -- The router's handler for each route, with the layer of each route.
  unfoldable pub serve : Config E → Headers → Endpoint → Served E
  unfolding ice_config_handler
  serve c headers (registers body) w = given body (λ b. run account (register c b)) w
  serve c headers (logs_in body) w = given body (λ b. run account (login c b)) w
  serve c headers (refreshes body) w = given body (λ b. run tokens (refresh c b)) w
  serve c headers (logs_out body) w =
      with_user c headers (λ auth. given body (λ b. run message (logout c auth b))) w
  serve c headers asks_me w = with_user c headers (λ auth. run user (me c auth)) w
  serve c headers (searches q) w =
      with_user c headers (λ auth. given q (λ t. run users (search_users auth t))) w
  serve c headers (by_handle handle) w =
      with_user c headers (λ auth. given handle (λ h. run handle_card (get_user_by_handle auth h)))
        w
  serve c headers (asks_user id) w =
      with_user c headers (λ auth. given id (λ u. run user (get_user u))) w
  serve c headers creates_room w = with_user c headers (λ auth. run room (create_room c auth)) w
  serve c headers (asks_room id) w =
      with_user c headers (λ auth. given id (λ r. run room_info (get_room r))) w
  serve c headers lists w = with_user c headers (λ auth. run contacts (list_contacts auth)) w
  serve c headers lists_pending w =
      with_user c headers (λ auth. run requests (pending_requests auth)) w
  serve c headers lists_sent w = with_user c headers (λ auth. run requests (sent_requests auth)) w
  serve c headers (sends target) w =
      with_user c headers (λ auth. given target (λ u. run message (send_request auth u))) w
  serve c headers (accepts requester) w =
      with_user c headers (λ auth. given requester (λ u. run message (accept_request auth u))) w
  serve c headers (declines requester) w =
      with_user c headers (λ auth. given requester (λ u. run message (decline_request auth u))) w
  serve c headers (removes id) w =
      with_user c headers (λ auth. given id (λ u. run message (remove_contact auth u))) w
  serve c headers (blocks id) w =
      with_user c headers (λ auth. given id (λ u. run message (block_user auth u))) w
  serve c headers invites w =
      with_user c headers (λ auth. run message (generate_invite_link c auth)) w
  serve c headers (redeems body) w =
      with_user c headers (λ auth. given body (λ b. run message (use_invite_link auth b.0 b.1))) w
  serve c headers asks_ice w =
      with_user c headers (λ auth. run ice_servers (pure (ice_config_handler c))) w
  serve c headers asks_health w = (handled (ok (healthy (E.to_rfc3339 w.now))), w)
  serve c headers asks_metrics w = (by_framework, w)
  serve c headers upgrades w = (by_framework, w)

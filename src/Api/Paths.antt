-- ===== src/Api/Paths.antt =====
-- main.rs, the router: which route a method and a path have. A path comes as its segments; a segment
-- that is a fixed name of a router wins over a parameter.
use flutter_21_client.Prelude.{
  String, ◌&&◌, Option, none, some, List, [], ◌∷◌, ◌==◌, text_eq, if◌then◌else◌,
}
use flutter_21_client.Services.{Uuid}
use flutter_21_client.Auth.{RegisterRequest, LoginRequest, LogoutRequest}
use flutter_21_client.Api.{
  Endpoint, registers, logs_in, refreshes, logs_out, asks_me, searches, by_handle, asks_user,
  creates_room, asks_room, lists, lists_pending, lists_sent, sends, accepts, declines, removes,
  blocks, invites, redeems, asks_ice, asks_health, asks_metrics, upgrades,
}

pub data Method : Type 0 where
  get head post delete other : Method

-- What serde reads from the query and from the body, for each type that a handler asks for.
pub record Payload : Type 0 where
  pub register_request : Option RegisterRequest
  pub login_request : Option LoginRequest
  pub refresh_request : Option String
  pub logout_request : Option LogoutRequest
  pub search_query : Option String
  pub contact_request_body : Option Uuid
  pub accept_body : Option Uuid
  pub block_body : Option Uuid
  pub use_invite_body : Option (Uuid × String)

-- A route that takes one method; a GET route answers HEAD too, without the body.
abbrev pub on_get : Endpoint → Method → Option Endpoint
on_get e get = some e
on_get e head = some e
on_get e _ = none

abbrev pub on_post : Endpoint → Method → Option Endpoint
on_post e post = some e
on_post e _ = none

abbrev pub on_delete : Endpoint → Method → Option Endpoint
on_delete e delete = some e
on_delete e _ = none

abbrev no_route : Method → Option Endpoint
no_route m = none

unfoldable pub auth_routes : Payload → String → Method → Option Endpoint
auth_routes p s =
    if s == "register"
    then on_post (registers p.register_request)
    else if s == "login"
    then on_post (logs_in p.login_request)
    else if s == "refresh"
    then on_post (refreshes p.refresh_request)
    else if s == "logout"
    then on_post (logs_out p.logout_request)
    else if s == "me"
    then on_get asks_me
    else no_route

unfoldable pub contact_routes : (String → Option Uuid) → Payload → String → Method → Option Endpoint
contact_routes parse p s =
    if s == "pending"
    then on_get lists_pending
    else if s == "sent"
    then on_get lists_sent
    else if s == "request"
    then on_post (sends p.contact_request_body)
    else if s == "accept"
    then on_post (accepts p.accept_body)
    else if s == "decline"
    then on_post (declines p.accept_body)
    else if s == "block"
    then on_post (blocks p.block_body)
    else if s == "invite-link"
    then on_post invites
    else on_delete (removes (parse s))

-- The routers nested under /api, for the path below a router's name.
unfoldable pub nested :
    (String → Option Uuid) → Payload → String → List String → Method → Option Endpoint
unfolding auth_routes contact_routes
nested parse p router (s ∷ []) =
    if router == "auth"
    then auth_routes p s
    else if router == "users"
    then on_get (if s == "search" then searches p.search_query else asks_user (parse s))
    else if router == "rooms"
    then on_get (asks_room (parse s))
    else if router == "contacts"
    then contact_routes parse p s
    else no_route
nested parse p router (s ∷ t ∷ []) =
    if router == "users" && s == "by-handle"
    then on_get (by_handle (some t))
    else if router == "contacts" && (s == "invite" && t == "use")
    then on_post (redeems p.use_invite_body)
    else no_route
nested parse p router [] =
    if router == "rooms"
    then on_post creates_room
    else if router == "contacts"
    then on_get lists
    else if router == "ice-config"
    then on_get asks_ice
    else no_route
nested parse p router _ = no_route

unfoldable pub route : (String → Option Uuid) → Payload → List String → Method → Option Endpoint
unfolding nested
route parse p (s ∷ []) =
    if s == "ws"
    then on_get upgrades
    else if s == "health"
    then on_get asks_health
    else if s == "metrics"
    then on_get asks_metrics
    else no_route
route parse p (s ∷ router ∷ rest) = if s == "api" then nested parse p router rest else no_route
route parse p [] = no_route

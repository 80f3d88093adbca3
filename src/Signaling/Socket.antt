-- ===== src/Signaling/Socket.antt =====
-- signaling/server.rs, `handle_socket`: one WebSocket connection, from its first frame to the cleanup.
-- `tx` is the sending half of the connection's channel.
use flutter_21_client.Prelude.{
  String, Bool, true, false, Option, none, some, List, [], ◌∷◌, ◌==◌, text_eq, if◌then◌else◌,
}
use flutter_21_client.Errors.{ok, err, ApiResult, to_string}
use flutter_21_client.Services.{Services, Uuid, Claims}
use flutter_21_client.World.{World, WsTx}
use flutter_21_client.World.Tables.{User}
use flutter_21_client.World.Events.{error, auth_error, auth_success}
use flutter_21_client.Config.{Config}
use flutter_21_client.Auth.{display_name_of}
use flutter_21_client.Database.{user_is_active, update_last_seen, find_user_by_id}
use flutter_21_client.Hub.{send, register, deregister}
use flutter_21_client.Jwt.{jwt_service, verify_access}
use flutter_21_client.RedisStore.{set_online, set_offline, clear_busy}
use flutter_21_client.Signaling.{dispatch_message}
use flutter_21_client.Signaling.Fields.{text_field}

-- A frame that the socket yields; a read error ends the frames as their end does.
pub data Frame : Type 0 where
  text : String → Frame
  ping close binary pong : Frame

-- Whether the read loop goes on, with the variable `user_id`.
pub data Flow : Type 0 where
  continues breaks : Option Uuid → Flow

-- `.ok().flatten()`
abbrev pub found_user : ApiResult (Option User) → Option User
found_user (ok o) = o
found_user (err e) = none

abbrev pub Round : Services → Type 0
Round E = World E → Flow × World E

module _ (E : Services) (c : Config E) (tx : WsTx) where
  -- The user is known and active.
  unfoldable pub welcome : Uuid → World E → World E
  unfolding register set_online update_last_seen find_user_by_id
  welcome user w =
      let w₁ : World E = register user tx w in
      let w₂ : World E = (set_online user w₁).1 in
      let w₃ : World E = (update_last_seen user w₂).1 in
      let (found, w₄) = find_user_by_id user w₃ in
      send tx (auth_success user (display_name_of (found_user found))) w₄

  abbrev pub admit : Uuid → Option Uuid → ApiResult Bool → Round E
  admit user user_id (ok true) w = (continues (some user), welcome user w)
  admit user user_id (ok false) w = (breaks user_id, send tx (auth_error "User inactive") w)
  admit user user_id (err e) w = (breaks user_id, send tx (auth_error "User inactive") w)

  abbrev pub identify : Option Uuid → Option Uuid → Round E
  identify user_id none w = (breaks user_id, w)
  identify user_id (some user) w =
      let (active, w') = user_is_active user w in admit user user_id active w'

  abbrev pub check_claims : Option Uuid → ApiResult Claims → Round E
  check_claims user_id (ok claims) w = identify user_id (E.parse_uuid claims.sub) w
  check_claims user_id (err e) w = (breaks user_id, send tx (auth_error "Invalid token") w)

  abbrev pub check_token : Option Uuid → Option String → Round E
  check_token user_id none w = (breaks user_id, send tx (auth_error "Missing token") w)
  check_token user_id (some token) w =
      let (checked, w') = verify_access (jwt_service c) token w in check_claims user_id checked w'

  unfoldable pub authenticate : Option Uuid → E.Value → Round E
  unfolding verify_access jwt_service user_is_active
  authenticate user_id parsed w = check_token user_id (text_field E parsed "token") w

  -- The error of a message is told to the client.
  abbrev pub report : ApiResult (Unit {0}) → World E → World E
  report (ok _) w = w
  report (err e) w = send tx (error (to_string e)) w

  unfoldable pub signal : Option Uuid → String → E.Value → World E → World E
  unfolding to_string
  signal none msg_type parsed w = send tx (error "Not authenticated") w
  signal (some user) msg_type parsed w =
      let (result, w') = dispatch_message E c user msg_type parsed w in report result w'

  abbrev pub typed : Option Uuid → E.Value → Option String → Round E
  typed user_id parsed none w = (continues user_id, w)
  typed user_id parsed (some msg_type) w =
      if msg_type == "auth"
      then authenticate user_id parsed w
      else (continues user_id, signal user_id msg_type parsed w)

  abbrev pub parsed_frame : Option Uuid → Option E.Value → Round E
  parsed_frame user_id none w = (continues user_id, send tx (error "Invalid JSON") w)
  parsed_frame user_id (some parsed) w = typed user_id parsed (text_field E parsed "type") w

  -- One round of the read loop.
  unfoldable pub handle_frame : Option Uuid → Frame → Round E
  handle_frame user_id (text t) w = parsed_frame user_id (E.from_str t) w
  handle_frame user_id ping w = (continues user_id, w)
  handle_frame user_id close w = (breaks user_id, w)
  handle_frame user_id binary w = (continues user_id, w)
  handle_frame user_id pong w = (continues user_id, w)

  unfoldable pub cleanup : Option Uuid → World E → World E
  unfolding deregister set_offline clear_busy update_last_seen
  cleanup none w = w
  cleanup (some user) w =
      let w₁ : World E = deregister user w in
      let w₂ : World E = (set_offline user w₁).1 in
      let w₃ : World E = (clear_busy user w₂).1 in (update_last_seen user w₃).1

  unfoldable pub handle_socket : Option Uuid → List Frame → World E → World E
  handle_socket user_id [] w = cleanup user_id w
  handle_socket user_id (f ∷ fs) w =
      let (flow, w') = handle_frame user_id f w in
      elim flow [ continues u ↦ handle_socket u fs w' | breaks u ↦ cleanup u w' ]

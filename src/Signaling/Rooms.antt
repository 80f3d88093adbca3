-- ===== src/Signaling/Rooms.antt =====
-- signaling/server.rs, `dispatch_message`: calls through a room link. The room's host and its last
-- joiner are kept in Redis for a day.
use Prim.Native.String.{◌++◌}
use flutter_21_client.Prelude.{String, Option, none, some, ◌==◌, text_eq, if◌then◌else◌}
use flutter_21_client.Errors.{ok, err, ApiResult, bad_request, not_found, internal}
use flutter_21_client.Services.{Services, Uuid, room_host, room_joiner}
use flutter_21_client.World.{
  M, pure, fail, ignore, attempt, or_fail, redis_command, redis_query, ◌>>=◌, ◌>>◌,
}
use flutter_21_client.World.Events.{
  Event, room_created, room_host_ack, room_joined, room_answered, room_ice as room_ice_event,
}
use flutter_21_client.World.Tables.{Room}
use flutter_21_client.Config.{Config}
use flutter_21_client.Auth.{display_name_of}
use flutter_21_client.Crypto.{encrypt}
use flutter_21_client.Database.{create_room, find_room, find_user_by_id}
use flutter_21_client.Hub.{send_to}
use flutter_21_client.Signaling.Fields.{text_field, require_field, text_or}

-- `.await.ok()`, then `and_then` the parse of a stored text.
abbrev pub parsed_joiner : (E : Services) → ApiResult (Option String) → Option Uuid
parsed_joiner E (ok (some text)) = E.parse_uuid text
parsed_joiner E (ok none) = none
parsed_joiner E (err e) = none

module _ (E : Services) where
  unfoldable pub create : Config E → Uuid → M E (Unit {0})
  create c sender = do
    room ← create_room sender
    send_to sender
        (room_created room.room_id (c.app_base_url ++ ("/join/" ++ E.show_uuid room.room_id)))

  unfoldable pub host : Uuid → E.Value → M E (Unit {0})
  unfolding redis_command
  host sender msg = do
    room ← or_fail (text_field E msg "roomId") (bad_request "Missing roomId")
    send_to sender (room_host_ack room)
    ignore (redis_command {E = E} (E.set_ex (room_host room) (E.show_uuid sender) 86400))

  -- `join-room`, from the sealing of the offer, for a room that was found.
  unfoldable pub let_in : Config E → Uuid → String → Room → E.Value → M E (Unit {0})
  unfolding redis_command
  let_in c sender text room offer = do
    encrypted_offer ← encrypt c.signaling_secret (E.value_text offer)
    joiner ← find_user_by_id sender
    ignore (redis_command {E = E} (E.set_ex (room_joiner text) (E.show_uuid sender) 86400))
    send_to room.created_by (room_joined encrypted_offer sender (display_name_of joiner) text)

  unfoldable pub join : Config E → Uuid → E.Value → M E (Unit {0})
  unfolding require_field
  join c sender msg = do
    text ← or_fail (text_field E msg "roomId") (bad_request "Missing roomId")
    room_id ← or_fail (E.parse_uuid text) (bad_request "Invalid roomId")
    found ← find_room room_id
    room ← or_fail found (not_found "Room not found or expired")
    offer ← require_field E msg "offer"
    let_in c sender text room offer

  -- GET into a `String` fails on an absent key as it does on a lost connection.
  abbrev pub stored_joiner : ApiResult (Option String) → M E String
  stored_joiner (ok (some text)) = pure text
  stored_joiner (ok none) = fail (not_found "Joiner not found for room")
  stored_joiner (err e) = fail (not_found "Joiner not found for room")

  abbrev pub joiner_of : String → Option String → M E Uuid
  joiner_of room (some text) = or_fail (E.parse_uuid text) (bad_request "Invalid joinerId")
  joiner_of room none = do
    found ← attempt (redis_query {E = E} (E.value (room_joiner room)))
    text ← stored_joiner found
    or_fail (E.parse_uuid text) (internal "Invalid stored joiner id")

  unfoldable pub room_answer : Config E → E.Value → M E (Unit {0})
  unfolding require_field redis_query
  room_answer c msg = do
    room ← or_fail (text_field E msg "roomId") (bad_request "Missing roomId")
    reply ← require_field E msg "answer"
    encrypted_answer ← encrypt c.signaling_secret (E.value_text reply)
    joiner ← joiner_of room (text_field E msg "joinerId")
    send_to joiner (room_answered encrypted_answer room)

  abbrev pub send_to_some : Option Uuid → Event → M E (Unit {0})
  send_to_some none e = pure tt
  send_to_some (some target) e = send_to target e

  unfoldable pub room_ice : Config E → Uuid → E.Value → M E (Unit {0})
  unfolding require_field redis_query
  room_ice c sender msg = do
    text ← or_fail (text_field E msg "roomId") (bad_request "Missing roomId")
    room_id ← or_fail (E.parse_uuid text) (bad_request "Invalid roomId")
    let role = text_or (text_field E msg "role") "caller"
    candidate ← require_field E msg "candidate"
    encrypted ← encrypt c.signaling_secret (E.value_text candidate)
    found ← find_room room_id
    room ← or_fail found (not_found "Room not found")
    joiner ← attempt (redis_query {E = E} (E.value (room_joiner text)))
    send_to_some (if role == "caller" then parsed_joiner E joiner else some room.created_by)
        (room_ice_event encrypted sender)

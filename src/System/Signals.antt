-- ===== src/System/Signals.antt =====
-- signaling/server.rs: a message of an authenticated client keeps what every statement keeps.
use Prim.Native.String.{◌++◌}
use flutter_21_client.Prelude.{
  arith, String, nat_eq, Option, none, some, ◌==◌, text_eq, if◌then◌else◌,
}
use flutter_21_client.Errors.{ok, err, ApiResult, bad_request, not_found, internal}
use flutter_21_client.Services.{Services, Uuid, room_host, room_joiner}
use flutter_21_client.World.{M, ◌>>◌}
use flutter_21_client.World.Tables.{Room}
use flutter_21_client.World.Events.{
  Event, call_rejected, user_offline, user_busy, call_incoming, call_answered, ice, call_declined,
  hangup, heartbeat_ack, room_created, room_host_ack, room_joined, room_answered,
  room_ice as room_ice_event,
}
use flutter_21_client.World.Keeps.{
  Keeps, Keeps-bind, Keeps-query, Keeps-command, Keeps-redis_query, Keeps-lift, Keeps-read,
  Keeps-or_fail, Keeps-attempt, Keeps-ignore,
}
use flutter_21_client.Config.{Config}
use flutter_21_client.Auth.{display_name_of}
use flutter_21_client.Contacts.{can_call, ok_or_false}
use flutter_21_client.Contacts.Statements.{is_contact}
use flutter_21_client.Hub.{is_connected}
use flutter_21_client.RedisStore.{set_online, set_busy, clear_busy, is_busy}
use flutter_21_client.Signaling.{dispatch_message, heartbeat}
use flutter_21_client.Signaling.Fields.{text_field, text_or, parse_uuid, require_field}
use flutter_21_client.Signaling.Calls.{
  call_id_of, ring, ring_unless_busy, ring_if_connected, call, answer, ice_candidate, decline,
  hang_up,
}
use flutter_21_client.Signaling.Rooms.{
  create, host, let_in, join, room_answer, room_ice, stored_joiner, joiner_of, send_to_some,
  parsed_joiner,
}
use flutter_21_client.System.Stable.{
  Property, Stable, Keeps-send_to, Keeps-reject_if, Keeps-if, Keeps-encrypt, Keeps-create_room,
}
use flutter_21_client.System.Accounts.{Keeps-find_user_by_id, Keeps-find_room}

module _ (E : Services) (P : Property) where
  abbrev K : {A : Type 0} → M E A → Type 0
  K m = Keeps {E = E} P m

  Keeps-parse_uuid : (msg : E.Value) (field : String) → K (parse_uuid E msg field)
  unfolding parse_uuid
  Keeps-parse_uuid msg field =
      Keeps-bind P _ _
        (Keeps-or_fail E P (text_field E msg field) (bad_request ("Missing field: " ++ field)))
        λ t. Keeps-or_fail E P (E.parse_uuid t) (bad_request ("Invalid UUID in field: " ++ field))

  Keeps-require_field : (msg : E.Value) (field : String) → K (require_field E msg field)
  unfolding require_field
  Keeps-require_field msg field =
      Keeps-or_fail E P (E.get msg field) (bad_request ("Missing field: " ++ field))

  Keeps-can_call : (caller callee : Uuid) → K (can_call caller callee)
  unfolding can_call
  Keeps-can_call caller callee =
      Keeps-bind P _ _ (Keeps-attempt E P _ (Keeps-query E P (is_contact caller callee)))
        λ found. Keeps-lift E P (ok (ok_or_false found))

  pub Keeps-set_online : (user : Uuid) → K (set_online user)
  unfolding Keeps set_online
  Keeps-set_online user w p = ground arith

  Keeps-set_busy : (user : Uuid) (id : String) → K (set_busy user id)
  unfolding Keeps set_busy
  Keeps-set_busy user id w p = ground arith

  pub Keeps-clear_busy : (user : Uuid) → K (clear_busy user)
  unfolding Keeps clear_busy
  Keeps-clear_busy user w p = ground arith

  Keeps-is_busy : (user : Uuid) → K (is_busy user)
  unfolding Keeps is_busy
  Keeps-is_busy user w p = ground arith

  -- Both marks are cleared.
  Keeps-clear : (sender to : Uuid) → K (do clear_busy {E = E} sender; clear_busy {E = E} to)
  Keeps-clear sender to = Keeps-bind P _ _ (Keeps-clear_busy sender) λ _. Keeps-clear_busy to

  Keeps-stored_joiner : (r : ApiResult (Option String)) → K (stored_joiner E r)
  Keeps-stored_joiner (ok (some t)) = Keeps-lift E P (ok t)
  Keeps-stored_joiner (ok none) = Keeps-lift E P (err (not_found "Joiner not found for room"))
  Keeps-stored_joiner (err e) = Keeps-lift E P (err (not_found "Joiner not found for room"))

  Keeps-joiner_of : (room : String) (t : Option String) → K (joiner_of E room t)
  Keeps-joiner_of room (some t) =
      Keeps-or_fail E P (E.parse_uuid t) (bad_request "Invalid joinerId")
  Keeps-joiner_of room none =
      Keeps-bind P _ _ (Keeps-attempt E P _ (Keeps-redis_query E P (E.value (room_joiner room))))
        λ found.
          Keeps-bind P _ _ (Keeps-stored_joiner found)
            λ t. Keeps-or_fail E P (E.parse_uuid t) (internal "Invalid stored joiner id")

  Keeps-send_to_some : (target : Option Uuid) (e : Event) → K (send_to_some E target e)
  Keeps-send_to_some none e = Keeps-lift E P (ok tt)
  Keeps-send_to_some (some target) e = Keeps-send_to E P target e

  module _ (c : Config E) where
    Keeps-ring : (sender to : Uuid) (offer : E.Value) → K (ring E c sender to offer)
    unfolding ring
    Keeps-ring sender to offer = Keeps-bind P _ _ (Keeps-read E P (call_id_of E sender to)) λ id.
        Keeps-bind P _ _ (Keeps-set_busy sender id) λ _.
          Keeps-bind P _ _ (Keeps-set_busy to id) λ _.
            Keeps-bind P _ _ (Keeps-encrypt E P c.signaling_secret (E.value_text offer)) λ sealed.
              Keeps-bind P _ _ (Keeps-find_user_by_id E P sender) λ caller.
                Keeps-send_to E P to (call_incoming sender (display_name_of caller) sealed id)

    Keeps-ring_unless_busy :
        (sender to : Uuid) (offer : E.Value) → K (ring_unless_busy E c sender to offer)
    unfolding ring_unless_busy
    Keeps-ring_unless_busy sender to offer = Keeps-bind P _ _ (Keeps-is_busy to) λ taken.
        Keeps-if E P taken _ _ (Keeps-send_to E P sender (user_busy to))
          (Keeps-ring sender to offer)

    Keeps-ring_if_connected :
        (sender to : Uuid) (offer : E.Value) → K (ring_if_connected E c sender to offer)
    unfolding ring_if_connected
    Keeps-ring_if_connected sender to offer =
        Keeps-bind P _ _ (Keeps-read E P (is_connected to)) λ connected.
          Keeps-if E P connected _ _ (Keeps-ring_unless_busy sender to offer)
            (Keeps-send_to E P sender (user_offline to))

    Keeps-call : (sender : Uuid) (msg : E.Value) → K (call E c sender msg)
    unfolding call
    Keeps-call sender msg = Keeps-bind P _ _ (Keeps-parse_uuid msg "to") λ to.
        Keeps-bind P _ _ (Keeps-require_field msg "offer") λ offer.
          Keeps-bind P _ _
            (Keeps-reject_if E P (nat_eq to sender) (bad_request "Cannot call yourself"))
            λ _. Keeps-bind P _ _ (Keeps-can_call sender to) λ permitted.
              Keeps-if E P permitted _ _ (Keeps-ring_if_connected sender to offer)
                (Keeps-send_to E P sender (call_rejected "not_contacts" to))

    Keeps-answer : (msg : E.Value) → K (answer E c msg)
    unfolding answer
    Keeps-answer msg = Keeps-bind P _ _ (Keeps-parse_uuid msg "to") λ to.
        Keeps-bind P _ _ (Keeps-require_field msg "answer") λ reply.
          Keeps-bind P _ _ (Keeps-encrypt E P c.signaling_secret (E.value_text reply))
            λ sealed. Keeps-send_to E P to (call_answered sealed)

    Keeps-ice_candidate : (sender : Uuid) (msg : E.Value) → K (ice_candidate E c sender msg)
    unfolding ice_candidate
    Keeps-ice_candidate sender msg = Keeps-bind P _ _ (Keeps-parse_uuid msg "to") λ to.
        Keeps-bind P _ _ (Keeps-require_field msg "candidate") λ candidate.
          Keeps-bind P _ _ (Keeps-encrypt E P c.signaling_secret (E.value_text candidate))
            λ sealed. Keeps-send_to E P to (ice sealed sender)

    Keeps-decline : (sender : Uuid) (msg : E.Value) → K (decline E sender msg)
    unfolding decline
    Keeps-decline sender msg = Keeps-bind P _ _ (Keeps-parse_uuid msg "to") λ to.
        Keeps-bind P _ _
          (Keeps-send_to E P to (call_declined (text_or (text_field E msg "reason") "declined")))
          λ _. Keeps-clear sender to

    Keeps-hang_up : (sender : Uuid) (msg : E.Value) → K (hang_up E sender msg)
    unfolding hang_up
    Keeps-hang_up sender msg =
        Keeps-bind P _ _ (Keeps-parse_uuid msg "to")
          λ to. Keeps-bind P _ _ (Keeps-send_to E P to hangup) λ _. Keeps-clear sender to

    Keeps-create : Stable P → (sender : Uuid) → K (create E c sender)
    unfolding create
    Keeps-create s sender = Keeps-bind P _ _ (Keeps-create_room E P s sender) λ room.
        Keeps-send_to E P sender
          (room_created room.room_id (c.app_base_url ++ ("/join/" ++ E.show_uuid room.room_id)))

    Keeps-host : (sender : Uuid) (msg : E.Value) → K (host E sender msg)
    unfolding host
    Keeps-host sender msg =
        Keeps-bind P _ _
          (Keeps-or_fail E P (text_field E msg "roomId") (bad_request "Missing roomId"))
          λ room. Keeps-bind P _ _ (Keeps-send_to E P sender (room_host_ack room)) λ _.
            Keeps-ignore E P _
              (Keeps-command E P (E.set_ex (room_host room) (E.show_uuid sender) 86400))

    Keeps-let_in :
        (sender : Uuid) (t : String) (room : Room) (offer : E.Value)
        → K (let_in E c sender t room offer)
    unfolding let_in
    Keeps-let_in sender t room offer =
        Keeps-bind P _ _ (Keeps-encrypt E P c.signaling_secret (E.value_text offer)) λ sealed.
          Keeps-bind P _ _ (Keeps-find_user_by_id E P sender) λ joiner.
            Keeps-bind P _ _
              (Keeps-ignore E P _
                (Keeps-command E P (E.set_ex (room_joiner t) (E.show_uuid sender) 86400)))
              λ _.
                Keeps-send_to E P room.created_by
                  (room_joined sealed sender (display_name_of joiner) t)

    Keeps-join : (sender : Uuid) (msg : E.Value) → K (join E c sender msg)
    unfolding join
    Keeps-join sender msg =
        Keeps-bind P _ _
          (Keeps-or_fail E P (text_field E msg "roomId") (bad_request "Missing roomId"))
          λ t.
            Keeps-bind P _ _ (Keeps-or_fail E P (E.parse_uuid t) (bad_request "Invalid roomId"))
              λ id. Keeps-bind P _ _ (Keeps-find_room E P id) λ found.
                Keeps-bind P _ _ (Keeps-or_fail E P found (not_found "Room not found or expired"))
                  λ room.
                    Keeps-bind P _ _ (Keeps-require_field msg "offer")
                      λ offer. Keeps-let_in sender t room offer

    Keeps-room_answer : (msg : E.Value) → K (room_answer E c msg)
    unfolding room_answer
    Keeps-room_answer msg =
        Keeps-bind P _ _
          (Keeps-or_fail E P (text_field E msg "roomId") (bad_request "Missing roomId"))
          λ room. Keeps-bind P _ _ (Keeps-require_field msg "answer") λ reply.
            Keeps-bind P _ _ (Keeps-encrypt E P c.signaling_secret (E.value_text reply)) λ sealed.
              Keeps-bind P _ _ (Keeps-joiner_of room (text_field E msg "joinerId"))
                λ joiner. Keeps-send_to E P joiner (room_answered sealed room)

    Keeps-room_ice : (sender : Uuid) (msg : E.Value) → K (room_ice E c sender msg)
    unfolding room_ice
    Keeps-room_ice sender msg =
        Keeps-bind P _ _
          (Keeps-or_fail E P (text_field E msg "roomId") (bad_request "Missing roomId"))
          λ t.
            Keeps-bind P _ _ (Keeps-or_fail E P (E.parse_uuid t) (bad_request "Invalid roomId"))
              λ id. Keeps-bind P _ _ (Keeps-require_field msg "candidate") λ candidate.
                Keeps-bind P _ _ (Keeps-encrypt E P c.signaling_secret (E.value_text candidate))
                  λ sealed. Keeps-bind P _ _ (Keeps-find_room E P id) λ found.
                    Keeps-bind P _ _ (Keeps-or_fail E P found (not_found "Room not found")) λ room.
                      Keeps-bind P _ _
                        (Keeps-attempt E P _ (Keeps-redis_query E P (E.value (room_joiner t))))
                        λ joiner.
                          Keeps-send_to_some
                            (if text_or (text_field E msg "role") "caller" == "caller"
                              then parsed_joiner E joiner
                              else some room.created_by)
                            (room_ice_event sealed sender)

    Keeps-heartbeat : (sender : Uuid) → K (heartbeat E c sender)
    unfolding heartbeat
    Keeps-heartbeat sender =
        Keeps-bind P _ _ (Keeps-ignore E P _ (Keeps-set_online sender))
          λ _. Keeps-send_to E P sender heartbeat_ack

    pub Keeps-dispatch_message :
        Stable P
        → (sender : Uuid) (msg_type : String) (msg : E.Value)
        → K (dispatch_message E c sender msg_type msg)
    unfolding dispatch_message
    Keeps-dispatch_message s sender msg_type msg = Keeps-if E P _ _ _ (Keeps-call sender msg) (
        Keeps-if E P _ _ _ (Keeps-answer msg) (
          Keeps-if E P _ _ _ (Keeps-ice_candidate sender msg) (
            Keeps-if E P _ _ _ (Keeps-decline sender msg) (
              Keeps-if E P _ _ _ (Keeps-hang_up sender msg) (
                Keeps-if E P _ _ _ (Keeps-create s sender) (
                  Keeps-if E P _ _ _ (Keeps-host sender msg) (
                    Keeps-if E P _ _ _ (Keeps-join sender msg) (
                      Keeps-if E P _ _ _ (Keeps-room_answer msg) (
                        Keeps-if E P _ _ _ (Keeps-room_ice sender msg) (
                          Keeps-if E P _ _ _ (Keeps-heartbeat sender)
                            (Keeps-lift E P (ok tt))))))))))))

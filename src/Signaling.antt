-- ===== src/Signaling.antt =====
-- signaling/server.rs: what one message of a WebSocket client makes the server do. Log lines and
-- counters are left out.
pub mod Fields
pub mod Calls
pub mod Rooms
pub mod Socket
pub mod CallGate
pub mod Busy
pub mod Connections
pub mod Sessions
pub mod Stale
pub mod Delivers
pub mod Ends
use flutter_21_client.Prelude.{String, Bool, true, false, ◌==◌, text_eq, if◌then◌else◌}
use flutter_21_client.Services.{Services, Uuid}
use flutter_21_client.World.{M, pure, ignore, ◌>>◌, ◌>>=◌}
use flutter_21_client.World.Events.{heartbeat_ack}
use flutter_21_client.Config.{Config}
use flutter_21_client.RedisStore.{set_online}
use flutter_21_client.Hub.{send_to}
use Calls.{call, answer, ice_candidate, decline, hang_up}
use Rooms.{create, host, join, room_answer, room_ice}

module _ (E : Services) (c : Config E) where
  unfoldable pub heartbeat : Uuid → M E (Unit {0})
  unfolding send_to set_online
  heartbeat sender = do ignore (set_online {E = E} sender); send_to sender heartbeat_ack

  -- The match on the message's type; an unknown type is only logged.
  unfoldable pub dispatch_message : Uuid → String → E.Value → M E (Unit {0})
  dispatch_message sender msg_type msg =
      if msg_type == "call"
      then call E c sender msg
      else if msg_type == "answer"
      then answer E c msg
      else if msg_type == "ice"
      then ice_candidate E c sender msg
      else if msg_type == "decline"
      then decline E sender msg
      else if msg_type == "hangup"
      then hang_up E sender msg
      else if msg_type == "create-room"
      then create E c sender
      else if msg_type == "room-host"
      then host E sender msg
      else if msg_type == "join-room"
      then join E c sender msg
      else if msg_type == "room-answer"
      then room_answer E c msg
      else if msg_type == "room-ice"
      then room_ice E c sender msg
      else if msg_type == "heartbeat"
      then heartbeat sender
      else pure tt

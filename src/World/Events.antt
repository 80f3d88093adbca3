-- ===== src/World/Events.antt =====
-- The JSON documents that the server writes to a WebSocket, one constructor for each shape that a
-- `json!` call of signaling/ and routes/contacts.rs builds. Its text is `to_string` of the document.
use flutter_21_client.Prelude.{ℕ, String, Bool}
use flutter_21_client.Services.{Uuid}

pub data Event : Type 0 where
  session_replaced : Event
  error : (message : String) → Event
  auth_error : (message : String) → Event
  auth_success : (user : Uuid) (display_name : String) → Event
  call_rejected : (reason : String) (target : Uuid) → Event
  user_offline user_busy : (target : Uuid) → Event
  call_incoming : (sender : Uuid) (caller_name offer call_id : String) → Event
  call_answered : (answer : String) → Event
  ice : (candidate : String) (sender : Uuid) → Event
  call_declined : (reason : String) → Event
  hangup : Event
  room_created : (room : Uuid) (link : String) → Event
  room_host_ack : (room : String) → Event
  room_joined : (offer : String) (joiner : Uuid) (joiner_name room : String) → Event
  room_answered : (answer room : String) → Event
  room_ice : (candidate : String) (sender : Uuid) → Event
  heartbeat_ack : Event
  contact_request : (sender : Uuid) (display_name : String) (via_invite_link : Bool) → Event
  contact_accepted : (accepter : Uuid) (display_name : String) → Event
  sfu_error : (room reason : String) → Event
  sfu_peer_joined : (room : String) (peer : Uuid) (display_name : String) → Event
  sfu_joined : (room : String) (peer_count : ℕ) → Event
  sfu_peer_left : (room : String) (peer : Uuid) → Event

-- signaling/hub.rs, `HubMessage`: what travels on the Redis channel. The payload stands for its JSON
-- text, and the message for its own.
pub record HubMessage : Type 0 where
  pub addressee : Uuid
  pub payload : Event

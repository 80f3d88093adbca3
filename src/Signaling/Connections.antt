-- ===== src/Signaling/Connections.antt =====
-- signaling/server.rs, `dispatch_message`: no message changes the table of connections.
use flutter_21_client.Prelude.{
  String, Bool, true, false, ◌≡◌, inl, inr, refl, arith, uuid_eq, if◌then◌else◌, text_eq,
  Option-cases,
}
use flutter_21_client.Services.{Services, Uuid}
use flutter_21_client.World.{World, M, pure}
use flutter_21_client.Config.{Config}
use flutter_21_client.Database.{create_room, find_room, find_user_by_id}
use flutter_21_client.Hub.{send_to}
use flutter_21_client.RedisStore.{set_online, clear_busy, set_busy, is_busy}
use flutter_21_client.Signaling.{dispatch_message, heartbeat}
use flutter_21_client.Contacts.{can_call}
use flutter_21_client.Crypto.{encrypt}
use flutter_21_client.Signaling.Calls.{
  ring, ring_unless_busy, ring_if_connected, call, answer, ice_candidate, decline, hang_up,
}
use flutter_21_client.Signaling.Rooms.{create, host, let_in, join, room_answer, room_ice}
use flutter_21_client.Signaling.Fields.{text_field}

module _ (E : Services) (c : Config E) (sender : Uuid) (msg : E.Value) where
  -- Handling a message leaves the table of connections alone.
  pub KeepsConnections : M E (Unit {0}) → Type 0
  KeepsConnections m = (w : World E) → (m w).1.connections ≡ w.connections

  ring-KeepsConnections :
      (to : Uuid) (offer : E.Value) → KeepsConnections (ring E c sender to offer)
  unfolding KeepsConnections ring encrypt set_busy find_user_by_id send_to
  ring-KeepsConnections to offer w = ground arith

  call-KeepsConnections : KeepsConnections (call E c sender msg)
  unfolding KeepsConnections call ring_if_connected ring_unless_busy can_call is_busy send_to
  call-KeepsConnections w = elim (Option-cases (text_field E msg "to")) [
    | inl missing ↦ ground arith
    | inr (t, given) ↦ elim (Option-cases (E.parse_uuid t)) [
      | inl bad ↦ ground arith
      | inr (to, parsed) ↦ elim (Option-cases (E.get msg "offer")) [
        | inl missing ↦ ground arith
        | inr (offer, found) ↦
            let w₁ : World E = (can_call {E = E} sender to w).1 in
            let w₂ : World E = (is_busy {E = E} to w₁).1 in
            ground (arith, ring-KeepsConnections to offer w₂)
      ]
    ]
  ]

  answer-KeepsConnections : KeepsConnections (answer E c msg)
  unfolding KeepsConnections answer encrypt send_to
  answer-KeepsConnections w = ground arith

  ice_candidate-KeepsConnections : KeepsConnections (ice_candidate E c sender msg)
  unfolding KeepsConnections ice_candidate encrypt send_to
  ice_candidate-KeepsConnections w = ground arith

  decline-KeepsConnections : KeepsConnections (decline E sender msg)
  unfolding KeepsConnections decline clear_busy send_to
  decline-KeepsConnections w = ground arith

  hang_up-KeepsConnections : KeepsConnections (hang_up E sender msg)
  unfolding KeepsConnections hang_up clear_busy send_to
  hang_up-KeepsConnections w = ground arith

  create-KeepsConnections : KeepsConnections (create E c sender)
  unfolding KeepsConnections create create_room send_to
  create-KeepsConnections w = ground arith

  host-KeepsConnections : KeepsConnections (host E sender msg)
  unfolding KeepsConnections host send_to
  host-KeepsConnections w = ground arith

  join-KeepsConnections : KeepsConnections (join E c sender msg)
  unfolding KeepsConnections join let_in encrypt find_room find_user_by_id send_to
  join-KeepsConnections w = ground arith

  room_answer-KeepsConnections : KeepsConnections (room_answer E c msg)
  unfolding KeepsConnections room_answer encrypt send_to
  room_answer-KeepsConnections w = ground arith

  room_ice-KeepsConnections : KeepsConnections (room_ice E c sender msg)
  unfolding KeepsConnections room_ice encrypt find_room send_to
  room_ice-KeepsConnections w = ground arith

  heartbeat-KeepsConnections : KeepsConnections (heartbeat E c sender)
  unfolding KeepsConnections heartbeat set_online send_to
  heartbeat-KeepsConnections w = ground arith

  KeepsConnections-if :
      (b : Bool) (m n : M E (Unit {0}))
      → KeepsConnections m
      → KeepsConnections n
      → KeepsConnections (if b then m else n)
  KeepsConnections-if true m n km kn = km
  KeepsConnections-if false m n km kn = kn

  unknown-KeepsConnections : KeepsConnections (pure tt)
  unfolding KeepsConnections
  unknown-KeepsConnections w = refl

  dispatch-KeepsConnections :
      (msg_type : String) → KeepsConnections (dispatch_message E c sender msg_type msg)
  unfolding dispatch_message
  dispatch-KeepsConnections msg_type = KeepsConnections-if _ _ _ call-KeepsConnections (
      KeepsConnections-if _ _ _ answer-KeepsConnections (
        KeepsConnections-if _ _ _ ice_candidate-KeepsConnections (
          KeepsConnections-if _ _ _ decline-KeepsConnections (
            KeepsConnections-if _ _ _ hang_up-KeepsConnections (
              KeepsConnections-if _ _ _ create-KeepsConnections (
                KeepsConnections-if _ _ _ host-KeepsConnections (
                  KeepsConnections-if _ _ _ join-KeepsConnections (
                    KeepsConnections-if _ _ _ room_answer-KeepsConnections (
                      KeepsConnections-if _ _ _ room_ice-KeepsConnections (
                        KeepsConnections-if _ _ _ heartbeat-KeepsConnections
                          unknown-KeepsConnections))))))))))

  -- No message of an authenticated client, whatever its type and its outcome, changes who is connected
  -- to this instance and by which socket.
  pub connections-dispatch_message :
      (msg_type : String) (w : World E)
      → (dispatch_message E c sender msg_type msg w).1.connections ≡ w.connections
  unfolding KeepsConnections
  connections-dispatch_message msg_type w = dispatch-KeepsConnections msg_type w

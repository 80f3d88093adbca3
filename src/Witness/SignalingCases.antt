-- ===== src/Witness/SignalingCases.antt =====
-- Messages, sockets and the table of connections.
use flutter_21_client.Prelude.{
  String, true, false, ◌≡◌, ◌<◌, refl, none, some, [], ◌∷◌, arith, lookup, uuid_eq,
}
use flutter_21_client.Services.{Uuid}
use flutter_21_client.World.{World}
use flutter_21_client.Hub.{is_connected, send_to}
use flutter_21_client.Signaling.{dispatch_message}
use flutter_21_client.Signaling.Calls.{hang_up, decline}
use flutter_21_client.Signaling.Socket.{
  Frame, text, close, Flow, continues, breaks, handle_frame, handle_socket,
}
use flutter_21_client.Signaling.CallGate.{rings, Permits, dispatch-rings}
use flutter_21_client.Signaling.Sessions.{GateResult, handle_frame-GateResult}
use flutter_21_client.Signaling.Stale.{stale_cleanup, second_user_leaks}
use flutter_21_client.Witness.Documents.{Json, object}
use flutter_21_client.Witness.Setting.{small, settings, start}

abbrev call_to_bob : Json
call_to_bob = object (("to", "2") ∷ ("offer", "sdp") ∷ [])

abbrev call_type : String
call_type = "call"

ring_count : rings (dispatch_message small settings 1 "call" call_to_bob start).1 ≡ 1
unfolding dispatch_message flutter_21_client.Signaling.Calls.call
    flutter_21_client.Contacts.can_call flutter_21_client.Signaling.Calls.ring_if_connected
    is_connected flutter_21_client.Signaling.Calls.ring_unless_busy
    flutter_21_client.RedisStore.is_busy flutter_21_client.Signaling.Calls.ring
    flutter_21_client.RedisStore.set_busy flutter_21_client.Crypto.encrypt
    flutter_21_client.Database.find_user_by_id send_to
ring_count = refl

rung : rings start < rings (dispatch_message small settings 1 "call" call_to_bob start).1
rung = rw ring_count (omega arith)

dispatch-rings_example :
    (call_type ≡ "call")
    × ((to : Uuid) × Permits small settings 1 call_to_bob start
          (dispatch_message small settings 1 "call" call_to_bob start).1
          to)
dispatch-rings_example = dispatch-rings small settings 1 call_to_bob "call" start rung

handle_frame-GateResult_example :
    GateResult small settings 8
      (text "11")
      start
      (handle_frame small settings 8 none (text "11") start)
handle_frame-GateResult_example = handle_frame-GateResult small settings 8 (text "11") start

stale_cleanup_example :
    (is_connected 2 start ≡ true)
    × (is_connected 2 (handle_socket small settings 6 (some 2) (close ∷ []) start) ≡ false)
stale_cleanup_example = stale_cleanup small settings 6 7 2 start (λ e. omega arith) refl

abbrev first_in : World small
first_in = (handle_frame small settings 8 none (text "11") start).1

abbrev second_in : World small
second_in = (handle_frame small settings 8 (some 1) (text "33") first_in).1

first_admitted :
    handle_frame small settings 8 none (text "11") start ≡ (continues (some 1), first_in)
unfolding handle_frame flutter_21_client.Signaling.Socket.authenticate
first_admitted = refl

second_admitted :
    handle_frame small settings 8 (some 1) (text "33") first_in ≡ (continues (some 3), second_in)
unfolding handle_frame flutter_21_client.Signaling.Socket.authenticate
    flutter_21_client.Signaling.Socket.welcome
second_admitted = refl

second_user_leaks_example :
    lookup 1 (handle_socket small settings 8 none (text "11" ∷ text "33" ∷ []) start).connections
    ≡ some 8
second_user_leaks_example =
    second_user_leaks small settings 8 1 3 (text "11") (text "33") start first_in second_in
      (λ e. omega arith) first_admitted second_admitted

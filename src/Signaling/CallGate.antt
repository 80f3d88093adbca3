-- ===== src/Signaling/CallGate.antt =====
-- signaling/server.rs, `call`: when a user is rung.
use flutter_21_client.Prelude.{
  ℕ, ◌+◌, ◌<◌, String, Bool, true, false, Option, none, some, List, [], ◌∷◌, ◌≡◌, ◌≢◌, arith,
  if◌then◌else◌, contains_key, uuid_eq, find, Option-cases, Bool-cases, inl, inr, eq_iff, ◌==◌,
  text_eq,
}
use flutter_21_client.Hub.{is_connected, send_to}
use flutter_21_client.RedisStore.{is_busy, set_busy, clear_busy}
use flutter_21_client.Database.{find_user_by_id, create_room, find_room, is_open}
use flutter_21_client.Contacts.{can_call}
use flutter_21_client.Services.{Services, Uuid, busy}
use flutter_21_client.World.{World, WsTx, M, pure}
use flutter_21_client.World.Events.{Event, call_incoming, HubMessage}
use flutter_21_client.World.Tables.{Room}
use flutter_21_client.Config.{Config}
use flutter_21_client.Contacts.Statements.{is_contact}
use flutter_21_client.Crypto.{encrypt}
use flutter_21_client.Signaling.{dispatch_message, heartbeat}
use flutter_21_client.Signaling.Fields.{text_field}
use flutter_21_client.Signaling.Calls.{
  ring, ring_unless_busy, ring_if_connected, call, answer, ice_candidate, decline, hang_up,
  call_id_of,
}
use flutter_21_client.Signaling.Rooms.{create, host, let_in, join, room_answer, room_ice}

abbrev pub one_ring : Event → ℕ
one_ring (call_incoming _ _ _ _) = 1
one_ring _ = 0

abbrev pub sent_rings : List (WsTx × Event) → ℕ
sent_rings [] = 0
sent_rings ((tx, e) ∷ s) = one_ring e + sent_rings s

abbrev pub published_rings : List HubMessage → ℕ
published_rings [] = 0
published_rings (m ∷ ms) = one_ring m.payload + published_rings ms

-- How many `call-incoming` messages were handed out.
abbrev pub rings : {E : Services} → World E → ℕ
rings w = sent_rings w.sent + published_rings w.published

-- The user that a text names.
abbrev pub addressee : (E : Services) → Option String → Option Uuid
addressee E none = none
addressee E (some text) = E.parse_uuid text

module _ (E : Services) (c : Config E) (sender to : Uuid) (offer : E.Value) where
  -- What holds when the callee is rung: both users carry the mark of this call.
  abbrev Marked : World E → World E → Type 0
  Marked w v =
      (E.value (busy sender) v.store ≡ some (call_id_of E sender to w))
      × (E.value (busy to) v.store ≡ some (call_id_of E sender to w))

  ring-rings :
      (w : World E)
      → rings w < rings (ring E c sender to offer w).1
      → Marked w (ring E c sender to offer w).1
  unfolding ring encrypt set_busy find_user_by_id send_to
  ring-rings w h =
      let id = call_id_of E sender to w in
      let s = E.set_ex (busy sender) id 300 w.store in
      ground (
        arith,
        E.value-set_ex (busy sender) (busy to) id 300 s (omega arith),
        E.value-set_ex (busy sender) (busy sender) id 300 w.store (omega arith),
        E.value-set_ex (busy to) (busy to) id 300 s (omega arith),
      )

  ring_unless_busy-rings :
      (w : World E)
      → rings w < rings (ring_unless_busy E c sender to offer w).1
      → (E.value (busy to) w.store ≡ none) × Marked w (ring_unless_busy E c sender to offer w).1
  unfolding ring_unless_busy is_busy call_id_of send_to
  ring_unless_busy-rings w h =
      let w' : World E = (is_busy {E = E} to w).1 in ground (arith, ring-rings w')

  ring_if_connected-rings :
      (w : World E)
      → rings w < rings (ring_if_connected E c sender to offer w).1
      → (contains_key to w.connections ≡ true)
        × (E.value (busy to) w.store ≡ none)
        × Marked w (ring_if_connected E c sender to offer w).1
  unfolding ring_if_connected is_connected send_to
  ring_if_connected-rings w h = ground (arith, ring_unless_busy-rings w)

module _ (E : Services) (c : Config E) (sender : Uuid) (msg : E.Value) where
  -- What a ring by this message takes, and what it leaves.
  abbrev pub Permits : World E → World E → Uuid → Type 0
  Permits w v to =
      (addressee E (text_field E msg "to") ≡ some to)
      × (to ≢ sender)
      × (is_contact sender to w.db ≡ true)
      × (contains_key to w.connections ≡ true)
      × (E.value (busy to) w.store ≡ none)
      × (E.value (busy sender) v.store ≡ some (call_id_of E sender to w))
      × (E.value (busy to) v.store ≡ some (call_id_of E sender to w))

  call-rings :
      (w : World E)
      → rings w < rings (call E c sender msg w).1
      → (to : Uuid) × Permits w (call E c sender msg w).1 to
  unfolding call can_call call_id_of send_to
  call-rings w h = elim (Option-cases (text_field E msg "to")) [
    | inl missing ↦ absurd (ground arith)
    | inr (text, given) ↦ elim (Option-cases (E.parse_uuid text)) [
      | inl bad ↦ absurd (ground arith)
      | inr (to, parsed) ↦ elim (Option-cases (E.get msg "offer")) [
        | inl missing ↦ absurd (ground arith)
        | inr (offer, found) ↦ (
          to,
          ground (arith, ring_if_connected-rings E c sender to offer (can_call sender to w).1),
        )
      ]
    ]
  ]

  -- The action rings nobody.
  Silent : M E (Unit {0}) → Type 0
  Silent m = (w : World E) → ¬ (rings w < rings (m w).1)

  answer-Silent : Silent (answer E c msg)
  unfolding Silent answer encrypt send_to
  answer-Silent w h = ground arith

  ice_candidate-Silent : Silent (ice_candidate E c sender msg)
  unfolding Silent ice_candidate encrypt send_to
  ice_candidate-Silent w h = ground arith

  decline-Silent : Silent (decline E sender msg)
  unfolding Silent decline clear_busy send_to
  decline-Silent w h = ground arith

  hang_up-Silent : Silent (hang_up E sender msg)
  unfolding Silent hang_up clear_busy send_to
  hang_up-Silent w h = ground arith

  create-Silent : Silent (create E c sender)
  unfolding Silent create create_room send_to
  create-Silent w h = ground arith

  host-Silent : Silent (host E sender msg)
  unfolding Silent host send_to
  host-Silent w h = ground arith

  let_in-Silent :
      (t : String) (room : Room) (offer : E.Value) → Silent (let_in E c sender t room offer)
  unfolding Silent let_in encrypt find_user_by_id send_to
  let_in-Silent t room offer w h = ground arith

  join-Silent : Silent (join E c sender msg)
  unfolding Silent join find_room
  join-Silent w h = elim (Option-cases (text_field E msg "roomId")) [
    | inl missing ↦ ground arith
    | inr (t, given) ↦ elim (Option-cases (E.parse_uuid t)) [
      | inl bad ↦ ground arith
      | inr (room_id, parsed) ↦ elim (Option-cases (find (is_open room_id w.now) w.db.rooms)) [
        | inl missing ↦ ground arith
        | inr (room, found) ↦ elim (Option-cases (E.get msg "offer")) [
          | inl missing ↦ ground arith
          | inr (offer, got) ↦
              let w' : World E = (find_room {E = E} room_id w).1 in
              ground (arith, let_in-Silent t room offer w')
        ]
      ]
    ]
  ]

  room_answer-Silent : Silent (room_answer E c msg)
  unfolding Silent room_answer encrypt send_to
  room_answer-Silent w h = ground arith

  room_ice-Silent : Silent (room_ice E c sender msg)
  unfolding Silent room_ice encrypt find_room send_to
  room_ice-Silent w h = ground arith

  heartbeat-Silent : Silent (heartbeat E c sender)
  unfolding Silent heartbeat send_to
  heartbeat-Silent w h = ground arith

  Silent-if : (b : Bool) (m n : M E (Unit {0})) → Silent m → Silent n → Silent (if b then m else n)
  Silent-if true m n sm sn = sm
  Silent-if false m n sm sn = sn

  unknown-Silent : Silent (pure tt)
  unfolding Silent
  unknown-Silent w h = omega arith

  dispatch-Silent :
      (msg_type : String)
      → (msg_type == "call") ≡ false
      → Silent (dispatch_message E c sender msg_type msg)
  unfolding dispatch_message
  dispatch-Silent msg_type other = rw other (
      Silent-if _ _ _ answer-Silent (
        Silent-if _ _ _ ice_candidate-Silent (
          Silent-if _ _ _ decline-Silent (
            Silent-if _ _ _ hang_up-Silent (
              Silent-if _ _ _ create-Silent (
                Silent-if _ _ _ host-Silent (
                  Silent-if _ _ _ join-Silent (
                    Silent-if _ _ _ room_answer-Silent (
                      Silent-if _ _ _ room_ice-Silent
                        (Silent-if _ _ _ heartbeat-Silent unknown-Silent))))))))))

  -- A message of an authenticated client makes the server hand out one more `call-incoming`, locally
  -- or by the Redis channel, only if it is a "call" to another user who is an accepted contact, is
  -- connected to this instance and has no busy mark; the caller and the callee are then both marked
  -- with the id of this call. Whatever the outcomes of the database and of Redis are.
  pub dispatch-rings :
      (msg_type : String) (w : World E)
      → rings w < rings (dispatch_message E c sender msg_type msg w).1
      → (msg_type ≡ "call")
        × ((to : Uuid) × Permits w (dispatch_message E c sender msg_type msg w).1 to)
  unfolding dispatch_message Silent
  dispatch-rings msg_type w h = elim (Bool-cases (msg_type == "call")) [
    | inl same ↦ ((eq_iff msg_type "call").0 same, rw same (call-rings w (rw same at h)))
    | inr other ↦ absurd (dispatch-Silent msg_type other w h)
  ]

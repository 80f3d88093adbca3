-- ===== src/Relay.antt =====
-- signaling/sfu_relay.rs: group rooms. The store is an association list; each handler takes it and
-- answers it with its result and the state after it. An `Instant` is the time in milliseconds.
pub mod Rooms
pub mod Messages
pub mod Seats
use flutter_21_client.Prelude.{
  ℕ, String, Bool, true, false, not, Option, none, some, List, [], ◌∷◌, map, keep, length, lookup,
  insert, remove, is_some, leb, nat_eq, ◌==◌, text_eq, uuid_eq, if◌then◌else◌,
}
use flutter_21_client.Errors.{Result, ok, err, ApiResult, bad_request}
use flutter_21_client.Services.{Services, Uuid}
use flutter_21_client.World.{World}
use flutter_21_client.World.Events.{Event, sfu_error, sfu_peer_joined, sfu_joined, sfu_peer_left}
use flutter_21_client.Hub.{send_to}
use flutter_21_client.Signaling.Fields.{text_field}

pub record SfuParticipant : Type 0 where
  pub user_id : Uuid
  pub display_name : String
  pub joined_at : ℕ
  pub media_ready : Bool

pub record SfuRoom : Type 0 where
  pub room_id : String
  pub created_at : ℕ
  pub participants : List (Uuid × SfuParticipant)
  pub max_participants : ℕ

abbrev pub SfuRooms : Type 0
SfuRooms = List (String × SfuRoom)

unfoldable pub new_room : String → ℕ → SfuRoom
new_room room_id now = record {
  room_id = room_id;
  created_at = now;
  participants = [];
  max_participants = 16;
}

unfoldable pub add_participant : SfuParticipant → SfuRoom → ApiResult SfuRoom
add_participant p room =
    if leb room.max_participants (length room.participants)
    then err (bad_request "Room is full")
    else ok (record room { participants = insert p.user_id p room.participants })

-- With whether the participant was there.
unfoldable pub remove_participant : Uuid → SfuRoom → Bool × SfuRoom
remove_participant user room = (
  is_some (lookup user room.participants),
  record room { participants = remove user room.participants },
)

abbrev pub is_empty : SfuRoom → Bool
is_empty room = nat_eq (length room.participants) 0

abbrev pub other_participants : Uuid → SfuRoom → List Uuid
other_participants exclude room =
    keep (λ u. not (nat_eq u exclude))
      (map (λ (x : Uuid × SfuParticipant). x.1.user_id) room.participants)

-- `entry(room_id).or_insert_with(..)`
abbrev pub room_or : SfuRoom → Option SfuRoom → SfuRoom
room_or fresh none = fresh
room_or fresh (some room) = room

abbrev pub ready : SfuParticipant → SfuParticipant
ready p = record p { media_ready = true }

abbrev pub Handled : Services → Type 0
Handled E = SfuRooms × (ApiResult (Unit {0}) × World E)

abbrev pub mark_participant : Uuid → String → SfuRoom → Option SfuParticipant → SfuRooms → SfuRooms
mark_participant sender room_id room none rooms = rooms
mark_participant sender room_id room (some p) rooms =
    insert room_id (record room { participants = insert sender (ready p) room.participants }) rooms

abbrev pub mark_ready : Uuid → String → Option SfuRoom → SfuRooms → SfuRooms
mark_ready sender room_id none rooms = rooms
mark_ready sender room_id (some room) rooms =
    mark_participant sender room_id room (lookup sender room.participants) rooms

module _ {E : Services} where
  -- The errors of sending are dropped.
  unfoldable pub notify_all : List Uuid → Event → World E → World E
  notify_all [] e w = w
  notify_all (u ∷ us) e w = notify_all us e (send_to u e w).1

  abbrev pub admitted :
      Uuid
      → String
      → String
      → List Uuid
      → SfuRooms
      → SfuRoom
      → ApiResult SfuRoom
      → World E
      → Handled E
  admitted sender name room_id others rooms room (err e) w = (insert room_id room rooms, (err e, w))
  admitted sender name room_id others rooms room (ok room') w = (
    insert room_id room' rooms,
    send_to sender (sfu_joined room_id (length others))
        (notify_all others (sfu_peer_joined room_id sender name) w),
  )

  -- `handle_sfu_join` on the room of the message, which may be new.
  unfoldable pub enter : Uuid → String → String → SfuRoom → SfuRooms → World E → Handled E
  unfolding add_participant
  enter sender name room_id room rooms w =
      if leb room.max_participants (length room.participants)
      then (insert room_id room rooms, send_to sender (sfu_error room_id "room_full") w)
      else admitted sender name room_id (other_participants sender room) rooms room
          (add_participant
            (record {
              user_id = sender;
              display_name = name;
              joined_at = w.now;
              media_ready = false;
            })
            room)
          w

  abbrev pub reject : String → SfuRooms → World E → Handled E
  reject message rooms w = (rooms, (err (bad_request message), w))

  -- `handle_sfu_leave` for a room of the store.
  unfoldable pub depart : Uuid → String → SfuRoom → SfuRooms → World E → Handled E
  unfolding remove_participant
  depart sender room_id room rooms w =
      let (removed, room') = remove_participant sender room in
      if removed
      then (
        (if is_empty room' then remove room_id rooms else insert room_id room' rooms),
        (
          ok tt,
          notify_all (map (λ (x : Uuid × SfuParticipant). x.0) room'.participants)
              (sfu_peer_left room_id sender) w,
        ),
      )
      else (rooms, (ok tt, w))

  abbrev pub leave : Uuid → Option String → SfuRooms → World E → Handled E
  leave sender none rooms w = reject "Missing roomId" rooms w
  leave sender (some room_id) rooms w = elim (lookup room_id rooms) [
    | none ↦ (rooms, (ok tt, w))
    | some room ↦ depart sender room_id room rooms w
  ]

module _ (E : Services) where
  unfoldable pub handle_sfu_join : Uuid → String → E.Value → SfuRooms → World E → Handled E
  unfolding new_room
  handle_sfu_join sender name msg rooms w = elim (text_field E msg "roomId") [
    | none ↦ reject "Missing roomId" rooms w
    | some room_id ↦ elim (E.get msg "offer") [
      | none ↦ reject "Missing offer" rooms w
      | some offer ↦
          enter sender name room_id (room_or (new_room room_id w.now) (lookup room_id rooms)) rooms
            w
    ]
  ]

  unfoldable pub handle_sfu_answer : Uuid → E.Value → SfuRooms → World E → Handled E
  handle_sfu_answer sender msg rooms w = elim (text_field E msg "roomId") [
    | none ↦ reject "Missing roomId" rooms w
    | some room_id ↦ elim (E.get msg "answer") [
      | none ↦ reject "Missing answer" rooms w
      | some answer ↦ (mark_ready sender room_id (lookup room_id rooms) rooms, (ok tt, w))
    ]
  ]

  unfoldable pub handle_sfu_ice : Uuid → E.Value → SfuRooms → World E → Handled E
  handle_sfu_ice sender msg rooms w = elim (text_field E msg "roomId") [
    | none ↦ reject "Missing roomId" rooms w
    | some room_id ↦ elim (E.get msg "candidate") [
      | none ↦ reject "Missing candidate" rooms w
      | some candidate ↦ (rooms, (ok tt, w))
    ]
  ]

  unfoldable pub handle_sfu_leave : Uuid → E.Value → SfuRooms → World E → Handled E
  handle_sfu_leave sender msg rooms w = leave sender (text_field E msg "roomId") rooms w

  unfoldable pub handle_sfu_message :
      Uuid → String → String → E.Value → SfuRooms → World E → Handled E
  handle_sfu_message sender name msg_type msg rooms w =
      if msg_type == "call-sfu"
      then handle_sfu_join sender name msg rooms w
      else if msg_type == "sfu-answer"
      then handle_sfu_answer sender msg rooms w
      else if msg_type == "sfu-ice"
      then handle_sfu_ice sender msg rooms w
      else if msg_type == "sfu-leave"
      then handle_sfu_leave sender msg rooms w
      else (rooms, (ok tt, w))

-- `SfuRegistry::reap_empty` and `participant_count`
unfoldable pub reap_empty : SfuRooms → SfuRooms
reap_empty rooms = keep (λ (x : String × SfuRoom). not (is_empty x.1)) rooms

abbrev pub count_in : Option SfuRoom → ℕ
count_in none = 0
count_in (some room) = length room.participants

unfoldable pub participant_count : String → SfuRooms → ℕ
participant_count room_id rooms = count_in (lookup room_id rooms)

-- ===== src/Relay/Rooms.antt =====
-- signaling/sfu_relay.rs: what the rooms of the store keep.
use flutter_21_client.Prelude.{
  ℕ, ◌<◌, ◌≤◌, String, true, false, List, [], All-insert, All-remove, All-lookup, ◌∷◌, length,
  lookup, insert, remove, leb, nat_eq, text_eq, uuid_eq, ◌≡◌, ◌⊎◌, refl, arith, All, DistinctKeys,
  insert-DistinctKeys, remove-DistinctKeys, length-insert, length-remove-le, contains_key,
  Option-cases, Bool-cases, inl, inr,
}
use flutter_21_client.Services.{Services, Uuid}
use flutter_21_client.World.{World}
use flutter_21_client.Relay.{
  SfuParticipant, SfuRoom, SfuRooms, new_room, is_empty, room_or, ready, enter, depart, mark_ready,
}

abbrev pub IsNamed : Uuid × SfuParticipant → Type 0
IsNamed (u, p) = p.user_id ≡ u

-- A room under its key that is not over its bound, where each participant has one entry.
abbrev pub IsRoom : String × SfuRoom → Type 0
IsRoom (id, room) =
    (room.room_id ≡ id)
    × DistinctKeys room.participants
    × All IsNamed room.participants
    × (length room.participants ≤ room.max_participants)
    × (room.max_participants ≡ 16)

-- Nor is it empty.
abbrev pub IsSound : String × SfuRoom → Type 0
IsSound (id, room) = IsRoom (id, room) × (0 < length room.participants)

abbrev pub IsValid : SfuRooms → Type 0
IsValid rooms = DistinctKeys rooms × All IsSound rooms

IsValid-insert :
    (id : String) (room : SfuRoom) (rooms : SfuRooms)
    → IsSound (id, room)
    → IsValid rooms
    → IsValid (insert id room rooms)
IsValid-insert id room rooms s (d, h) =
    (insert-DistinctKeys id room rooms d, All-insert IsSound id room rooms s h)

IsValid-remove : (id : String) (rooms : SfuRooms) → IsValid rooms → IsValid (remove id rooms)
IsValid-remove id rooms (d, h) = (remove-DistinctKeys id rooms d, All-remove IsSound id rooms h)

length-insert_pos :
    (u : Uuid) (p : SfuParticipant) (ps : List (Uuid × SfuParticipant)) → 0 < length (insert u p ps)
length-insert_pos u p [] = omega arith
length-insert_pos u p ((v, q) ∷ ps) = elim (Bool-cases (nat_eq v u)) [
  | inl same ↦ rw same (omega arith)
  | inr other ↦ rw other (omega arith)
]

IsSound-insert :
    (id : String) (u : Uuid) (p : SfuParticipant) (room : SfuRoom)
    → p.user_id ≡ u
    → (length room.participants < room.max_participants) ⊎ (contains_key u room.participants ≡ true)
    → IsRoom (id, room)
    → IsSound (id, record room { participants = insert u p room.participants })
IsSound-insert id u p room same space (name, d, named, below, bound) = (
  (
    name,
    insert-DistinctKeys u p room.participants d,
    All-insert IsNamed u p room.participants same named,
    ground (arith, length-insert u p room.participants),
    bound,
  ),
  length-insert_pos u p room.participants,
)

IsSound-remove :
    (id : String) (u : Uuid) (room : SfuRoom)
    → IsRoom (id, room)
    → is_empty (record room { participants = remove u room.participants }) ≡ false
    → IsSound (id, record room { participants = remove u room.participants })
IsSound-remove id u room (name, d, named, below, bound) left = (
  (
    name,
    remove-DistinctKeys u room.participants d,
    All-remove IsNamed u room.participants named,
    omega (arith, length-remove-le u room.participants),
    bound,
  ),
  ground arith,
)

pub IsRoom-room_or :
    (id : String) (now : ℕ) (rooms : SfuRooms)
    → IsValid rooms
    → IsRoom (id, room_or (new_room id now) (lookup id rooms))
unfolding new_room
IsRoom-room_or id now rooms (d, h) = elim (Option-cases (lookup id rooms)) [
  | inl absent ↦ rw absent (refl, tt, tt, omega arith, refl)
  | inr (room, found) ↦ rw found (All-lookup IsSound id room rooms h found).0
]

module _ {E : Services} where
  pub IsValid-enter :
      (sender : Uuid) (name id : String) (room : SfuRoom) (rooms : SfuRooms) (w : World E)
      → IsRoom (id, room)
      → IsValid rooms
      → IsValid (enter sender name id room rooms w).0
  unfolding enter
  IsValid-enter sender name id room rooms w r v =
      let p : SfuParticipant = record {
        user_id = sender;
        display_name = name;
        joined_at = w.now;
        media_ready = false;
      } in
      elim (Bool-cases (leb room.max_participants (length room.participants))) [
        | inl full ↦ rw full (IsValid-insert id room rooms (r, ground arith) v)
        | inr space ↦ rw space (
            IsValid-insert id (record room { participants = insert sender p room.participants })
              rooms (IsSound-insert id sender p room refl (inl (ground arith)) r) v)
      ]

  pub IsValid-depart :
      (sender : Uuid) (id : String) (room : SfuRoom) (rooms : SfuRooms) (w : World E)
      → IsRoom (id, room)
      → IsValid rooms
      → IsValid (depart sender id room rooms w).0
  unfolding depart
  IsValid-depart sender id room rooms w r v =
      let room' = record room { participants = remove sender room.participants } in
      elim (Option-cases (lookup sender room.participants)) [
        | inl absent ↦ rw absent v
        | inr (p, found) ↦ elim (Bool-cases (is_empty room')) [
          | inl empty ↦ rw (found, empty) (IsValid-remove id rooms v)
          | inr left ↦
              rw (found, left)
                (IsValid-insert id room' rooms (IsSound-remove id sender room r left) v)
        ]
      ]

pub IsValid-mark_ready :
    (sender : Uuid) (id : String) (rooms : SfuRooms)
    → IsValid rooms
    → IsValid (mark_ready sender id (lookup id rooms) rooms)
IsValid-mark_ready sender id rooms v = elim (Option-cases (lookup id rooms)) [
  | inl absent ↦ rw absent v
  | inr (room, found) ↦
      let s = All-lookup IsSound id room rooms v.1 found in
      elim (Option-cases (lookup sender room.participants)) [
        | inl away ↦ rw (found, away) v
        | inr (p, here) ↦
            let same = All-lookup IsNamed sender p room.participants s.0.2 here in
            rw (found, here)
              (IsValid-insert id
                (record room { participants = insert sender (ready p) room.participants }) rooms
                (IsSound-insert id sender (ready p) room same (inr (rw here refl)) s.0) v)
      ]
]

-- ===== src/Relay/Seats.antt =====
-- signaling/sfu_relay.rs: who is in a room after a join and after a leave.
use flutter_21_client.Prelude.{
  All-lookup, String, true, false, Option, none, some, List, [], ◌∷◌, length, lookup, insert,
  remove, leb, nat_eq, text_eq, uuid_eq, if◌then◌else◌, ◌≡◌, ◌≢◌, refl, arith, lookup-insert,
  lookup-remove, Option-cases, Bool-cases, inl, inr, eq_iff, eq_refl, nat_eq_iff,
}
use flutter_21_client.Services.{Services, Uuid}
use flutter_21_client.World.{World}
use flutter_21_client.Signaling.Fields.{text_field}
use flutter_21_client.Relay.{
  SfuParticipant, SfuRoom, SfuRooms, new_room, remove_participant, is_empty, enter, depart, leave,
  handle_sfu_join, handle_sfu_leave, participant_count,
}
use flutter_21_client.Relay.Rooms.{IsValid, IsSound}

abbrev pub seat : Uuid → Option SfuRoom → Option SfuParticipant
seat u none = none
seat u (some room) = lookup u room.participants

lookup_in_empty :
    (u : Uuid) (ps : List (Uuid × SfuParticipant))
    → nat_eq (length ps) 0 ≡ true
    → lookup u ps ≡ none
lookup_in_empty u [] h = refl
lookup_in_empty u (p ∷ ps) h = absurd (ground arith)

module _ {E : Services} (sender : Uuid) (id : String) (u : Uuid) (rooms : SfuRooms)
    (w : World E) where
  seat-depart :
      (room : SfuRoom)
      → lookup id rooms ≡ some room
      → seat u (lookup id (depart sender id room rooms w).0)
        ≡ (if nat_eq sender u then none else lookup u room.participants)
  unfolding depart remove_participant
  seat-depart room found =
      let room' = record room { participants = remove sender room.participants } in
      elim (Bool-cases (is_empty room')) [
        | inl empty ↦ ground (
          arith,
          lookup_in_empty u room'.participants empty,
          lookup-remove sender u room.participants,
          lookup-remove id id rooms,
          eq_refl id,
          nat_eq_iff sender u,
        )
        | inr left ↦ ground (
          arith,
          lookup-remove sender u room.participants,
          lookup-insert id id room' rooms,
          eq_refl id,
          nat_eq_iff sender u,
        )
      ]

  others-depart :
      (room : SfuRoom) (other : String)
      → other ≢ id
      → lookup other (depart sender id room rooms w).0 ≡ lookup other rooms
  unfolding depart remove_participant
  others-depart room other ne =
      let room' = record room { participants = remove sender room.participants } in
      ground
        (arith, lookup-remove id other rooms, lookup-insert id other room' rooms, eq_iff id other)

  abbrev newcomer : String → SfuParticipant
  newcomer name = record {
    user_id = sender;
    display_name = name;
    joined_at = w.now;
    media_ready = false;
  }

  seat-enter :
      (name : String) (room : SfuRoom)
      → room.max_participants ≡ 16
      → seat u (lookup id (enter sender name id room rooms w).0) ≡ (
          if leb 16 (length room.participants)
          then lookup u room.participants
          else if nat_eq sender u
          then some (newcomer name)
          else lookup u room.participants)
  unfolding enter
  seat-enter name room bound =
      let room' = record room { participants = insert sender (newcomer name) room.participants } in
      ground (
        arith,
        lookup-insert id id room rooms,
        lookup-insert id id room' rooms,
        lookup-insert sender u (newcomer name) room.participants,
        eq_refl id,
      )

module _ (E : Services) (sender : Uuid) (msg : E.Value) (rooms : SfuRooms) (w : World E)
    (id : String) where
  -- After a user has left a room, the user is no participant of it; its other participants, and
  -- every other room, are as before. This holds if the room was not there, too.
  pub leave_lem :
      (u : Uuid) (other : String)
      → text_field E msg "roomId" ≡ some id
      → other ≢ id
      → (seat u (lookup id (handle_sfu_leave E sender msg rooms w).0)
          ≡ (if nat_eq sender u then none else seat u (lookup id rooms)))
        × (lookup other (handle_sfu_leave E sender msg rooms w).0 ≡ lookup other rooms)
  unfolding handle_sfu_leave
  leave_lem u other given ne = elim (Option-cases (lookup id rooms)) [
    | inl absent ↦ rw (handle_sfu_leave, given, leave, absent) (ground arith, refl)
    | inr (room, found) ↦
        rw (handle_sfu_leave, given, leave, found)
          (
            seat-depart sender id u rooms w room found,
            others-depart sender id u rooms w room other ne,
          )
  ]

  -- A join to a room of a valid store: when the room has sixteen participants, its participants stay
  -- as they are; otherwise the user is in it, and the others as before. A room that was not there is
  -- made.
  pub join_lem :
      (name : String) (u : Uuid) (offer : E.Value)
      → text_field E msg "roomId" ≡ some id
      → E.get msg "offer" ≡ some offer
      → IsValid rooms
      → seat u (lookup id (handle_sfu_join E sender name msg rooms w).0) ≡ (
          if leb 16 (participant_count id rooms)
          then seat u (lookup id rooms)
          else if nat_eq sender u
          then some (record {
            user_id = sender;
            display_name = name;
            joined_at = w.now;
            media_ready = false;
          })
          else seat u (lookup id rooms))
  unfolding handle_sfu_join participant_count new_room
  join_lem name u offer given got v = elim (Option-cases (lookup id rooms)) [
    | inl absent ↦
        rw (handle_sfu_join, given, got, absent, participant_count)
          (seat-enter sender id u rooms w name (new_room id w.now) refl)
    | inr (room, found) ↦
        rw (handle_sfu_join, given, got, found, participant_count)
          (seat-enter sender id u rooms w name room
            (All-lookup IsSound id room rooms v.1 found).0.4)
  ]

-- ===== src/Witness/RelayCases.antt =====
-- Group rooms: user 1 is in the room "den", and user 2 comes, or user 1 goes.
use flutter_21_client.Prelude.{
  String, true, false, ◌≡◌, ◌≢◌, refl, none, some, [], ◌∷◌, arith, if◌then◌else◌, nat_eq, lookup,
  text_eq, ◌==◌, eq_iff, leb,
}
use flutter_21_client.Relay.{
  SfuParticipant, SfuRooms, handle_sfu_join, handle_sfu_leave, handle_sfu_message,
  participant_count,
}
use flutter_21_client.Relay.Rooms.{IsValid}
use flutter_21_client.Relay.Messages.{handle_sfu_message-IsValid}
use flutter_21_client.Relay.Seats.{seat, leave_lem, join_lem}
use flutter_21_client.Witness.Documents.{Json, object, text}
use flutter_21_client.Witness.Setting.{small, start}

abbrev first_seat : SfuParticipant
first_seat = record { user_id = 1; display_name = "ann"; joined_at = 0; media_ready = true }

abbrev den_id : String
den_id = "den"

abbrev attic_id : String
attic_id = "attic"

abbrev den : SfuRooms
den =
    (
      "den",
      record {
        room_id = "den";
        created_at = 0;
        participants = (1, first_seat) ∷ [];
        max_participants = 16;
      },
    )
    ∷ []

abbrev about_den : Json
about_den = object (("roomId", "den") ∷ ("offer", "sdp") ∷ [])

den-IsValid : IsValid den
den-IsValid = ((refl, tt), (((refl, (refl, tt), (refl, tt), omega arith, refl), omega arith), tt))

handle_sfu_message-IsValid_example :
    IsValid (handle_sfu_message small 2 "bob" "call-sfu" about_den den start).0
handle_sfu_message-IsValid_example =
    handle_sfu_message-IsValid small 2 "bob" about_den den start den-IsValid "call-sfu"

not_den : attic_id ≢ den_id
not_den e = cc (names_differ, (eq_iff attic_id den_id).1 e)
  where
    names_differ : (attic_id == den_id) ≡ false
    names_differ = refl

leave_lem_example :
    (seat 1 (lookup den_id (handle_sfu_leave small 1 about_den den start).0)
      ≡ (if nat_eq 1 1 then none else seat 1 (lookup den_id den)))
    × (lookup attic_id (handle_sfu_leave small 1 about_den den start).0 ≡ lookup attic_id den)
leave_lem_example = leave_lem small 1 about_den den start "den" 1 "attic" refl not_den

join_lem_example : seat 2 (lookup den_id (handle_sfu_join small 2 "bob" about_den den start).0) ≡ (
    if leb 16 (participant_count "den" den)
    then seat 2 (lookup den_id den)
    else if nat_eq 2 2
    then some
        (record { user_id = 2; display_name = "bob"; joined_at = start.now; media_ready = false })
    else seat 2 (lookup den_id den))
join_lem_example =
    join_lem small 2 about_den den start "den" "bob" 2 (text "sdp") refl refl den-IsValid

-- ===== src/Relay/Messages.antt =====
-- signaling/sfu_relay.rs: every message keeps the rooms of the store sound.
use flutter_21_client.Prelude.{
  All-lookup, String, Bool, true, false, lookup, text_eq, uuid_eq, if◌then◌else◌, Option-cases, inl,
  inr,
}
use flutter_21_client.Errors.{ok}
use flutter_21_client.Services.{Services, Uuid}
use flutter_21_client.World.{World}
use flutter_21_client.Signaling.Fields.{text_field}
use flutter_21_client.Relay.{
  Handled, SfuRooms, new_room, room_or, leave, handle_sfu_join, handle_sfu_answer, handle_sfu_ice,
  handle_sfu_leave, handle_sfu_message,
}
use flutter_21_client.Relay.Rooms.{
  IsSound, IsValid, IsValid-enter, IsValid-depart, IsValid-mark_ready, IsRoom-room_or,
}

module _ (E : Services) (sender : Uuid) (name : String) (msg : E.Value) (rooms : SfuRooms)
    (w : World E) (v : IsValid rooms) where
  IsValid-handle_sfu_join : IsValid (handle_sfu_join E sender name msg rooms w).0
  unfolding handle_sfu_join
  IsValid-handle_sfu_join = elim (Option-cases (text_field E msg "roomId")) [
    | inl missing ↦ rw (handle_sfu_join, missing) v
    | inr (id, given) ↦ elim (Option-cases (E.get msg "offer")) [
      | inl missing ↦ rw (handle_sfu_join, given, missing) v
      | inr (offer, got) ↦
          rw (handle_sfu_join, given, got)
            (IsValid-enter sender name id (room_or (new_room id w.now) (lookup id rooms)) rooms w
              (IsRoom-room_or id w.now rooms v) v)
    ]
  ]

  IsValid-handle_sfu_answer : IsValid (handle_sfu_answer E sender msg rooms w).0
  unfolding handle_sfu_answer
  IsValid-handle_sfu_answer = elim (Option-cases (text_field E msg "roomId")) [
    | inl missing ↦ rw (handle_sfu_answer, missing) v
    | inr (id, given) ↦ elim (Option-cases (E.get msg "answer")) [
      | inl missing ↦ rw (handle_sfu_answer, given, missing) v
      | inr (answer, got) ↦
          rw (handle_sfu_answer, given, got) (IsValid-mark_ready sender id rooms v)
    ]
  ]

  IsValid-handle_sfu_ice : IsValid (handle_sfu_ice E sender msg rooms w).0
  unfolding handle_sfu_ice
  IsValid-handle_sfu_ice = elim (Option-cases (text_field E msg "roomId")) [
    | inl missing ↦ rw (handle_sfu_ice, missing) v
    | inr (id, given) ↦ elim (Option-cases (E.get msg "candidate")) [
      | inl missing ↦ rw (handle_sfu_ice, given, missing) v
      | inr (candidate, got) ↦ rw (handle_sfu_ice, given, got) v
    ]
  ]

  IsValid-handle_sfu_leave : IsValid (handle_sfu_leave E sender msg rooms w).0
  unfolding handle_sfu_leave
  IsValid-handle_sfu_leave = elim (Option-cases (text_field E msg "roomId")) [
    | inl missing ↦ rw (handle_sfu_leave, missing) v
    | inr (id, given) ↦ elim (Option-cases (lookup id rooms)) [
      | inl absent ↦ rw (handle_sfu_leave, given, leave, absent) v
      | inr (room, found) ↦
          rw (handle_sfu_leave, given, leave, found)
            (IsValid-depart sender id room rooms w (All-lookup IsSound id room rooms v.1 found).0 v)
    ]
  ]

  KeepsValid : Handled E → Type 0
  KeepsValid r = IsValid r.0

  KeepsValid-if :
      (b : Bool) (x y : Handled E) → KeepsValid x → KeepsValid y → KeepsValid (if b then x else y)
  KeepsValid-if true x y hx hy = hx
  KeepsValid-if false x y hx hy = hy

  KeepsValid-lem : (r : Handled E) → IsValid r.0 → KeepsValid r
  unfolding KeepsValid
  KeepsValid-lem r h = h

  KeepsValid-handle_sfu_message :
      (msg_type : String) → KeepsValid (handle_sfu_message E sender name msg_type msg rooms w)
  unfolding handle_sfu_message
  KeepsValid-handle_sfu_message msg_type =
      KeepsValid-if _ _ _ (KeepsValid-lem _ IsValid-handle_sfu_join) (
        KeepsValid-if _ _ _ (KeepsValid-lem _ IsValid-handle_sfu_answer) (
          KeepsValid-if _ _ _ (KeepsValid-lem _ IsValid-handle_sfu_ice) (
            KeepsValid-if _ _ _ (KeepsValid-lem _ IsValid-handle_sfu_leave)
              (KeepsValid-lem (rooms, (ok tt, w)) v))))

  -- Whatever message a user sends to the relay, and however the sending of notices ends: in the
  -- store, each room stands once, under its own id, and has at least one and at most sixteen
  -- participants, each of them once and under the own id, if it was so before.
  pub handle_sfu_message-IsValid :
      (msg_type : String) → IsValid (handle_sfu_message E sender name msg_type msg rooms w).0
  unfolding KeepsValid
  handle_sfu_message-IsValid msg_type = KeepsValid-handle_sfu_message msg_type

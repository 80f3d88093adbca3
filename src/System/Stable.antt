-- ===== src/System/Stable.antt =====
-- What keeps a property of the tables and the connections: the statements, and with them each part of
-- the handlers.
use flutter_21_client.Prelude.{ℕ, String, Bool, true, false, Option, List, arith, if◌then◌else◌}
use flutter_21_client.Errors.{AppError, map_err, crypto}
use flutter_21_client.Services.{Services, Uuid}
use flutter_21_client.World.{WsTx, M, stored}
use flutter_21_client.World.Tables.{Db, User, Room, pending, blocked}
use flutter_21_client.World.Events.{Event}
use flutter_21_client.World.Keeps.{
  Keeps, Keeps-bind, Keeps-statement, Keeps-lift, Keeps-draw, Keeps-read,
}
use flutter_21_client.Database.{
  insert_user, user_row, mark_seen, insert_room, room_row, create_user, update_last_seen,
  create_room,
}
use flutter_21_client.Contacts.Statements.{
  new_contact, upsert_request, accept_pending, delete_pending, delete_accepted, delete_between,
  insert_contact, insert_request_if_new, insert_invite, use_up,
}
use flutter_21_client.Hub.{send_to}
use flutter_21_client.Auth.{reject_if}
use flutter_21_client.Crypto.{encrypt, hash_password, seal}

abbrev pub Property : Type 1
Property = Db → List (Uuid × WsTx) → Type 0

-- A statement of the database keeps the property.
abbrev pub Respects : {A : Type 0} → Property → (Db → Option (A × Db)) → Type 0
Respects P f = (d : Db) (cs : List (Uuid × WsTx)) → P d cs → P (stored d (f d)) cs

-- The statement that accepts requests keeps it.
abbrev pub Accepting : Property → Type 0
Accepting P = (a b : Uuid) (now : ℕ) → Respects P (accept_pending a b now)

-- Every other statement of the server that writes keeps it.
pub record Stable (P : Property) : Type 0 where
  pub inserts_user : (u : User) → Respects P (insert_user u)
  pub marks_seen : (u : Uuid) (now : ℕ) → Respects P (mark_seen u now)
  pub inserts_room : (r : Room) → Respects P (insert_room r)
  pub asks :
      (id a b : Uuid) (now : ℕ) → Respects P (upsert_request (new_contact id a b pending now))
  pub declines : (a b : Uuid) → Respects P (delete_pending a b)
  pub removes : (a b : Uuid) → Respects P (delete_accepted a b)
  pub clears : (a b : Uuid) → Respects P (delete_between a b)
  pub blocks :
      (id a b : Uuid) (now : ℕ) → Respects P (insert_contact (new_contact id a b blocked now))
  pub asks_by_link :
      (id a b : Uuid) (now : ℕ)
      → Respects P (insert_request_if_new (new_contact id a b pending now))
  pub invites : (id a : Uuid) (token : String) (now : ℕ) → Respects P (insert_invite id a token now)
  pub uses : (id : Uuid) → Respects P (use_up id)

module _ (E : Services) (P : Property) where
  pub Keeps-send_to : (to : Uuid) (message : Event) → Keeps {E = E} P (send_to to message)
  unfolding Keeps send_to
  Keeps-send_to to message w p = ground arith

  pub Keeps-reject_if : (b : Bool) (e : AppError) → Keeps {E = E} P (reject_if b e)
  unfolding Keeps
  Keeps-reject_if true e w p = p
  Keeps-reject_if false e w p = p

  pub Keeps-if :
      {A : Type 0} (b : Bool) (m n : M E A) → Keeps P m → Keeps P n → Keeps P (if b then m else n)
  Keeps-if true m n hm hn = hm
  Keeps-if false m n hm hn = hn

  pub Keeps-encrypt : (key : E.Bytes) (t : String) → Keeps {E = E} P (encrypt key t)
  unfolding encrypt
  Keeps-encrypt key t = Keeps-bind P _ _ (Keeps-draw E P) (λ n. Keeps-lift E P (seal E key n t))

  pub Keeps-hash_password : (t : String) → Keeps {E = E} P (hash_password t)
  unfolding hash_password
  Keeps-hash_password t =
      Keeps-bind P _ _ (Keeps-lift E P (map_err crypto (E.argon2_params 19456 2 1))) (λ params.
        Keeps-bind P _ _ (Keeps-draw E P)
          (λ salt. Keeps-lift E P (map_err crypto (E.argon2_hash params salt t))))

  module _ (stable : Stable P) where
    pub Keeps-create_user :
        (name email shown hash : String) → Keeps {E = E} P (create_user name email shown hash)
    unfolding create_user
    Keeps-create_user name email shown hash = Keeps-bind P _ _ (Keeps-draw E P) λ n.
        Keeps-bind P _ _ (Keeps-read E P (λ w. w)) λ w.
          let u = user_row (E.random_uuid n) w.db.next_user w.now name email shown hash in
          Keeps-statement E P (insert_user u) (stable.inserts_user u)

    pub Keeps-create_room : (user : Uuid) → Keeps {E = E} P (create_room user)
    unfolding create_room
    Keeps-create_room user = Keeps-bind P _ _ (Keeps-draw E P) λ n.
        Keeps-bind P _ _ (Keeps-read E P (λ w. w)) λ w.
          let r = room_row (E.random_uuid n) w.db.next_room w.now user in
          Keeps-statement E P (insert_room r) (stable.inserts_room r)

    pub Keeps-update_last_seen : (user : Uuid) → Keeps {E = E} P (update_last_seen user)
    unfolding update_last_seen
    Keeps-update_last_seen user =
        Keeps-bind P _ _ (Keeps-read E P (λ w. w.now))
          λ now. Keeps-statement E P (mark_seen user now) (stable.marks_seen user now)

-- ===== src/System/Integrity.antt =====
-- db/mod.rs, the constraints of the schema: what every statement of the server keeps.
use flutter_21_client.Prelude.{
  ℕ, true, false, ◌||◌, List, [], ◌∷◌, map, any, nat_eq, ◌==◌, text_eq, ◌≡◌, arith, All,
  DistinctKeys, uuid_eq,
}
use flutter_21_client.Services.{Uuid}
use flutter_21_client.World.{stored}
use flutter_21_client.World.Tables.{Db, User, Room, Contact, pending, blocked}
use flutter_21_client.Database.{insert_user, user_conflicts, mark_seen, seen, insert_room}
use flutter_21_client.Contacts.Statements.{
  user_exists, accept_row, new_contact, upsert_request, insert_contact, insert_request_if_new,
  accept_pending, delete_pending, delete_accepted, delete_between, use_up, insert_invite,
}
use flutter_21_client.Contacts.Rows.{any-map_same}
use flutter_21_client.Contacts.Unique.{
  IsUnique, HasDistinctPairs-keep, HasDistinctPairs-map, IsUnique-insert_contact,
  IsUnique-insert_request_if_new, IsUnique-upsert_request,
}
use flutter_21_client.System.Stable.{Property, Respects, Stable, Accepting}

-- No two users have one user id, one name or one address.
abbrev pub HasDistinctUsers : List User → Type 0
HasDistinctUsers [] = Unit
HasDistinctUsers (u ∷ us) =
    (any (λ v. nat_eq v.user_id u.user_id || v.username == u.username || v.email == u.email) us
      ≡ false)
    × HasDistinctUsers us

abbrev pub DistinctRows : Property
DistinctRows d cs = IsUnique d × HasDistinctUsers d.users

-- Every user that a row names has a row.
abbrev pub HasReferences : Property
HasReferences d cs =
    All (λ c. (user_exists c.requester_id d ≡ true) × (user_exists c.target_id d ≡ true)) d.contacts
    × All (λ r. user_exists r.created_by d ≡ true) d.rooms
    × All (λ l. user_exists l.owner_id d ≡ true) d.invite_links

-- Every user that is connected has a row, and one connection.
abbrev pub HasConnectedUsers : Property
HasConnectedUsers d cs = All (λ k. user_exists k.0 d ≡ true) cs × DistinctKeys cs

HasDistinctUsers-seen :
    (user : Uuid) (now : ℕ) (us : List User)
    → HasDistinctUsers us
    → HasDistinctUsers (map (seen user now) us)
unfolding seen
HasDistinctUsers-seen user now [] h = tt
HasDistinctUsers-seen user now (u ∷ us) h = ground (
  arith,
  HasDistinctUsers-seen user now us h.1,
  any-map_same (λ v. nat_eq v.user_id u.user_id || v.username == u.username || v.email == u.email)
      (seen user now) (λ v. ground arith) us,
)

pub user_exists-seen :
    (u user : Uuid) (now : ℕ) (us : List User)
    → any (λ v. nat_eq v.user_id u) (map (seen user now) us) ≡ any (λ v. nat_eq v.user_id u) us
unfolding seen
user_exists-seen u user now us = any-map_same _ (seen user now) (λ v. ground arith) us

DistinctRows-inserts_user : (u : User) → Respects DistinctRows (insert_user u)
unfolding insert_user user_conflicts
DistinctRows-inserts_user u d cs h = ground arith

DistinctRows-marks_seen : (u : Uuid) (now : ℕ) → Respects DistinctRows (mark_seen u now)
unfolding mark_seen
DistinctRows-marks_seen u now d cs h = (h.0, HasDistinctUsers-seen u now d.users h.1)

DistinctRows-inserts_room : (r : Room) → Respects DistinctRows (insert_room r)
unfolding insert_room
DistinctRows-inserts_room r d cs h = ground arith

users-upsert_request :
    (r : Contact) (d : Db)
    → HasDistinctUsers d.users
    → HasDistinctUsers (stored d (upsert_request r d)).users
unfolding upsert_request
users-upsert_request r d h = ground arith

users-insert_request_if_new :
    (r : Contact) (d : Db)
    → HasDistinctUsers d.users
    → HasDistinctUsers (stored d (insert_request_if_new r d)).users
unfolding insert_request_if_new
users-insert_request_if_new r d h = ground arith

pub Stable-DistinctRows : Stable DistinctRows
unfolding insert_contact delete_pending delete_accepted delete_between insert_invite use_up
Stable-DistinctRows = record {
  inserts_user = DistinctRows-inserts_user;
  marks_seen = DistinctRows-marks_seen;
  inserts_room = DistinctRows-inserts_room;
  asks = λ id a b now d cs h. (
    IsUnique-upsert_request (new_contact id a b pending now) d h.0,
    users-upsert_request (new_contact id a b pending now) d h.1,
  );
  declines = λ a b d cs h. (HasDistinctPairs-keep _ d.contacts h.0, h.1);
  removes = λ a b d cs h. (HasDistinctPairs-keep _ d.contacts h.0, h.1);
  clears = λ a b d cs h. (HasDistinctPairs-keep _ d.contacts h.0, h.1);
  blocks = λ id a b now d cs h.
      (IsUnique-insert_contact (new_contact id a b blocked now) d h.0, ground arith);
  asks_by_link = λ id a b now d cs h. (
    IsUnique-insert_request_if_new (new_contact id a b pending now) d h.0,
    users-insert_request_if_new (new_contact id a b pending now) d h.1,
  );
  invites = λ id a token now d cs h. ground arith;
  uses = λ id d cs h. h;
}

pub Accepting-DistinctRows : Accepting DistinctRows
unfolding accept_pending
Accepting-DistinctRows a b now d cs h =
    (HasDistinctPairs-map (accept_row a b now) (λ c. ground arith) d.contacts h.0, h.1)

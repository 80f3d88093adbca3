-- ===== src/Database.antt =====
-- db/mod.rs: the statements on users and rooms. A SELECT that expects one row reads the first that
-- matches; `like` stands for the database's ILIKE.
use Prim.Native.String.{count, ◌++◌}
use flutter_21_client.Prelude.{
  ℕ, suc, ◌+◌, String, Bool, true, false, ◌&&◌, ◌||◌, not, Option, none, some, List, ◌∷◌, map, any,
  find, keep, take, is_some, nat_eq, ◌==◌, text_eq, ltb, if◌then◌else◌,
}
use flutter_21_client.Services.{Services, Uuid}
use flutter_21_client.World.{M, ◌>>=◌, read, draw, db_statement, db_query}
use flutter_21_client.World.Tables.{Db, User, Room}

-- What the UNIQUE constraints and the column widths of `users` refuse.
unfoldable pub user_conflicts : Db → User → Bool
user_conflicts d u =
    any (λ v. nat_eq v.user_id u.user_id || v.username == u.username || v.email == u.email) d.users
    || ltb 30 (count u.username)
    || ltb 255 (count u.email)
    || ltb 50 (count u.display_name)

unfoldable pub insert_user : User → Db → Option (User × Db)
unfolding user_conflicts
insert_user u d =
    if user_conflicts d u
    then none
    else some (u, record d { users = u ∷ d.users; next_user = suc d.next_user })

unfoldable pub insert_room : Room → Db → Option (Room × Db)
insert_room r d =
    if any (λ q. nat_eq q.room_id r.room_id) d.rooms
      || not (any (λ u. nat_eq u.user_id r.created_by) d.users)
    then none
    else some (r, record d { rooms = r ∷ d.rooms; next_room = suc d.next_room })

unfoldable pub is_active_user : Uuid → User → Bool
is_active_user user u = nat_eq u.user_id user && u.is_active

unfoldable pub seen : Uuid → ℕ → User → User
seen user now u = if nat_eq u.user_id user then record u { last_seen = now } else u

abbrev pub active_or_false : Option User → Bool
active_or_false none = false
active_or_false (some u) = u.is_active

abbrev pub is_open : Uuid → ℕ → Room → Bool
is_open room now r = nat_eq r.room_id room && r.is_active && ltb now r.expires_at

unfoldable pub mark_seen : Uuid → ℕ → Db → Option (Unit {0} × Db)
unfolding seen
mark_seen user now d = some (tt, record d { users = map (seen user now) d.users })

-- The row of a new user, with the defaults of the table.
abbrev pub user_row :
    (user_id : Uuid) (id now : ℕ) (username email display_name password_hash : String) → User
user_row user_id id now username email display_name password_hash = record {
  id = id;
  user_id = user_id;
  username = username;
  email = email;
  display_name = display_name;
  avatar_url = none;
  password_hash = password_hash;
  is_active = true;
  discoverable = true;
  last_seen = now;
  created_at = now;
  updated_at = now;
}

abbrev pub room_row : (room_id : Uuid) (id now : ℕ) (created_by : Uuid) → Room
room_row room_id id now created_by = record {
  id = id;
  room_id = room_id;
  created_by = created_by;
  is_active = true;
  expires_at = now + 86400000;
  created_at = now;
}

module _ {E : Services} where
  unfoldable pub create_user : (username email display_name password_hash : String) → M E User
  unfolding insert_user draw db_statement
  create_user username email display_name password_hash = do
    n ← draw
    w ← read (λ w. w)
    db_statement (
        insert_user (
          user_row (E.random_uuid n) w.db.next_user w.now username email display_name
            password_hash))

  unfoldable pub find_user_by_identifier : String → M E (Option User)
  unfolding db_query
  find_user_by_identifier identifier = db_query (λ d.
      find (λ u. (u.email == E.lower identifier || u.username == identifier) && u.is_active)
        d.users)

  unfoldable pub find_user_by_id : Uuid → M E (Option User)
  unfolding is_active_user db_query
  find_user_by_id user = db_query (λ d. find (is_active_user user) d.users)

  unfoldable pub user_is_active : Uuid → M E Bool
  unfolding db_query
  user_is_active user = db_query (λ d. active_or_false (find (λ u. nat_eq u.user_id user) d.users))

  unfoldable pub username_exists : String → M E Bool
  unfolding db_query
  username_exists username = db_query (λ d. is_some (find (λ u. u.username == username) d.users))

  unfoldable pub email_exists : String → M E Bool
  unfolding db_query
  email_exists email = db_query (λ d. is_some (find (λ u. u.email == E.lower email) d.users))

  unfoldable pub update_last_seen : Uuid → M E (Unit {0})
  unfolding mark_seen db_statement
  update_last_seen user = do now ← read (λ w. w.now); db_statement (mark_seen user now)

  unfoldable pub search_users : (String → String → Bool) → String → Uuid → M E (List User)
  unfolding db_query
  search_users like query exclude = db_query (λ d. take 20 (
      keep
        (λ u.
          like u.username ("%" ++ (query ++ "%")) && not (nat_eq u.user_id exclude) && u.is_active)
        d.users))

  unfoldable pub create_room : Uuid → M E Room
  unfolding insert_room draw db_statement
  create_room created_by = do
    n ← draw
    w ← read (λ w. w)
    db_statement (insert_room (room_row (E.random_uuid n) w.db.next_room w.now created_by))

  unfoldable pub find_room : Uuid → M E (Option Room)
  unfolding db_query
  find_room room = do now ← read (λ w. w.now); db_query (λ d. find (is_open room now) d.rooms)

-- ===== src/Routes.antt =====
-- routes/mod.rs: looking up users and rooms.
use Prim.Native.String.{len, ◌++◌}
use flutter_21_client.Prelude.{String, Option, none, some, List, map, ltb}
use flutter_21_client.Errors.{bad_request, not_found}
use flutter_21_client.Services.{Services, Uuid}
use flutter_21_client.World.{M, pure, or_fail, ◌>>=◌, ◌>>◌}
use flutter_21_client.World.Tables.{User, PublicUser, public_user}
use flutter_21_client.Config.{Config}
use flutter_21_client.Auth.{AuthUser, reject_if}
use flutter_21_client.Database as Db

pub record RoomResponse : Type 0 where
  pub room_id : Uuid
  pub link : String
  pub expires_at : String

-- The answer of `get_room`.
pub record RoomInfo : Type 0 where
  pub room_id : Uuid
  pub created_by : Option PublicUser
  pub expires_at : String

abbrev pub public_option : Option User → Option PublicUser
public_option none = none
public_option (some u) = some (public_user u)

module _ {E : Services} where
  unfoldable pub get_user : Uuid → M E PublicUser
  unfolding Db.find_user_by_id public_user
  get_user user_id = do
    found ← Db.find_user_by_id user_id
    user ← or_fail found (not_found "User not found")
    pure (public_user user)

  unfoldable pub search_users : AuthUser → String → M E (List PublicUser)
  unfolding Db.search_users public_user
  search_users auth q = do
    reject_if (ltb (len q) 2) (bad_request "Query must be at least 2 chars")
    users ← Db.search_users E.ilike q auth.user_id
    pure (map public_user users)

  unfoldable pub create_room : Config E → AuthUser → M E RoomResponse
  unfolding Db.create_room
  create_room c auth = do
    room ← Db.create_room auth.user_id
    pure (record {
      room_id = room.room_id;
      link = c.app_base_url ++ ("/join/" ++ E.show_uuid room.room_id);
      expires_at = E.to_rfc3339 room.expires_at;
    })

  unfoldable pub get_room : Uuid → M E RoomInfo
  unfolding Db.find_room Db.find_user_by_id public_user
  get_room room_id = do
    found ← Db.find_room room_id
    room ← or_fail found (not_found "Room not found or expired")
    creator ← Db.find_user_by_id room.created_by
    pure (record {
      room_id = room.room_id;
      created_by = public_option creator;
      expires_at = E.to_rfc3339 room.expires_at;
    })

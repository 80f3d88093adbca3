-- ===== src/World/Tables.antt =====
-- db/mod.rs: the tables of the PostgreSQL schema (`MIGRATIONS`) and the rows that queries return.
-- Times are milliseconds since 1970.
use flutter_21_client.Prelude.{ℕ, String, Bool, Option, List}
use flutter_21_client.Services.{Uuid}

pub record User : Type 0 where
  pub id : ℕ
  pub user_id : Uuid
  pub username : String
  pub email : String
  pub display_name : String
  pub avatar_url : Option String
  pub password_hash : String
  pub is_active : Bool
  pub discoverable : Bool
  pub last_seen : ℕ
  pub created_at : ℕ
  pub updated_at : ℕ

pub record PublicUser : Type 0 where
  pub user_id : Uuid
  pub username : String
  pub display_name : String
  pub avatar_url : Option String
  pub last_seen : ℕ

unfoldable pub public_user : User → PublicUser
public_user u = record {
  user_id = u.user_id;
  username = u.username;
  display_name = u.display_name;
  avatar_url = u.avatar_url;
  last_seen = u.last_seen;
}

pub record Room : Type 0 where
  pub id : ℕ
  pub room_id : Uuid
  pub created_by : Uuid
  pub is_active : Bool
  pub expires_at : ℕ
  pub created_at : ℕ

-- The values that the CHECK constraint of `contacts.status` admits.
pub data Status : Type 0 where
  pending accepted blocked : Status

pub record Contact : Type 0 where
  pub id : Uuid
  pub requester_id : Uuid
  pub target_id : Uuid
  pub status : Status
  pub created_at : ℕ
  pub updated_at : ℕ

-- An SQL INTEGER; `negative n` is -(n + 1). Its 32-bit range is not checked.
pub data Integer : Type 0 where
  natural : ℕ → Integer
  negative : ℕ → Integer

pub record InviteLink : Type 0 where
  pub id : Uuid
  pub owner_id : Uuid
  pub token : String
  pub uses_left : Integer
  pub expires_at : ℕ
  pub created_at : ℕ

pub record Db : Type 0 where
  pub users : List User
  pub rooms : List Room
  pub contacts : List Contact
  pub invite_links : List InviteLink
  -- BIGSERIAL counters
  pub next_user : ℕ
  pub next_room : ℕ

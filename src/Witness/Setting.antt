-- ===== src/Witness/Setting.antt =====
-- The outside world and the state that the witnesses start from: the users 1, 2 and 3, of whom 1 and
-- 2 are contacts and 1 has asked 3; user 3 has an invite link; user 2 is connected, by socket 7.
use flutter_21_client.Prelude.{String, true, none, [], ◌∷◌}
use flutter_21_client.Services.{Services, Uuid}
use flutter_21_client.World.{World}
use flutter_21_client.World.Tables.{Db, User, pending, accepted, InviteLink, natural}
use flutter_21_client.Config.{Config}
use flutter_21_client.Auth.{AuthUser}
use flutter_21_client.Contacts.Statements.{new_contact}
use flutter_21_client.Witness.Keyspace.{memory_server, empty_memory}
use flutter_21_client.Witness.Crates.{small_codec}

abbrev pub small : Services
small = record { redis_server = memory_server; codec = small_codec }

abbrev pub settings : Config small
settings = record {
  port = 8080;
  database_url = "postgres";
  redis_url = "redis";
  jwt_access_secret = "access";
  jwt_refresh_secret = "refresh";
  jwt_access_exp_secs = 60;
  jwt_refresh_exp_secs = 60;
  signaling_secret = "secret";
  app_base_url = "https://voice";
  allowed_origins = [];
  auth_rate_per_minute = 10;
  api_rate_per_minute = 100;
  turn_urls = none;
  turn_username = none;
  turn_credential = none;
}

abbrev pub person : Uuid → String → User
person u name = record {
  id = u;
  user_id = u;
  username = name;
  email = name;
  display_name = name;
  avatar_url = none;
  password_hash = "password";
  is_active = true;
  discoverable = true;
  last_seen = 0;
  created_at = 0;
  updated_at = 0;
}

abbrev pub invite_link : InviteLink
invite_link = record {
  id = 20;
  owner_id = 3;
  token = "once";
  uses_left = natural 1;
  expires_at = 86400000;
  created_at = 0;
}

abbrev pub tables : Db
tables = record {
  users = person 1 "ann" ∷ person 2 "bob" ∷ person 3 "cleo" ∷ [];
  rooms = [];
  contacts = new_contact 10 1 2 accepted 0 ∷ new_contact 11 1 3 pending 0 ∷ [];
  invite_links = invite_link ∷ [];
  next_user = 4;
  next_room = 0;
}

abbrev pub start : World small
start = record {
  store = empty_memory;
  redis_outcomes = [];
  published = [];
  db = tables;
  db_outcomes = [];
  connections = (2, 7) ∷ [];
  sent = [];
  now = 0;
  drawn = 1;
}

abbrev pub ann : AuthUser
ann = record { user_id = 1; display_name = "ann" }

abbrev pub bob : AuthUser
bob = record { user_id = 2; display_name = "bob" }

abbrev pub cleo : AuthUser
cleo = record { user_id = 3; display_name = "cleo" }

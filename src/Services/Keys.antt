-- ===== src/Services/Keys.antt =====
-- The keys of the Redis keyspace, db/redis_store.rs and signaling/server.rs. A key is kept as its
-- prefix and arguments; `key_text` is the text that `format!` makes of it.
use flutter_21_client.Prelude.{ℕ, String, Bool, false, ◌&&◌, nat_eq, text_eq, ◌==◌}
use Prim.Native.String.{◌++◌}

-- The uuid crate's 128-bit value, read as a number.
abbrev pub Uuid : Type 0
Uuid = ℕ

-- Keys that hold a text.
pub data Key : Type 0 where
  refresh : Uuid → String → Key
  online busy : Uuid → Key
  room_host room_joiner : String → Key

-- Keys that hold a list of texts.
pub data ListKey : Type 0 where
  refresh_list : Uuid → ListKey

unfoldable pub key_text : (Uuid → String) → Key → String
key_text show (refresh u jti) = "rt:" ++ (show u ++ (":" ++ jti))
key_text show (online u) = "online:" ++ show u
key_text show (busy u) = "busy:" ++ show u
key_text show (room_host r) = "room_host:" ++ r
key_text show (room_joiner r) = "room_joiner:" ++ r

unfoldable pub list_key_text : (Uuid → String) → ListKey → String
list_key_text show (refresh_list u) = "rt_list:" ++ show u

abbrev pub key_eq : Key → Key → Bool
key_eq (refresh u j) (refresh v k) = nat_eq u v && (j == k)
key_eq (online u) (online v) = nat_eq u v
key_eq (busy u) (busy v) = nat_eq u v
key_eq (room_host r) (room_host s) = r == s
key_eq (room_joiner r) (room_joiner s) = r == s
key_eq _ _ = false

abbrev pub list_key_eq : ListKey → ListKey → Bool
list_key_eq (refresh_list u) (refresh_list v) = nat_eq u v

-- ===== src/Services.antt =====
-- What server-rust calls and does not implement: the Redis server, and the crates uuid, serde_json,
-- jsonwebtoken, aes-gcm, hex, argon2 and regex. Each is a record of operations and of the documented
-- laws that the server relies on; `Services` bundles them.
mod Keys
mod Keyspace
mod Crates
unfoldable pub use Keys.*
pub use Keyspace.*
pub use Crates.*

pub record Services : Type 1 where
  pub redis_server : Redis
  pub open redis_server use *
  pub codec : Codec
  pub open codec use *

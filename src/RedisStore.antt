-- ===== src/RedisStore.antt =====
-- db/redis_store.rs: refresh tokens, presence and the busy mark, as commands of the Redis server.
-- A key is `Key` or `ListKey`; the children show the keys' texts distinct and the tokens' laws.
pub mod Keys
pub mod Tokens
pub mod Sessions
use flutter_21_client.Prelude.{ℕ, String, Bool, Option, List, [], ◌∷◌, is_some}
use flutter_21_client.Services.{Services, Uuid, Key, ListKey, refresh, online, busy, refresh_list}
use flutter_21_client.World.{M, ◌>>=◌, ◌>>◌, redis_command, redis_query}

module _ (E : Services) where
  -- The presence of a key, which EXISTS reports.
  abbrev pub exists : Key → E.Store → Bool
  exists k s = is_some (E.value k s)

  -- The DELs of a pipeline, in their order.
  unfoldable pub delete_tokens : Uuid → List String → E.Store → E.Store
  delete_tokens user [] s = s
  delete_tokens user (jti ∷ jtis) s = delete_tokens user jtis (E.del (refresh user jti) s)

module _ {E : Services} where
  -- Redis takes the life time: it is positive and below its bound for SETEX and EXPIRE.
  unfoldable pub store_refresh_token : Uuid → String → ℕ → M E (Unit {0})
  unfolding redis_command
  store_refresh_token user jti exp_secs = do
    redis_command (E.set_ex (refresh user jti) "1" exp_secs)
    redis_command (E.lpush (refresh_list user) jti)
    redis_command (E.ltrim (refresh_list user) 9)
    redis_command (E.expire (refresh_list user) exp_secs)

  unfoldable pub is_refresh_token_valid : Uuid → String → M E Bool
  unfolding redis_query
  is_refresh_token_valid user jti = redis_query (exists E (refresh user jti))

  unfoldable pub revoke_refresh_token : Uuid → String → M E (Unit {0})
  unfolding redis_command
  revoke_refresh_token user jti = redis_command (E.del (refresh user jti))

  -- The pipeline travels as one request; that other clients' commands may fall between its DELs is left
  -- out.
  unfoldable pub revoke_all_refresh_tokens : Uuid → M E (Unit {0})
  unfolding redis_command redis_query
  revoke_all_refresh_tokens user = do
    jtis ← redis_query (E.items (refresh_list user))
    redis_command (λ s. E.del_list (refresh_list user) (delete_tokens E user jtis s))

  unfoldable pub set_online : Uuid → M E (Unit {0})
  unfolding redis_command
  set_online user = redis_command (E.set_ex (online user) "1" 60)

  unfoldable pub set_offline : Uuid → M E (Unit {0})
  unfolding redis_command
  set_offline user = redis_command (E.del (online user))

  unfoldable pub is_online : Uuid → M E Bool
  unfolding redis_query
  is_online user = redis_query (exists E (online user))

  unfoldable pub set_busy : Uuid → String → M E (Unit {0})
  unfolding redis_command
  set_busy user call_id = redis_command (E.set_ex (busy user) call_id 300)

  unfoldable pub clear_busy : Uuid → M E (Unit {0})
  unfolding redis_command
  clear_busy user = redis_command (E.del (busy user))

  unfoldable pub is_busy : Uuid → M E Bool
  unfolding redis_query
  is_busy user = redis_query (exists E (busy user))

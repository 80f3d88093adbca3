-- ===== src/RedisStore/Tokens.antt =====
-- db/redis_store.rs: what storing, revoking and revoking all does to refresh tokens.
use flutter_21_client.Prelude.{
  ℕ, ◌<◌, String, ◌≡◌, none, some, List, [], ◌∷◌, arith, any, ◌==◌, if◌then◌else◌, text_eq, nat_eq,
}
use flutter_21_client.Services.{Services, Uuid, Key, refresh, refresh_list, key_eq}
use flutter_21_client.Errors.{ok}
use flutter_21_client.World.{World, redis_command}
use flutter_21_client.RedisStore.{delete_tokens, store_refresh_token}

module _ (E : Services) where
  -- After the pipeline's DELs exactly the listed tokens of the user are gone.
  pub value-delete_tokens :
      (user u : Uuid) (jti : String) (jtis : List String) (s : E.Store)
      → E.value (refresh u jti) (delete_tokens E user jtis s) ≡ (
          if nat_eq user u
          then (if any (λ j. j == jti) jtis then none else E.value (refresh u jti) s)
          else E.value (refresh u jti) s)
  unfolding delete_tokens
  value-delete_tokens user u jti [] s = ground arith
  value-delete_tokens user u jti (j ∷ jtis) s = ground (
    arith,
    value-delete_tokens user u jti jtis (E.del (refresh user j) s),
    E.value-del (refresh u jti) (refresh user j) s,
  )

  -- What a successful `store_refresh_token` leaves.
  abbrev pub stored_token : Uuid → String → ℕ → E.Store → E.Store
  stored_token user jti t s =
      let l = refresh_list user in
      E.expire l t (E.ltrim l 9 (E.lpush l jti (E.set_ex (refresh user jti) "1" t s)))

  pub value-stored_token :
      (k : Key) (user : Uuid) (jti : String) (t : ℕ) (s : E.Store)
      → 0 < t
      → E.value k (stored_token user jti t s)
        ≡ (if key_eq (refresh user jti) k then some "1" else E.value k s)
  value-stored_token k user jti t s h =
      rw (E.value-expire, E.value-ltrim, E.value-lpush)
        (E.value-set_ex k (refresh user jti) "1" t s h)

module _ {E : Services} where
  -- A command that succeeds was carried out, and touched nothing but the keyspace.
  pub redis_command-ok :
      (f : E.Store → E.Store) (w : World E)
      → (redis_command f w).0 ≡ ok tt
      → ((redis_command f w).1.store ≡ f w.store)
        × ((redis_command f w).1.db ≡ w.db)
        × ((redis_command f w).1.now ≡ w.now)
        × ((redis_command f w).1.drawn ≡ w.drawn)
  unfolding redis_command
  redis_command-ok f w h = ground arith

  pub store_refresh_token-ok :
      (user : Uuid) (jti : String) (t : ℕ) (w : World E)
      → (store_refresh_token user jti t w).0 ≡ ok tt
      → (store_refresh_token user jti t w).1.store ≡ stored_token E user jti t w.store
  unfolding store_refresh_token
  store_refresh_token-ok user jti t w h = ground arith

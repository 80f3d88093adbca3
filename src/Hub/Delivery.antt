-- ===== src/Hub/Delivery.antt =====
-- signaling/hub.rs: what the table of connections keeps.
use flutter_21_client.Prelude.{
  none, some, ◌≡◌, arith, lookup, DistinctKeys, insert-DistinctKeys, remove-DistinctKeys,
  lookup-insert, lookup-remove, uuid_eq, nat_eq, if◌then◌else◌,
}
use flutter_21_client.Services.{Services, Uuid}
use flutter_21_client.World.{World, WsTx}
use flutter_21_client.Hub.{register, deregister}

module _ {E : Services} where
  -- Registering and leaving keep one connection for a user. After registering, the user is reached
  -- by the new socket and every other user as before; after leaving, the user is not connected and
  -- every other user is reached as before.
  pub connections_lem :
      (user other : Uuid) (tx : WsTx) (w : World E)
      → DistinctKeys w.connections
      → DistinctKeys (register user tx w).connections
        × DistinctKeys (deregister user w).connections
        × (lookup other (register user tx w).connections
            ≡ (if nat_eq user other then some tx else lookup other w.connections))
        × (lookup other (deregister user w).connections
            ≡ (if nat_eq user other then none else lookup other w.connections))
  unfolding register deregister
  connections_lem user other tx w d = (
    ground (arith, insert-DistinctKeys user tx w.connections d),
    remove-DistinctKeys user w.connections d,
    ground (arith, lookup-insert user other tx w.connections),
    lookup-remove user other w.connections,
  )

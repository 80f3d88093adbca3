-- ===== src/Hub.antt =====
-- signaling/hub.rs: the WebSocket connections of this instance, and delivery to a user, here or by
-- the Redis channel. Serialising a `HubMessage` does not fail. The gauge and the logs are left out.
pub mod Delivery
use flutter_21_client.Prelude.{
  Bool, Option, none, some, List, [], ◌∷◌, lookup, insert, remove, contains_key, uuid_eq,
}
use flutter_21_client.Errors.{ok}
use flutter_21_client.Services.{Services, Uuid}
use flutter_21_client.World.{World, M, WsTx, redis_publish}
use flutter_21_client.World.Events.{Event, session_replaced, HubMessage}

module _ {E : Services} where
  -- `tx.send`: the channel is unbounded, so sending never waits.
  abbrev pub send : WsTx → Event → World E → World E
  send tx e w = record w { sent = (tx, e) ∷ w.sent }

  abbrev pub send_if : Option WsTx → Event → World E → World E
  send_if none e w = w
  send_if (some tx) e w = send tx e w

  unfoldable pub register : Uuid → WsTx → World E → World E
  register user tx w =
      let w' = send_if (lookup user w.connections) session_replaced w in
      record w' { connections = insert user tx w'.connections }

  unfoldable pub deregister : Uuid → World E → World E
  deregister user w = record w { connections = remove user w.connections }

  unfoldable pub is_connected : Uuid → World E → Bool
  is_connected user w = contains_key user w.connections

  -- Local delivery, or publication for another instance.
  unfoldable pub send_to : Uuid → Event → M E (Unit {0})
  unfolding redis_publish
  send_to to message w = elim (lookup to w.connections) [
    | some tx ↦ (ok tt, send tx message w)
    | none ↦ redis_publish (record { addressee = to; payload = message }) w
  ]

  -- One round of the loop that `spawn_redis_subscriber` starts, on a message that parsed; another text
  -- is passed over.
  unfoldable pub deliver_published : HubMessage → World E → World E
  deliver_published m w = send_if (lookup m.addressee w.connections) m.payload w

-- ===== src/System/Steps.antt =====
-- main.rs and signaling/server.rs: the server at work. A request, a frame and the end of a socket are
-- one step each; between them time passes, and the outside servers' coming outcomes are anything.
use flutter_21_client.Prelude.{
  ℕ, suc, ◌+◌, ◌*◌, Option, none, some, List, ◌≡◌, lookup, insert, remove, uuid_eq,
}
use flutter_21_client.Services.{Services, Uuid}
use flutter_21_client.World.{World, WsTx, Outcome}
use flutter_21_client.World.Events.{HubMessage}
use flutter_21_client.Config.{Config}
use flutter_21_client.Middleware.{Headers}
use flutter_21_client.Hub.{deliver_published}
use flutter_21_client.Api.{Endpoint, serve}
use flutter_21_client.Signaling.Socket.{Frame, Flow, continues, breaks, handle_frame, cleanup}

pub record Server (E : Services) : Type 0 where
  pub world : World E
  -- The tasks that run `handle_socket`, each with its variable `user_id`.
  pub sockets : List (WsTx × Option Uuid)
  -- How many channels were made; a new one takes this number.
  pub opened : ℕ

module _ {E : Services} (c : Config E) where
  unfoldable pub served : Headers → Endpoint → Server E → Server E
  served headers e s = record s { world = (serve c headers e s.world).1 }

  unfoldable pub open_socket : Server E → Server E
  open_socket s = record s { sockets = insert s.opened none s.sockets; opened = suc s.opened }

  unfoldable pub close_socket : WsTx → Option Uuid → World E → Server E → Server E
  close_socket tx user_id w s = record s {
    world = cleanup E c tx user_id w;
    sockets = remove tx s.sockets;
  }

  -- What the read loop does with the flow of a frame.
  unfoldable pub after_frame : WsTx → Flow × World E → Server E → Server E
  unfolding close_socket
  after_frame tx (continues user_id, w) s = record s {
    world = w;
    sockets = insert tx user_id s.sockets;
  }
  after_frame tx (breaks user_id, w) s = close_socket tx user_id w s

  unfoldable pub received : HubMessage → Server E → Server E
  received m s = record s { world = deliver_published m s.world }

  unfoldable pub passed : ℕ → List Outcome → List Outcome → Server E → Server E
  passed seconds redis db s = record s {
    world = record s.world {
      now = s.world.now + seconds * 1000;
      store = E.advance seconds s.world.store;
      redis_outcomes = redis;
      db_outcomes = db;
    };
  }

  infix 40 ◌⟶◌
  pub data ◌⟶◌ : Server E → Server E → Type 0 where
    requests : {s : Server E} (headers : Headers) (e : Endpoint) → s ⟶ served headers e s
    opens : {s : Server E} → s ⟶ open_socket s
    reads :
        {s : Server E} (tx : WsTx) (user_id : Option Uuid) (f : Frame)
        → lookup tx s.sockets ≡ some user_id
        → s ⟶ after_frame tx (handle_frame E c tx user_id f s.world) s
    ends :
        {s : Server E} (tx : WsTx) (user_id : Option Uuid)
        → lookup tx s.sockets ≡ some user_id
        → s ⟶ close_socket tx user_id s.world s
    receives : {s : Server E} (m : HubMessage) → s ⟶ received m s
    waits : {s : Server E} (seconds : ℕ) (redis db : List Outcome) → s ⟶ passed seconds redis db s

  infix 40 ◌⟶*◌
  pub data ◌⟶*◌ : Server E → Server E → Type 0 where
    here : {s : Server E} → s ⟶* s
    after : {s t u : Server E} → s ⟶* t → t ⟶ u → s ⟶* u

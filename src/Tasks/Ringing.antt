-- ===== src/Tasks/Ringing.antt =====
-- signaling/server.rs between the steps of the requests: who can be rung.
use flutter_21_client.Prelude.{◌<◌, false, true, Option, some, [], ◌≡◌, refl}
use flutter_21_client.Services.{Services, Uuid}
use flutter_21_client.World.{WsTx}
use flutter_21_client.Config.{Config}
use flutter_21_client.Contacts.Statements.{is_contact}
use flutter_21_client.Signaling.CallGate.{rings}
use flutter_21_client.Signaling.Socket.{Frame, handle_frame}
use flutter_21_client.System.Ringing.{callee, handle_frame-rings}
use flutter_21_client.Tasks.Pool.{Pool, ◌⟶*◌}
use flutter_21_client.Tasks.Links.{LinksPool, contacts_asked}

module _ {E : Services} (c : Config E) (tx : WsTx) where
  -- From a state without contact rows and without requests in progress, in whatever order the steps
  -- of the requests and the other work follow each other: when a frame on a socket makes the server
  -- hand out a `call-incoming`, the socket speaks for a user, that user and the one whom the frame
  -- names are contacts, and on the way a pending request of one of the two to the other was accepted.
  pub rung_amid_steps :
      (p q : Pool E) (user_id : Option Uuid) (f : Frame)
      → ◌⟶*◌ c p q
      → p.tasks ≡ []
      → p.server.world.db.contacts ≡ []
      → rings q.server.world < rings (handle_frame E c tx user_id f q.server.world).1
      → (sender : Uuid) × (to : Uuid) × (u : Pool E) × (v : Pool E) × (user_id ≡ some sender)
        × (callee E f ≡ some to)
        × (is_contact sender to q.server.world.db ≡ true)
        × (◌⟶*◌ c p u)
        × LinksPool sender to c u v
        × (◌⟶*◌ c v q)
  rung_amid_steps p q user_id f way empty no_rows h =
      let (sender, to, speaks, named, linked) =
        handle_frame-rings c tx user_id f q.server.world h in
      let none_yet : is_contact sender to p.server.world.db ≡ false = rw no_rows refl in
      let (u, v, before, links, on) = contacts_asked sender to c p q way empty none_yet linked in
      (sender, to, u, v, speaks, named, linked, before, links, on)

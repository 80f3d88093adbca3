-- ===== src/Signaling/Stale.antt =====
-- signaling/server.rs and signaling/hub.rs: connections of users with more than one socket, and
-- sockets with more than one user.
use flutter_21_client.Prelude.{
  true, false, Option, none, some, List, [], ◌∷◌, ◌≡◌, ◌≢◌, inl, inr, sym, subst, ap, arith, lookup,
  insert, remove, lookup-insert, lookup-remove, uuid_eq, nat_eq_iff,
}
use flutter_21_client.Services.{Services, Uuid}
use flutter_21_client.World.{World, WsTx}
use flutter_21_client.Config.{Config}
use flutter_21_client.Hub.{is_connected}
use flutter_21_client.Signaling.Socket.{
  Frame, close, continues, handle_frame, cleanup, handle_socket,
}
use flutter_21_client.Signaling.Sessions.{handle_frame-FrameResult, FrameResult}

module _ (E : Services) (c : Config E) where
  pub cleanup-connections :
      (tx : WsTx) (user : Uuid) (w : World E)
      → (cleanup E c tx (some user) w).connections ≡ remove user w.connections
  unfolding cleanup
  cleanup-connections tx user w = ground arith

  -- When the table has another socket for a user than an older one that speaks for the same user,
  -- closing the older socket takes the newer connection out: the user was connected and is not
  -- connected any more.
  pub stale_cleanup :
      (old new : WsTx) (user : Uuid) (w : World E)
      → old ≢ new
      → lookup user w.connections ≡ some new
      → (is_connected user w ≡ true)
        × (is_connected user (handle_socket E c old (some user) (close ∷ []) w) ≡ false)
  unfolding is_connected handle_socket handle_frame
  stale_cleanup old new user w other here = (
    ground arith,
    rw (cleanup-connections old user w)
        (ground (arith, lookup-remove user user w.connections, nat_eq_iff user user)),
  )

  -- The user that a socket speaks for after a frame that let it go on is among its connections.
  admitted_lem :
      (tx : WsTx) (before : Option Uuid) (user : Uuid) (f : Frame) (w v : World E)
      → FrameResult E c tx before w (continues (some user), v)
      → before ≢ some user
      → v.connections ≡ insert user tx w.connections
  admitted_lem tx before user f w v (inl (same, _)) ne = absurd (ne (sym same))
  admitted_lem tx before user f w v (inr (u, e, _, h)) ne = cc

  handle_socket_step :
      (tx : WsTx) (before after : Option Uuid) (f : Frame) (fs : List Frame) (w v : World E)
      → handle_frame E c tx before f w ≡ (continues after, v)
      → handle_socket E c tx before (f ∷ fs) w ≡ handle_socket E c tx after fs v
  unfolding handle_socket
  handle_socket_step tx before after f fs w v e =
      rw (e, handle_socket) (ap (λ p. handle_socket E c tx after fs p.1) e)

  -- A socket that authenticates as one user and then as another one leaves the first user
  -- connected: when it has closed, the first user is still in the table, with the closed socket.
  pub second_user_leaks :
      (tx : WsTx) (first second : Uuid) (f g : Frame) (w v x : World E)
      → first ≢ second
      → handle_frame E c tx none f w ≡ (continues (some first), v)
      → handle_frame E c tx (some first) g v ≡ (continues (some second), x)
      → lookup first (handle_socket E c tx none (f ∷ g ∷ []) w).connections ≡ some tx
  unfolding handle_socket
  second_user_leaks tx first second f g w v x apart ef eg =
      let rf = subst (FrameResult E c tx none w) ef (handle_frame-FrameResult E c tx none f w) in
      let rg =
        subst (FrameResult E c tx (some first) v) eg
          (handle_frame-FrameResult E c tx (some first) g v) in
      let hf = admitted_lem tx none first f w v rf (λ e. cc) in
      let hg = admitted_lem tx (some first) second g v x rg (λ e. ground arith) in
      rw
        (
          handle_socket_step tx none (some first) f (g ∷ []) w v ef,
          handle_socket_step tx (some first) (some second) g [] v x eg,
          handle_socket,
          cleanup-connections tx second x,
        )
        (ground (
          arith,
          hf,
          hg,
          lookup-insert first first tx w.connections,
          lookup-insert second first tx v.connections,
          lookup-remove second first x.connections,
          nat_eq_iff second first,
          nat_eq_iff first first,
        ))

-- ===== src/Signaling/Ends.antt =====
-- signaling/server.rs, `handle_socket`: how a connection ends.
use flutter_21_client.Prelude.{
  Option, none, some, List, [], ◌∷◌, ◌≡◌, ◌≢◌, refl, sym, ◌∙◌, arith, lookup, lookup-remove,
  uuid_eq, nat_eq_iff, inl, inr,
}
use flutter_21_client.Services.{Services, Uuid}
use flutter_21_client.World.{World, WsTx}
use flutter_21_client.Config.{Config}
use flutter_21_client.Signaling.Socket.{
  Frame, Flow, continues, breaks, handle_frame, cleanup, handle_socket,
}
use flutter_21_client.Signaling.Sessions.{FrameResult, handle_frame-FrameResult}
use flutter_21_client.Signaling.Stale.{cleanup-connections}

module _ (E : Services) (c : Config E) (tx : WsTx) where
  -- The rounds of the read loop on the frames that the socket yields: from a value of the variable
  -- `user_id` and a state to the last value and the state after the last round. The frames end, a
  -- round breaks the loop, or it goes on.
  pub data Reads : Option Uuid → List Frame → World E → Option Uuid → World E → Type 0 where
    ends : {u : Option Uuid} {w : World E} → Reads u [] w u w
    stops :
        {u last : Option Uuid} {f : Frame} {fs : List Frame} {w v : World E}
        → handle_frame E c tx u f w ≡ (breaks last, v)
        → Reads u (f ∷ fs) w last v
    goes_on :
        {u next last : Option Uuid} {f : Frame} {fs : List Frame} {w w' v : World E}
        → handle_frame E c tx u f w ≡ (continues next, w')
        → Reads next fs w' last v
        → Reads u (f ∷ fs) w last v

  -- A socket ended in the state: the cleanup ran for the last user after the last round. Without a last
  -- user the connections are those from before the first frame; the last user is not connected any
  -- more, and the others are as after the last round.
  abbrev pub EndsWith : Option Uuid → World E → Option Uuid → World E → World E → Type 0
  EndsWith user_id w last v final =
      (final ≡ cleanup E c tx last v)
      × (last ≡ none → final.connections ≡ w.connections)
      × ((user : Uuid) → last ≡ some user → lookup user final.connections ≡ none)
      × ((user other : Uuid)
          → last ≡ some user
          → other ≢ user
          → lookup other final.connections ≡ lookup other v.connections)
      × (user_id ≢ none → last ≢ none)

  cleanup-leaves :
      (last : Option Uuid) (w : World E) (user : Uuid)
      → last ≡ some user
      → lookup user (cleanup E c tx last w).connections ≡ none
  cleanup-leaves none w user h = cc
  cleanup-leaves (some v) w user h =
      rw (cleanup-connections E c tx v w)
        (ground (arith, h, lookup-remove v user w.connections, nat_eq_iff v user))

  cleanup-keeps :
      (last : Option Uuid) (w : World E) (user other : Uuid)
      → last ≡ some user
      → other ≢ user
      → lookup other (cleanup E c tx last w).connections ≡ lookup other w.connections
  cleanup-keeps none w user other h apart = cc
  cleanup-keeps (some v) w user other h apart =
      rw (cleanup-connections E c tx v w)
        (ground (arith, h, lookup-remove v other w.connections, nat_eq_iff v other))

  cleanup_of_none :
      (last : Option Uuid) (w : World E)
      → last ≡ none
      → (cleanup E c tx last w).connections ≡ w.connections
  unfolding cleanup
  cleanup_of_none none w h = refl
  cleanup_of_none (some v) w h = cc

  EndsWith-cleanup :
      (user_id last : Option Uuid) (w v : World E)
      → last ≡ user_id
      → (last ≡ none → v.connections ≡ w.connections)
      → EndsWith user_id w last v (cleanup E c tx last v)
  EndsWith-cleanup user_id last w v same kept = (
    refl,
    λ nobody. cleanup_of_none last v nobody ∙ kept nobody,
    cleanup-leaves last v,
    cleanup-keeps last v,
    λ some_user e. some_user (sym same ∙ e),
  )

  -- A round before the others.
  EndsWith-after :
      (user_id u : Option Uuid) (w v : World E) (last : Option Uuid) (x final : World E)
      → FrameResult E c tx user_id w (continues u, v)
      → EndsWith u v last x final
      → EndsWith user_id w last x final
  EndsWith-after user_id u w v last x final (inl (same, table)) (run, kept, left, others, stays) =
      (run, λ nobody. kept nobody ∙ table, left, others, λ h. stays (λ e. h (sym same ∙ e)))
  EndsWith-after user_id u w v last x final (inr (user, is_user, _, _))
        (run, kept, left, others, stays) =
      let someone : last ≢ none = stays (λ e. cc) in
      (run, λ nobody. absurd (someone nobody), left, others, λ h. someone)

  abbrev Ended : Option Uuid → List Frame → World E → World E → Type 0
  Ended user_id fs w final =
      (last : Option Uuid) × (v : World E) × Reads user_id fs w last v
      × EndsWith user_id w last v final

  rest-ends :
      (user_id : Option Uuid) (f : Frame) (fs : List Frame) (w : World E) (r : Flow × World E)
      → ((u : Option Uuid) (v : World E) → Ended u fs v (handle_socket E c tx u fs v))
      → handle_frame E c tx user_id f w ≡ r
      → FrameResult E c tx user_id w r
      → Ended user_id (f ∷ fs) w (elim r.0 [
        | continues u ↦ handle_socket E c tx u fs r.1
        | breaks u ↦ cleanup E c tx u r.1
      ])
  rest-ends user_id f fs w (continues u, v) rest round h =
      let (last, x, reads, result) = rest u v in
      (
        last,
        x,
        goes_on round reads,
        EndsWith-after user_id u w v last x (handle_socket E c tx u fs v) h result,
      )
  rest-ends user_id f fs w (breaks u, v) rest round h =
      (u, v, stops round, EndsWith-cleanup user_id u w v h.0 (λ _. h.1))

  -- Whatever frames a socket yields, its read loop comes to a last user, if any, and a state, by the
  -- rounds of its frames, and the cleanup for this user runs in that state. A last user is not
  -- connected any more, and all others are as they were after the last round; without one, the
  -- connections are as before the first frame. A socket that spoke for a user at first ends with a
  -- user.
  pub handle_socket-EndsWith :
      (user_id : Option Uuid) (fs : List Frame) (w : World E)
      → (last : Option Uuid) × (v : World E) × Reads user_id fs w last v
        × EndsWith user_id w last v (handle_socket E c tx user_id fs w)
  unfolding handle_socket
  handle_socket-EndsWith user_id [] w =
      (user_id, w, ends, EndsWith-cleanup user_id user_id w w refl (λ _. refl))
  handle_socket-EndsWith user_id (f ∷ fs) w =
      rest-ends user_id f fs w (handle_frame E c tx user_id f w)
        (λ u v. handle_socket-EndsWith u fs v) refl (handle_frame-FrameResult E c tx user_id f w)

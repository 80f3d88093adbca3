-- ===== src/System/Invariant.antt =====
-- The server at work: the schema's constraints hold throughout, and the connections and sockets fit
-- the users and the channels.
use flutter_21_client.Prelude.{uuid_eq}
use flutter_21_client.Services.{Services}
use flutter_21_client.World.{World, WsTx}
use flutter_21_client.Config.{Config}
use flutter_21_client.Signaling.Socket.{Flow, continues, breaks, handle_frame}
use flutter_21_client.System.Stable.{Property, Stable, Accepting}
use flutter_21_client.System.Serving.{Keeps-serve}
use flutter_21_client.System.Sockets.{
  Entering, Leaving, Holds-handle_frame, Holds-cleanup, Holds-deliver_published,
}
use flutter_21_client.System.Steps.{
  Server, served, open_socket, close_socket, after_frame, received, passed, ◌⟶◌, requests, opens,
  reads, ends, receives, waits,
}

-- A property of the tables and the connections that the whole server keeps.
pub record Invariant (P : Property) : Type 0 where
  pub stable : Stable P
  pub accepting : Accepting P
  pub entering : (tx : WsTx) → Entering P tx
  pub leaving : Leaving P

module _ {E : Services} (c : Config E) (P : Property) where
  abbrev Holds : World E → Type 0
  Holds w = P w.db w.connections

  pub Holds-after_frame :
      (tx : WsTx) (s : Server E) (r : Flow × World E)
      → Stable P
      → Leaving P
      → Holds r.1
      → Holds (after_frame c tx r s).world
  unfolding after_frame close_socket
  Holds-after_frame tx s (continues u, v) stable leaving q = q
  Holds-after_frame tx s (breaks u, v) stable leaving q =
      Holds-cleanup E P stable c tx leaving u v q

  pub Invariant-step : Invariant P → (s t : Server E) → ◌⟶◌ c s t → Holds s.world → Holds t.world
  unfolding served open_socket close_socket received passed
  Invariant-step i s _ (requests headers e) p =
      Keeps-serve E P c headers i.stable e (λ r h. i.accepting) s.world p
  Invariant-step i s _ opens p = p
  Invariant-step i s _ (reads tx user_id f is_open) p =
      Holds-after_frame tx s (handle_frame E c tx user_id f s.world) i.stable i.leaving
        (Holds-handle_frame E P i.stable c tx (i.entering tx) user_id f s.world p)
  Invariant-step i s _ (ends tx user_id is_open) p =
      Holds-cleanup E P i.stable c tx i.leaving user_id s.world p
  Invariant-step i s _ (receives m) p = Holds-deliver_published E P m s.world p
  Invariant-step i s _ (waits seconds redis db) p = p

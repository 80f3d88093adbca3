-- ===== src/System/Valid.antt =====
-- The server at work: what holds in every state that it reaches.
use flutter_21_client.Prelude.{
  ℕ, suc, ◌<◌, true, Option, none, List, [], ◌∷◌, ◌≡◌, refl, arith, All-imp, All-insert, All-remove,
  All-lookup, insert-DistinctKeys, remove-DistinctKeys, uuid_eq, nat_eq, any, find, inl, inr,
}
use flutter_21_client.Services.{Services, Uuid}
use flutter_21_client.World.{World, WsTx}
use flutter_21_client.World.Tables.{Db, User}
use flutter_21_client.Config.{Config}
use flutter_21_client.Database.{active_or_false}
use flutter_21_client.Contacts.Statements.{user_exists}
use flutter_21_client.Signaling.Socket.{Flow, continues, breaks, handle_frame}
use flutter_21_client.Signaling.Sessions.{FrameResult, handle_frame-FrameResult}
use flutter_21_client.System.Stable.{Property, Stable, Accepting}
use flutter_21_client.System.Integrity.{
  DistinctRows, HasReferences, HasConnectedUsers, Stable-DistinctRows, Accepting-DistinctRows,
}
use flutter_21_client.System.References.{
  Grows, Stable-HasReferences, Accepting-HasReferences, Stable-of-growth, Accepting-of-growth,
  HasConnectedUsers-Grows,
}
use flutter_21_client.System.Serving.{Keeps-serve}
use flutter_21_client.System.Sockets.{
  Entering, Leaving, Holds-handle_frame, Holds-cleanup, Holds-deliver_published,
}
use flutter_21_client.System.Steps.{
  Server, served, open_socket, close_socket, after_frame, received, passed, ◌⟶◌, requests, opens,
  reads, ends, receives, waits, ◌⟶*◌, here, after,
}
use flutter_21_client.System.Channels.{
  HasChannels, Speaks, SocketsFit, SocketsFit-insert, SocketsFit-remove, SocketsFit-suc,
  SocketsFit-Grows,
}
use flutter_21_client.System.Invariant.{Invariant, Invariant-step, Holds-after_frame}

exists_of_active :
    (user : Uuid) (us : List User)
    → active_or_false (find (λ u. nat_eq u.user_id user) us) ≡ true
    → any (λ v. nat_eq v.user_id user) us ≡ true
exists_of_active user [] h = cc
exists_of_active user (u ∷ us) h = ground (arith, exists_of_active user us)

Invariant-DistinctRows : Invariant DistinctRows
Invariant-DistinctRows = record {
  stable = Stable-DistinctRows;
  accepting = Accepting-DistinctRows;
  entering = λ tx user d cs active p. p;
  leaving = λ user d cs p. p;
}

Invariant-HasReferences : Invariant HasReferences
Invariant-HasReferences = record {
  stable = Stable-HasReferences;
  accepting = Accepting-HasReferences;
  entering = λ tx user d cs active p. p;
  leaving = λ user d cs p. p;
}

Invariant-HasConnectedUsers : Invariant HasConnectedUsers
Invariant-HasConnectedUsers = record {
  stable = Stable-of-growth HasConnectedUsers HasConnectedUsers-Grows;
  accepting = Accepting-of-growth HasConnectedUsers HasConnectedUsers-Grows;
  entering = λ tx user d cs active p. (
    All-insert (λ k. user_exists k.0 d ≡ true) user tx cs (exists_of_active user d.users active)
        p.0,
    insert-DistinctKeys user tx cs p.1,
  );
  leaving = λ user d cs p.
      (All-remove (λ k. user_exists k.0 d ≡ true) user cs p.0, remove-DistinctKeys user cs p.1);
}

abbrev Exists : Uuid → Property
Exists u d cs = user_exists u d ≡ true

Invariant-Exists : (u : Uuid) → Invariant (Exists u)
Invariant-Exists u = record {
  stable = Stable-of-growth (Exists u) (λ d e cs more. more u);
  accepting = Accepting-of-growth (Exists u) (λ d e cs more. more u);
  entering = λ tx user d cs active p. p;
  leaving = λ user d cs p. p;
}

module _ {E : Services} where
  abbrev pub HasSockets : Server E → Type 0
  HasSockets s = SocketsFit s.world.db s.opened s.sockets

  abbrev pub IsValid : Server E → Type 0
  IsValid s =
      DistinctRows s.world.db s.world.connections
      × HasReferences s.world.db s.world.connections
      × HasConnectedUsers s.world.db s.world.connections
      × HasChannels s.opened s.world.db s.world.connections
      × HasSockets s

  -- A state that has kept what every statement keeps, with the sockets and channels as they were.
  pub IsValid-world :
      (s : Server E) (w : World E)
      → ((P : Property)
          → Stable P
          → Accepting P
          → P s.world.db s.world.connections
          → P w.db w.connections)
      → IsValid s
      → IsValid (record s { world = w })
  IsValid-world s w keeps h = (
    keeps DistinctRows Stable-DistinctRows Accepting-DistinctRows h.0,
    keeps HasReferences Stable-HasReferences Accepting-HasReferences h.1,
    keeps HasConnectedUsers Invariant-HasConnectedUsers.stable Invariant-HasConnectedUsers.accepting
        h.2,
    keeps (HasChannels s.opened) (Stable-of-growth (HasChannels s.opened) (λ d e cs more b. b))
        (Accepting-of-growth (HasChannels s.opened) (λ d e cs more b. b)) h.3,
    SocketsFit-Grows s.world.db s.opened s.sockets w.db
        (λ u. keeps (Exists u) (Invariant-Exists u).stable (Invariant-Exists u).accepting) h.4,
  )

  module _ (c : Config E) where
    Grows-step : (s t : Server E) → ◌⟶◌ c s t → Grows s.world.db t.world.db
    Grows-step s t step u h = Invariant-step c (Exists u) (Invariant-Exists u) s t step h

    -- The user of a frame's flow has a row if the user before had one.
    abbrev FlowSpeaks : Db → Flow × World E → Type 0
    FlowSpeaks d (continues u, v) = Speaks d u
    FlowSpeaks d (breaks u, v) = Unit

    FlowSpeaks-FrameResult :
        (tx : WsTx) (user_id : Option Uuid) (w : World E) (r : Flow × World E)
        → FrameResult E c tx user_id w r
        → Speaks w.db user_id
        → FlowSpeaks w.db r
    FlowSpeaks-FrameResult tx user_id w (breaks u, v) h p = tt
    FlowSpeaks-FrameResult tx user_id w (continues u, v) (inl (same, _)) p = rw same p
    FlowSpeaks-FrameResult tx user_id w (continues u, v)
          (inr (user, same, (_, (_, _, _, active)), _)) p =
        rw same (exists_of_active user w.db.users active)

    SocketsFit-after_frame :
        (tx : WsTx) (s : Server E) (r : Flow × World E)
        → tx < s.opened
        → FlowSpeaks s.world.db r
        → HasSockets s
        → SocketsFit s.world.db (after_frame c tx r s).opened (after_frame c tx r s).sockets
    unfolding after_frame close_socket
    SocketsFit-after_frame tx s (continues u, v) below speaks h =
        SocketsFit-insert s.world.db s.opened s.sockets tx u below speaks h
    SocketsFit-after_frame tx s (breaks u, v) below speaks h =
        SocketsFit-remove s.world.db s.opened s.sockets tx h

    SocketsFit-step :
        (s t : Server E) → ◌⟶◌ c s t → HasSockets s → SocketsFit s.world.db t.opened t.sockets
    unfolding served open_socket close_socket received passed
    SocketsFit-step s _ (requests headers e) h = h
    SocketsFit-step s _ opens h =
        SocketsFit-insert s.world.db (suc s.opened) s.sockets s.opened none (omega arith) tt
          (SocketsFit-suc s.world.db s.opened s.sockets h)
    SocketsFit-step s _ (reads tx user_id f is_open) h =
        SocketsFit-after_frame tx s (handle_frame E c tx user_id f s.world)
          (All-lookup (λ k. k.0 < s.opened) tx user_id s.sockets h.1 is_open)
          (FlowSpeaks-FrameResult tx user_id s.world (handle_frame E c tx user_id f s.world)
            (handle_frame-FrameResult E c tx user_id f s.world)
            (All-lookup (λ k. Speaks s.world.db k.1) tx user_id s.sockets h.2 is_open))
          h
    SocketsFit-step s _ (ends tx user_id is_open) h =
        SocketsFit-remove s.world.db s.opened s.sockets tx h
    SocketsFit-step s _ (receives m) h = h
    SocketsFit-step s _ (waits seconds redis db) h = h

    opened-after_frame :
        (tx : WsTx) (r : Flow × World E) (s : Server E) → (after_frame c tx r s).opened ≡ s.opened
    unfolding after_frame close_socket
    opened-after_frame tx (continues u, v) s = refl
    opened-after_frame tx (breaks u, v) s = refl

    module _ (n : ℕ) where
      Stable-HasChannels : Stable (HasChannels n)
      Stable-HasChannels = Stable-of-growth (HasChannels n) (λ d e cs more h. h)

      Leaving-HasChannels : Leaving (HasChannels n)
      Leaving-HasChannels user d cs h = All-remove (λ k. k.1 < n) user cs h

      Entering-HasChannels : (tx : WsTx) → tx < n → Entering (HasChannels n) tx
      Entering-HasChannels tx below user d cs active h =
          All-insert (λ k. k.1 < n) user tx cs below h

    HasChannels-step :
        (s t : Server E)
        → ◌⟶◌ c s t
        → HasSockets s
        → HasChannels s.opened s.world.db s.world.connections
        → HasChannels t.opened t.world.db t.world.connections
    unfolding served open_socket close_socket received passed
    HasChannels-step s _ (requests headers e) fit h =
        Keeps-serve E (HasChannels s.opened) c headers (Stable-HasChannels s.opened) e
          (λ r same. Accepting-of-growth (HasChannels s.opened) (λ d e cs more h. h)) s.world h
    HasChannels-step s _ opens fit h = All-imp (λ k b. omega (arith, b)) s.world.connections h
    HasChannels-step s _ (reads tx user_id f is_open) fit h =
        let below = All-lookup (λ k. k.0 < s.opened) tx user_id s.sockets fit.1 is_open in
        rw (opened-after_frame tx (handle_frame E c tx user_id f s.world) s) (
          Holds-after_frame c (HasChannels s.opened) tx s (handle_frame E c tx user_id f s.world)
            (Stable-HasChannels s.opened) (Leaving-HasChannels s.opened)
            (Holds-handle_frame E (HasChannels s.opened) (Stable-HasChannels s.opened) c tx
              (Entering-HasChannels s.opened tx below) user_id f s.world h))
    HasChannels-step s _ (ends tx user_id is_open) fit h =
        Holds-cleanup E (HasChannels s.opened) (Stable-HasChannels s.opened) c tx
          (Leaving-HasChannels s.opened) user_id s.world h
    HasChannels-step s _ (receives m) fit h =
        Holds-deliver_published E (HasChannels s.opened) m s.world h
    HasChannels-step s _ (waits seconds redis db) fit h = h

    pub IsValid-step : (s t : Server E) → ◌⟶◌ c s t → IsValid s → IsValid t
    IsValid-step s t step h = (
      Invariant-step c DistinctRows Invariant-DistinctRows s t step h.0,
      Invariant-step c HasReferences Invariant-HasReferences s t step h.1,
      Invariant-step c HasConnectedUsers Invariant-HasConnectedUsers s t step h.2,
      HasChannels-step s t step h.4 h.3,
      SocketsFit-Grows s.world.db t.opened t.sockets t.world.db (Grows-step s t step)
          (SocketsFit-step s t step h.4),
    )

    -- Whatever requests, frames, ends of sockets, published messages and waiting times follow each
    -- other, and however the calls of Redis and of the database end: from a valid state the server
    -- only reaches valid ones. There, no two users share a user id, a name or an address, no two
    -- contact rows have one requester and one target, every user that a contact, a room or an invite
    -- link names has a row, every connected user has a row and one connection, over a channel that was
    -- made, and every socket has its own channel and speaks for nobody or for a user who has a row.
    pub IsValid-reach : (s t : Server E) → ◌⟶*◌ c s t → IsValid s → IsValid t
    IsValid-reach s _ here h = h
    IsValid-reach s _ (after {t = t} {u = u} before step) h =
        IsValid-step t u step (IsValid-reach s t before h)

-- ===== src/System/Channels.antt =====
-- The channels and the sockets of the server at work, apart from its steps.
use flutter_21_client.Prelude.{
  ℕ, suc, ◌<◌, true, Option, none, some, List, ◌≡◌, arith, All, All-imp, All-insert, All-remove,
  DistinctKeys, insert-DistinctKeys, remove-DistinctKeys, insert, remove, uuid_eq,
}
use flutter_21_client.Services.{Uuid}
use flutter_21_client.World.{WsTx}
use flutter_21_client.World.Tables.{Db}
use flutter_21_client.Contacts.Statements.{user_exists}
use flutter_21_client.System.Stable.{Property}
use flutter_21_client.System.References.{Grows}

-- Every connection goes over a channel that was made.
abbrev pub HasChannels : ℕ → Property
HasChannels n d cs = All (λ k. k.1 < n) cs

-- The user that a socket speaks for has a row.
abbrev pub Speaks : Db → Option Uuid → Type 0
Speaks d none = Unit
Speaks d (some user) = user_exists user d ≡ true

-- Each socket has a channel of its own, one that was made.
abbrev pub SocketsFit : Db → ℕ → List (WsTx × Option Uuid) → Type 0
SocketsFit d n ss = DistinctKeys ss × All (λ k. k.0 < n) ss × All (λ k. Speaks d k.1) ss

pub Speaks-Grows :
    (d e : Db) (user_id : Option Uuid) → Grows d e → Speaks d user_id → Speaks e user_id
Speaks-Grows d e none more h = tt
Speaks-Grows d e (some user) more h = more user h

module _ (d : Db) (n : ℕ) (ss : List (WsTx × Option Uuid)) where
  pub SocketsFit-insert :
      (tx : WsTx) (user_id : Option Uuid)
      → tx < n
      → Speaks d user_id
      → SocketsFit d n ss
      → SocketsFit d n (insert tx user_id ss)
  SocketsFit-insert tx user_id below speaks h = (
    insert-DistinctKeys tx user_id ss h.0,
    All-insert (λ k. k.0 < n) tx user_id ss below h.1,
    All-insert (λ k. Speaks d k.1) tx user_id ss speaks h.2,
  )

  pub SocketsFit-remove : (tx : WsTx) → SocketsFit d n ss → SocketsFit d n (remove tx ss)
  SocketsFit-remove tx h = (
    remove-DistinctKeys tx ss h.0,
    All-remove (λ k. k.0 < n) tx ss h.1,
    All-remove (λ k. Speaks d k.1) tx ss h.2,
  )

  pub SocketsFit-suc : SocketsFit d n ss → SocketsFit d (suc n) ss
  SocketsFit-suc h = (h.0, All-imp (λ k b. omega (arith, b)) ss h.1, h.2)

  pub SocketsFit-Grows : (e : Db) → Grows d e → SocketsFit d n ss → SocketsFit e n ss
  SocketsFit-Grows e more h = (h.0, h.1, All-imp (λ k. Speaks-Grows d e k.1 more) ss h.2)

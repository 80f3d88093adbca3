-- ===== src/Tasks/Valid.antt =====
-- main.rs at work: what holds in every state, with the account requests split into their steps.
use flutter_21_client.Prelude.{
  ℕ, some, List, [], All, All-insert, All-lookup, lookup, uuid_eq, ◌≡◌, sym, subst,
}
use flutter_21_client.Services.{Services}
use flutter_21_client.World.{World}
use flutter_21_client.Config.{Config}
use flutter_21_client.System.Stable.{Property}
use flutter_21_client.System.Invariant.{Invariant, Invariant-step}
use flutter_21_client.System.Valid.{IsValid, IsValid-world, IsValid-step}
use flutter_21_client.Tasks.{Task, step}
use flutter_21_client.Tasks.Requests.{Reply, begin}
use flutter_21_client.Tasks.Pool.{
  Pool, arrived, polled, ◌⟶◌, arrives, polls, elsewhere, ◌⟶*◌, here, after,
}
use flutter_21_client.Tasks.Steady.{StepKeeps, StepKeeps-kind, Steady}
use flutter_21_client.Tasks.Steady.Requests.{Steady-begin}

module _ {E : Services} where
  abbrev pub HasSteady : List (ℕ × Task E Reply) → Type 1
  HasSteady ts = All (λ k. Steady k.1) ts

  -- The task that takes a step, apart: its step and its rest.
  pub HasSteady-lookup :
      (n : ℕ) (f : World E → World E) (next : World E → Task E Reply) (ts : List (ℕ × Task E Reply))
      → HasSteady ts
      → lookup n ts ≡ some (step f next)
      → Steady (step f next)
  HasSteady-lookup n f next ts h at = All-lookup (λ k. Steady k.1) n (step f next) ts h at

module _ {E : Services} (c : Config E) where
  pub HasSteady-step : (p q : Pool E) → ◌⟶◌ c p q → HasSteady p.tasks → HasSteady q.tasks
  unfolding arrived polled Steady
  HasSteady-step p _ (arrives r) h =
      All-insert (λ k. Steady k.1) p.begun (begin c r) p.tasks (Steady-begin E c r) h
  HasSteady-step p _ (polls n f next at) h =
      All-insert (λ k. Steady k.1) n (next p.server.world) p.tasks
        ((HasSteady-lookup n f next p.tasks h at).1 p.server.world) h
  HasSteady-step p _ (elsewhere s there) h = h

  -- A property that the whole server keeps is kept by the steps of the tasks too.
  pub Invariant-pool :
      (P : Property)
      → Invariant P
      → (p q : Pool E) → ◌⟶◌ c p q
      → HasSteady p.tasks
      → P p.server.world.db p.server.world.connections
      → P q.server.world.db q.server.world.connections
  unfolding arrived polled Steady StepKeeps
  Invariant-pool P i p _ (arrives r) h x = x
  Invariant-pool P i p _ (polls n f next at) h x =
      StepKeeps-kind f (HasSteady-lookup n f next p.tasks h at).0 P i.stable i.accepting
        p.server.world x
  Invariant-pool P i p _ (elsewhere s there) h x = Invariant-step c P i p.server s there x

  IsValid-pool_step :
      (p q : Pool E) → ◌⟶◌ c p q → HasSteady p.tasks → IsValid p.server → IsValid q.server
  unfolding arrived polled Steady StepKeeps
  IsValid-pool_step p _ (arrives r) h x = x
  IsValid-pool_step p _ (polls n f next at) h x =
      IsValid-world p.server (f p.server.world)
        (λ P stable accepting.
          StepKeeps-kind f (HasSteady-lookup n f next p.tasks h at).0 P stable accepting
            p.server.world)
        x
  IsValid-pool_step p _ (elsewhere s there) h x = IsValid-step c p.server s there x

  pub HasSteady-path : (p q : Pool E) → ◌⟶*◌ c p q → HasSteady p.tasks → HasSteady q.tasks
  HasSteady-path p _ here h = h
  HasSteady-path p _ (after {q = q} {r = r} before move) h =
      HasSteady-step q r move (HasSteady-path p q before h)

  IsValid-path :
      (p q : Pool E) → ◌⟶*◌ c p q → HasSteady p.tasks → IsValid p.server → IsValid q.server
  IsValid-path p _ here h x = x
  IsValid-path p _ (after {q = q} {r = r} before move) h x =
      IsValid-pool_step q r move (HasSteady-path p q before h) (IsValid-path p q before h x)

  pub HasSteady-empty : (p : Pool E) → p.tasks ≡ [] → HasSteady p.tasks
  HasSteady-empty p none_begun = subst HasSteady (sym none_begun) tt

  -- From a valid state without requests in progress the runtime only reaches valid states, in
  -- whatever order the requests of accounts and those of contacts that write arrive, take their steps
  -- one call of Redis or the database at a time, and fall between each other and the other work: no
  -- two users share a user id, a name or an address, no two contact rows have one requester and one
  -- target, every user that a row names has a row, every connected user has a row and one connection,
  -- over a channel that was made, and every socket has its own channel and speaks for nobody or for a
  -- user who has a row.
  pub IsValid-pool :
      (p q : Pool E) → ◌⟶*◌ c p q → p.tasks ≡ [] → IsValid p.server → IsValid q.server
  IsValid-pool p q path none_begun x = IsValid-path p q path (HasSteady-empty p none_begun) x

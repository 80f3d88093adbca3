-- ===== src/Tasks/Pool.antt =====
-- The runtime at work: the tasks of account requests take their steps in any order, between the steps
-- of the server (`System.Steps`), where every other request is served in one.
use flutter_21_client.Prelude.{ℕ, suc, some, List, ◌≡◌, lookup, insert, uuid_eq}
use flutter_21_client.Services.{Services}
use flutter_21_client.World.{World}
use flutter_21_client.Config.{Config}
use flutter_21_client.System.Steps.{Server}
use flutter_21_client.System.Steps as Steps
use flutter_21_client.Tasks.{Task, step}
use flutter_21_client.Tasks.Requests.{Request, Reply, begin}

pub record Pool (E : Services) : Type 0 where
  pub server : Server E
  pub tasks : List (ℕ × Task E Reply)
  -- How many tasks were made; a new one takes this number.
  pub begun : ℕ

module _ {E : Services} where
  -- The next step of a task that stands before `step f next`.
  unfoldable pub polled : ℕ → (World E → World E) → (World E → Task E Reply) → Pool E → Pool E
  polled n f next p = record p {
    server = record p.server { world = f p.server.world };
    tasks = insert n (next p.server.world) p.tasks;
  }

module _ {E : Services} (c : Config E) where
  unfoldable pub arrived : Request → Pool E → Pool E
  arrived r p = record p { tasks = insert p.begun (begin c r) p.tasks; begun = suc p.begun }

  infix 40 ◌⟶◌
  pub data ◌⟶◌ : Pool E → Pool E → Type 0 where
    arrives : {p : Pool E} (r : Request) → p ⟶ arrived r p
    polls :
        {p : Pool E} (n : ℕ) (f : World E → World E) (next : World E → Task E Reply)
        → lookup n p.tasks ≡ some (step f next)
        → p ⟶ polled n f next p
    elsewhere : {p : Pool E} (s : Server E) → Steps.◌⟶◌ c p.server s → p ⟶ record p { server = s }

  infix 40 ◌⟶*◌
  pub data ◌⟶*◌ : Pool E → Pool E → Type 0 where
    here : {p : Pool E} → p ⟶* p
    after : {p q r : Pool E} → p ⟶* q → q ⟶ r → p ⟶* r

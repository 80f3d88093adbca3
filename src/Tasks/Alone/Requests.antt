-- ===== src/Tasks/Alone/Requests.antt =====
-- routes/auth.rs and routes/contacts.rs: a request in steps, run without a pause, is served as by its
-- handler.
use flutter_21_client.Prelude.{◌≡◌}
use flutter_21_client.Errors.{ok}
use flutter_21_client.Services.{Services}
use flutter_21_client.World.{World, M, pure, ◌>>=◌}
use flutter_21_client.Config.{Config}
use flutter_21_client.Auth.{register, login, refresh, logout}
use flutter_21_client.Tasks.{Task, run, Does, Does-bind}
use flutter_21_client.Tasks.Requests.{
  Request, registers, logs_in, refreshes, logs_out, Reply, signed_in, renewed, says, replies, begin,
}
use flutter_21_client.Contacts.Permission.{handle}
use flutter_21_client.Tasks.Requests.{turns_to}
use flutter_21_client.Tasks.Alone.{Does-ended}
use flutter_21_client.Tasks.Alone.Accounts.{Does-register, Does-login, Does-refresh, Does-logout}
use flutter_21_client.Tasks.Alone.Contacts.{Does-handle}

module _ (E : Services) (c : Config E) where
  -- The handler of `Auth` or `Contacts` that the router calls for a request.
  abbrev pub serve_request : Request → M E Reply
  serve_request (registers body) = register c body >>= λ r. pure (signed_in r)
  serve_request (logs_in body) = login c body >>= λ r. pure (signed_in r)
  serve_request (refreshes token) = refresh c token >>= λ r. pure (renewed r)
  serve_request (logs_out auth body) = logout c auth body >>= λ r. pure (says r)
  serve_request (turns_to auth r) = handle c auth r >>= λ r. pure (says r)

  pub Does-replies :
      {A : Type 0} (f : A → Reply) (t : Task E A) (m : M E A)
      → Does t m
      → Does (replies f t) (m >>= λ a. pure (f a))
  unfolding replies
  Does-replies f t m h = Does-bind _ _ _ _ h λ a. Does-ended E (ok (f a))

  -- A request whose steps follow each other without a step of anything else does what its handler
  -- does: it gives the same answer and leaves the same state.
  pub run-begin : (r : Request) (w : World E) → run (begin c r) w ≡ serve_request r w
  unfolding Does begin
  run-begin (registers body) = Does-replies signed_in _ _ (Does-register E c body)
  run-begin (logs_in body) = Does-replies signed_in _ _ (Does-login E c body)
  run-begin (refreshes token) = Does-replies renewed _ _ (Does-refresh E c token)
  run-begin (logs_out auth body) = Does-replies says _ _ (Does-logout E c auth body)
  run-begin (turns_to auth r) = Does-replies says _ _ (Does-handle E c auth r)

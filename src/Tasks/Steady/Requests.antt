-- ===== src/Tasks/Steady/Requests.antt =====
-- main.rs: no step of a request's task breaks what every statement of the server keeps.
use flutter_21_client.Prelude.{uuid_eq}
use flutter_21_client.Errors.{ok}
use flutter_21_client.Services.{Services}
use flutter_21_client.Config.{Config}
use flutter_21_client.Tasks.{Task}
use flutter_21_client.Tasks.Requests.{
  Request, registers, logs_in, refreshes, logs_out, Reply, signed_in, renewed, says, replies, begin,
}
use flutter_21_client.Tasks.Requests.{turns_to}
use flutter_21_client.Tasks.Steady.{Steady, Steady-bind, Steady-finished}
use flutter_21_client.Tasks.Steady.Accounts.{
  Steady-register, Steady-login, Steady-refresh, Steady-logout,
}
use flutter_21_client.Tasks.Steady.Contacts.{Steady-contact}

module _ (E : Services) (c : Config E) where
  Steady-replies : {A : Type 0} (f : A → Reply) (t : Task E A) → Steady t → Steady (replies f t)
  unfolding replies
  Steady-replies f t h = Steady-bind t _ h λ a. Steady-finished E (ok (f a))

  pub Steady-begin : (r : Request) → Steady (begin c r)
  unfolding begin
  Steady-begin (registers body) = Steady-replies signed_in _ (Steady-register E c body)
  Steady-begin (logs_in body) = Steady-replies signed_in _ (Steady-login E c body)
  Steady-begin (refreshes token) = Steady-replies renewed _ (Steady-refresh E c token)
  Steady-begin (logs_out auth body) = Steady-replies says _ (Steady-logout E c auth body)
  Steady-begin (turns_to auth r) = Steady-replies says _ (Steady-contact E c auth r)

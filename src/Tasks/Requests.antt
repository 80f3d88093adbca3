-- ===== src/Tasks/Requests.antt =====
-- main.rs, the routes of accounts and contacts that write, with their handlers as tasks.
use flutter_21_client.Prelude.{String}
use flutter_21_client.Services.{Services}
use flutter_21_client.Config.{Config}
use flutter_21_client.Auth.{
  RegisterRequest, LoginRequest, LogoutRequest, AuthUser, AuthResponse, Tokens,
}
use flutter_21_client.Contacts.Permission.{Request as ContactRequest}
use flutter_21_client.Tasks.{Task, ◌>>=◌}
use flutter_21_client.Tasks.Accounts.{
  ended, register_steps, login_steps, refresh_steps, logout_steps,
}
use flutter_21_client.Tasks.ContactSteps.{contact_steps}

-- What the router hands to these handlers; the user of a log-out and of a request about contacts is
-- the one of `require_auth`.
pub data Request : Type 0 where
  registers : RegisterRequest → Request
  logs_in : LoginRequest → Request
  refreshes : String → Request
  logs_out : AuthUser → LogoutRequest → Request
  turns_to : AuthUser → ContactRequest → Request

pub data Reply : Type 0 where
  signed_in : AuthResponse → Reply
  renewed : Tokens → Reply
  says : String → Reply

module _ {E : Services} where
  unfoldable pub replies : {A : Type 0} → (A → Reply) → Task E A → Task E Reply
  replies f t = t >>= λ a. ended (f a)

  unfoldable pub begin : Config E → Request → Task E Reply
  begin c (registers body) = replies signed_in (register_steps c body)
  begin c (logs_in body) = replies signed_in (login_steps c body)
  begin c (refreshes token) = replies renewed (refresh_steps c token)
  begin c (logs_out auth body) = replies says (logout_steps c auth body)
  begin c (turns_to auth r) = replies says (contact_steps c auth r)

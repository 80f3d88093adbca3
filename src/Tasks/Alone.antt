-- ===== src/Tasks/Alone.antt =====
-- A handler whose steps follow each other without a pause, and the same handler as one action: the
-- parts that both are made of.
pub mod Accounts
pub mod Contacts
pub mod Requests
use flutter_21_client.Prelude.{
  ℕ, String, Bool, true, false, none, some, Option, ◌≡◌, refl, if◌then◌else◌,
}
use flutter_21_client.Errors.{ok, err, ApiResult}
use flutter_21_client.Services.{Services, Uuid, Claims}
use flutter_21_client.World.{World, M, pure, ◌>>=◌}
use flutter_21_client.Config.{Config}
use flutter_21_client.RedisStore.{store_refresh_token, revoke_all_refresh_tokens}
use flutter_21_client.Auth.{
  RegisterRequest, LoginRequest, LogoutRequest, AuthUser, register, login, refresh, rotate,
  revoke_sessions, issue_tokens, logout, revoke_one, revoke_if_ok, wants_all,
}
use flutter_21_client.Tasks
use flutter_21_client.Tasks.{Task, call, finished, run, Does, Does-bind, Does-call}
use flutter_21_client.Tasks.Accounts.{
  store_token_steps, revoke_all_steps, issue_steps, enter_steps, register_steps, login_steps,
  rotate_steps, revoke_sessions_steps, refresh_steps, revoke_if_ok_steps, revoke_one_steps,
  logout_steps,
}
use flutter_21_client.Tasks.Requests.{
  Request, registers, logs_in, refreshes, logs_out, Reply, signed_in, renewed, says, replies, begin,
}

module _ (E : Services) where
  pub Does-ended : {A : Type 0} (r : ApiResult A) → Does {E = E} (finished r) (λ w. (r, w))
  unfolding Does run
  Does-ended r w = refl

  pub Does-if :
      {A : Type 0} (b : Bool) (t u : Task E A) (m n : M E A)
      → Does t m
      → Does u n
      → Does (if b then t else u) (if b then m else n)
  Does-if true t u m n ht hu = ht
  Does-if false t u m n ht hu = hu

  -- A step and what follows it.
  pub Does-next :
      {A B : Type 0} (m : M E A) (k : A → Task E B) (l : A → M E B)
      → ((a : A) → Does (k a) (l a))
      → Does (Tasks.◌>>=◌ (call m) k) (m >>= l)
  Does-next m k l h = Does-bind (call m) k m l (Does-call m) h

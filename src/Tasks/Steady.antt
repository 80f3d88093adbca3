-- ===== src/Tasks/Steady.antt =====
-- A task none of whose steps breaks what every statement of the server keeps.
pub mod Accounts
pub mod Contacts
pub mod Requests
use flutter_21_client.Prelude.{
  ℕ, String, Bool, not, Option, none, some, true, false, if◌then◌else◌, uuid_eq,
}
use flutter_21_client.Errors.{ok, err, ApiResult, unauthorized, conflict}
use flutter_21_client.Services.{Services, Uuid, Claims}
use flutter_21_client.World.{World, M}
use flutter_21_client.World.Keeps.{
  Keeps, Keeps-command, Keeps-redis_query, Keeps-lift, Keeps-or_fail, Keeps-attempt,
}
use flutter_21_client.Config.{Config}
use flutter_21_client.Jwt.{
  jwt_service, verify_refresh, verify, generate_access_token, generate_refresh_token,
}
use flutter_21_client.Crypto.{verify_password}
use flutter_21_client.Auth.{RegisterRequest, LoginRequest, LogoutRequest, AuthUser, wants_all}
use flutter_21_client.System.Stable.{
  Property, Stable, Accepting, Keeps-reject_if, Keeps-hash_password, Keeps-create_user,
  Keeps-update_last_seen,
}
use flutter_21_client.System.Accounts.{
  Keeps-find_user_by_identifier, Keeps-username_exists, Keeps-email_exists, Keeps-sign,
  Keeps-verify, Keeps-is_refresh_token_valid, Keeps-revoke_refresh_token,
}
use flutter_21_client.World.Keeps.{Keeps-bind, Keeps-statement, Keeps-read}
use flutter_21_client.Contacts.Statements.{accept_pending}
use flutter_21_client.Prelude.{◌⊎◌, inl, inr, refl, ◌≡◌}
use flutter_21_client.Tasks.Writes.{store_acceptance}
use flutter_21_client.Tasks.{Task, finished, step, call, ◌>>=◌}
use flutter_21_client.Tasks.Accounts.{
  store_token_steps, revoke_all_steps, issue_steps, enter_steps, register_steps, login_steps,
  rotate_steps, revoke_sessions_steps, refresh_steps, revoke_if_ok_steps, revoke_one_steps,
  logout_steps,
}
use flutter_21_client.Tasks.Requests.{
  Request, registers, logs_in, refreshes, logs_out, Reply, signed_in, renewed, says, replies, begin,
}

module _ (E : Services) where
  Keeps-store_acceptance :
      (P : Property) → Accepting P → (a b : Uuid) → Keeps {E = E} P (store_acceptance a b)
  unfolding store_acceptance
  Keeps-store_acceptance P accepting a b =
      Keeps-bind P _ _ (Keeps-read E P (λ w. w.now))
        λ now. Keeps-statement E P (accept_pending a b now) (accepting a b now)

module _ {E : Services} where
  -- A change of the state keeps what every statement keeps.
  unfoldable pub StepKeeps : (World E → World E) → Type 1
  StepKeeps f =
      (P : Property)
      → Stable P
      → Accepting P
      → (w : World E) → P w.db w.connections
      → P (f w).db (f w).connections

  -- It keeps what every statement but the acceptance keeps.
  unfoldable pub IsOrdinary : (World E → World E) → Type 1
  IsOrdinary f =
      (P : Property)
      → Stable P
      → (w : World E) → P w.db w.connections
      → P (f w).db (f w).connections

  -- It is the statement that accepts a request of the first user to the second one.
  unfoldable pub IsAcceptance : (World E → World E) → Type 0
  IsAcceptance f =
      (requester : Uuid) × (target : Uuid) × ((w : World E)
        → f w ≡ (store_acceptance requester target w).1)

  -- Every step of the task is one or the other.
  unfoldable pub Steady : {A : Type 0} → Task E A → Type 1
  Steady (finished r) = Unit
  Steady (step f next) = (IsOrdinary f ⊎ IsAcceptance f) × ((w : World E) → Steady (next w))

  pub StepKeeps-kind : (f : World E → World E) → IsOrdinary f ⊎ IsAcceptance f → StepKeeps f
  unfolding StepKeeps IsOrdinary IsAcceptance Keeps
  StepKeeps-kind f (inl ordinary) P stable accepting w h = ordinary P stable w h
  StepKeeps-kind f (inr (requester, target, same)) P stable accepting w h =
      rw (same w) (Keeps-store_acceptance E P accepting requester target w h)

  pub Steady-bind :
      {A B : Type 0} (t : Task E A) (k : A → Task E B)
      → Steady t
      → ((a : A) → Steady (k a))
      → Steady (t >>= k)
  unfolding Steady ◌>>=◌
  Steady-bind (finished (ok a)) k h hk = hk a
  Steady-bind (finished (err e)) k h hk = tt
  Steady-bind (step f next) k h hk = (h.0, λ w. Steady-bind (next w) k (h.1 w) hk)

  pub Steady-call :
      {A : Type 0} (m : M E A) → ((P : Property) → Stable P → Keeps P m) → Steady (call m)
  unfolding Steady IsOrdinary call Keeps
  Steady-call m keeps = (inl keeps, λ w. tt)

  pub Steady-next :
      {A B : Type 0} (m : M E A) (k : A → Task E B)
      → ((P : Property) → Stable P → Keeps P m)
      → ((a : A) → Steady (k a))
      → Steady (call m >>= k)
  Steady-next m k keeps hk = Steady-bind (call m) k (Steady-call m keeps) hk

  pub Steady-if :
      {A : Type 0} (b : Bool) (t u : Task E A) → Steady t → Steady u → Steady (if b then t else u)
  Steady-if true t u ht hu = ht
  Steady-if false t u ht hu = hu

  pub Steady-acceptance :
      {A : Type 0} (requester target : Uuid) (k : ℕ → Task E A)
      → ((n : ℕ) → Steady (k n))
      → Steady (call (store_acceptance requester target) >>= k)
  unfolding Steady IsAcceptance call
  Steady-acceptance requester target k hk =
      Steady-bind (call (store_acceptance requester target)) k
        (inr (requester, target, λ w. refl), λ w. tt) hk

module _ (E : Services) where
  pub Steady-finished : {A : Type 0} (r : ApiResult A) → Steady {E = E} (finished r)
  unfolding Steady
  Steady-finished r = tt

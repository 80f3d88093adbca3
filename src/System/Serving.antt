-- ===== src/System/Serving.antt =====
-- main.rs: a request to any route keeps what every statement keeps.
use flutter_21_client.Prelude.{Option, none, some, ◌≡◌, refl}
use flutter_21_client.Errors.{ok, err, ApiResult}
use flutter_21_client.Services.{Services, Uuid}
use flutter_21_client.World.{World, M, pure}
use flutter_21_client.World.Keeps.{Keeps, Keeps-lift}
use flutter_21_client.Config.{Config}
use flutter_21_client.Auth.{AuthUser}
use flutter_21_client.Middleware.{Headers, extract_bearer, require_auth}
use flutter_21_client.Api.{
  Endpoint, registers, logs_in, refreshes, logs_out, asks_me, searches, by_handle, asks_user,
  creates_room, asks_room, lists, lists_pending, lists_sent, sends, accepts, declines, removes,
  blocks, invites, redeems, asks_ice, asks_health, asks_metrics, upgrades, Answer, account, tokens,
  ice_servers, Served, run, given, after_auth, with_user, serve, ice_config_handler,
}
use flutter_21_client.System.Stable.{Property, Stable, Accepting}
use flutter_21_client.System.Accounts
use flutter_21_client.System.Requests

module _ (E : Services) (P : Property) where
  abbrev KeepsServed : Served E → Type 0
  KeepsServed s = (w : World E) → P w.db w.connections → P (s w).1.db (s w).1.connections

  Keeps-run : {A : Type 0} (f : A → Answer) (m : M E A) → Keeps {E = E} P m → KeepsServed (run f m)
  unfolding Keeps
  Keeps-run f m h w p = h w p

  Keeps-given :
      {A : Type 0} (a : Option A) (s : A → Served E)
      → ((x : A) → KeepsServed (s x))
      → KeepsServed (given a s)
  Keeps-given none s h w p = p
  Keeps-given (some a) s h w p = h a w p

  Keeps-after_auth :
      (s : AuthUser → Served E) (r : ApiResult AuthUser)
      → ((auth : AuthUser) → KeepsServed (s auth))
      → KeepsServed (after_auth s r)
  Keeps-after_auth s (ok auth) h w p = h auth w p
  Keeps-after_auth s (err e) h w p = p

  module _ (c : Config E) (headers : Headers) where
    Keeps-with_user :
        (s : AuthUser → Served E)
        → ((auth : AuthUser) → KeepsServed (s auth))
        → KeepsServed (with_user c headers s)
    unfolding Keeps
    Keeps-with_user s h w p =
        let (checked, w') = require_auth c (extract_bearer headers) w in
        Keeps-after_auth s checked h w'
          (Accounts.Keeps-require_auth E P c (extract_bearer headers) w p)

    -- A handler behind `require_auth` with an argument.
    Keeps-asked :
        {A B : Type 0} (f : B → Answer) (a : Option A) (m : AuthUser → A → M E B)
        → ((auth : AuthUser) (x : A) → Keeps {E = E} P (m auth x))
        → KeepsServed (with_user c headers (λ auth. given a (λ x. run f (m auth x))))
    Keeps-asked f a m h =
        Keeps-with_user _ (λ auth. Keeps-given a _ (λ x. Keeps-run f (m auth x) (h auth x)))

    Keeps-plain :
        {B : Type 0} (f : B → Answer) (m : AuthUser → M E B)
        → ((auth : AuthUser) → Keeps {E = E} P (m auth))
        → KeepsServed (with_user c headers (λ auth. run f (m auth)))
    Keeps-plain f m h = Keeps-with_user _ (λ auth. Keeps-run f (m auth) (h auth))

    -- An acceptance is asked for by a request that accepts.
    pub Keeps-serve :
        Stable P
        → (e : Endpoint) → ((requester : Option Uuid) → e ≡ accepts requester → Accepting P)
        → KeepsServed (serve c headers e)
    unfolding serve
    Keeps-serve s (registers body) k =
        Keeps-given body _ (λ b. Keeps-run account _ (Accounts.Keeps-register E P c s b))
    Keeps-serve s (logs_in body) k =
        Keeps-given body _ (λ b. Keeps-run account _ (Accounts.Keeps-login E P c s b))
    Keeps-serve s (refreshes body) k =
        Keeps-given body _ (λ b. Keeps-run tokens _ (Accounts.Keeps-refresh E P c b))
    Keeps-serve s (logs_out body) k = Keeps-asked _ body _ (Accounts.Keeps-logout E P c)
    Keeps-serve s asks_me k = Keeps-plain _ _ (Accounts.Keeps-me E P c)
    Keeps-serve s (searches q) k = Keeps-asked _ q _ (Accounts.Keeps-search E P)
    Keeps-serve s (by_handle handle) k =
        Keeps-asked _ handle _ (Requests.Keeps-get_user_by_handle E P)
    Keeps-serve s (asks_user id) k = Keeps-asked _ id _ (λ auth. Accounts.Keeps-get_user E P)
    Keeps-serve s creates_room k = Keeps-plain _ _ (Accounts.Keeps-new_room E P s c)
    Keeps-serve s (asks_room id) k = Keeps-asked _ id _ (λ auth. Accounts.Keeps-get_room E P)
    Keeps-serve s lists k = Keeps-plain _ _ (Requests.Keeps-list_contacts E P)
    Keeps-serve s lists_pending k = Keeps-plain _ _ (Requests.Keeps-pending_requests E P)
    Keeps-serve s lists_sent k = Keeps-plain _ _ (Requests.Keeps-sent_requests E P)
    Keeps-serve s (sends target) k = Keeps-asked _ target _ (Requests.Keeps-send_request E P s)
    Keeps-serve s (accepts requester) k =
        Keeps-asked _ requester _ (Requests.Keeps-accept_request E P (k requester refl))
    Keeps-serve s (declines requester) k =
        Keeps-asked _ requester _ (Requests.Keeps-decline_request E P s)
    Keeps-serve s (removes id) k = Keeps-asked _ id _ (Requests.Keeps-remove_contact E P s)
    Keeps-serve s (blocks id) k = Keeps-asked _ id _ (Requests.Keeps-block_user E P s)
    Keeps-serve s invites k =
        Keeps-plain _ _ (λ auth. Requests.Keeps-generate_invite_link E P s auth c)
    Keeps-serve s (redeems body) k =
        Keeps-asked _ body _ (λ auth b. Requests.Keeps-use_invite_link E P s auth b.0 b.1)
    Keeps-serve s asks_ice k =
        Keeps-plain ice_servers (λ auth. pure (ice_config_handler c))
          (λ auth. Keeps-lift E P (ok (ice_config_handler c)))
    Keeps-serve s asks_health k = λ w p. p
    Keeps-serve s asks_metrics k = λ w p. p
    Keeps-serve s upgrades k = λ w p. p

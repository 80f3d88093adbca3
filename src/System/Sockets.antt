-- ===== src/System/Sockets.antt =====
-- signaling/server.rs, `handle_socket`: a frame and the cleanup keep what every statement keeps and
-- what a new and a closed connection keep.
use flutter_21_client.Prelude.{
  String, Bool, true, false, Option, none, some, List, ◌≡◌, refl, arith, insert, remove, uuid_eq,
  nat_eq, find, ◌==◌, text_eq, inl, inr, Bool-cases,
}
use flutter_21_client.Errors.{ok, err, ApiResult}
use flutter_21_client.Services.{Services, Uuid, Claims}
use flutter_21_client.World.{World, WsTx}
use flutter_21_client.World.Tables.{Db}
use flutter_21_client.World.Events.{HubMessage}
use flutter_21_client.World.Keeps.{Keeps}
use flutter_21_client.Config.{Config}
use flutter_21_client.Database.{user_is_active, active_or_false, update_last_seen}
use flutter_21_client.Hub.{register, deregister, deliver_published}
use flutter_21_client.RedisStore.{set_online, set_offline, clear_busy}
use flutter_21_client.Signaling.{dispatch_message}
use flutter_21_client.Signaling.Fields.{text_field}
use flutter_21_client.Signaling.Socket.{
  Frame, text, ping, close, binary, pong, welcome, admit, identify, check_claims, check_token,
  authenticate, report, signal, typed, parsed_frame, handle_frame, cleanup,
}
use flutter_21_client.System.Stable.{Property, Stable, Keeps-update_last_seen}
use flutter_21_client.System.Accounts.{Keeps-find_user_by_id, Keeps-user_is_active}
use flutter_21_client.System.Signals.{Keeps-set_online, Keeps-clear_busy, Keeps-dispatch_message}

-- The connection of an active user over the socket keeps the property.
abbrev pub Entering : Property → WsTx → Type 0
Entering P tx =
    (user : Uuid) (d : Db) (cs : List (Uuid × WsTx))
    → active_or_false (find (λ u. nat_eq u.user_id user) d.users) ≡ true
    → P d cs
    → P d (insert user tx cs)

abbrev pub Leaving : Property → Type 0
Leaving P = (user : Uuid) (d : Db) (cs : List (Uuid × WsTx)) → P d cs → P d (remove user cs)

module _ (E : Services) (P : Property) where
  abbrev Holds : World E → Type 0
  Holds w = P w.db w.connections

  Keeps-set_offline : (user : Uuid) → Keeps {E = E} P (set_offline user)
  unfolding Keeps set_offline
  Keeps-set_offline user w p = ground arith

  Holds-register :
      (user : Uuid) (tx : WsTx) (w : World E)
      → P w.db (insert user tx w.connections)
      → Holds (register user tx w)
  unfolding register
  Holds-register user tx w p = ground arith

  Holds-deregister : Leaving P → (user : Uuid) (w : World E) → Holds w → Holds (deregister user w)
  unfolding deregister
  Holds-deregister leaving user w p = leaving user w.db w.connections p

  module _ (stable : Stable P) (c : Config E) (tx : WsTx) where
    Holds-welcome :
        (user : Uuid) (w : World E)
        → P w.db (insert user tx w.connections)
        → Holds (welcome E c tx user w)
    unfolding welcome Keeps
    Holds-welcome user w p =
        let w₁ : World E = register user tx w in
        let w₂ : World E = (set_online {E = E} user w₁).1 in
        let w₃ : World E = (update_last_seen {E = E} user w₂).1 in
        let p₂ = Keeps-set_online E P user w₁ (Holds-register user tx w p) in
        Keeps-find_user_by_id E P user w₃ (Keeps-update_last_seen E P stable user w₂ p₂)

    Holds-admit :
        (user_id : Option Uuid) (user : Uuid) (active : ApiResult Bool) (w : World E)
        → (active ≡ ok true → P w.db (insert user tx w.connections))
        → Holds w
        → Holds (admit E c tx user user_id active w).1
    Holds-admit user_id user (ok true) w enters p = Holds-welcome user w (enters refl)
    Holds-admit user_id user (ok false) w enters p = p
    Holds-admit user_id user (err e) w enters p = p

    module _ (entering : Entering P tx) where
      is_active-enters :
          (user : Uuid) (w : World E)
          → (user_is_active {E = E} user w).0 ≡ ok true
          → Holds w
          → P
              (user_is_active {E = E} user w).1.db
              (insert user tx (user_is_active {E = E} user w).1.connections)
      unfolding user_is_active
      is_active-enters user w h p = ground (arith, entering user w.db w.connections)

      Holds-identify :
          (user_id user : Option Uuid) (w : World E)
          → Holds w
          → Holds (identify E c tx user_id user w).1
      unfolding Keeps
      Holds-identify user_id none w p = p
      Holds-identify user_id (some user) w p =
          let (active, w') = user_is_active {E = E} user w in
          Holds-admit user_id user active w' (λ h. is_active-enters user w h p)
            (Keeps-user_is_active E P user w p)

      Holds-check_claims :
          (user_id : Option Uuid) (claims : ApiResult Claims) (w : World E)
          → Holds w
          → Holds (check_claims E c tx user_id claims w).1
      Holds-check_claims user_id (ok claims) w p =
          Holds-identify user_id (E.parse_uuid claims.sub) w p
      Holds-check_claims user_id (err e) w p = p

      Holds-check_token :
          (user_id : Option Uuid) (token : Option String) (w : World E)
          → Holds w
          → Holds (check_token E c tx user_id token w).1
      unfolding authenticate
      Holds-check_token user_id none w p = p
      Holds-check_token user_id (some token) w p = Holds-check_claims user_id _ w p

      Holds-report : (r : ApiResult (Unit {0})) (w : World E) → Holds w → Holds (report E c tx r w)
      Holds-report (ok _) w p = p
      Holds-report (err e) w p = p

      Holds-signal :
          (user_id : Option Uuid) (msg_type : String) (msg : E.Value) (w : World E)
          → Holds w
          → Holds (signal E c tx user_id msg_type msg w)
      unfolding signal Keeps
      Holds-signal none msg_type msg w p = p
      Holds-signal (some user) msg_type msg w p =
          let (result, w') = dispatch_message E c user msg_type msg w in
          Holds-report result w' (Keeps-dispatch_message E P c stable user msg_type msg w p)

      Holds-typed :
          (user_id : Option Uuid) (msg : E.Value) (msg_type : Option String) (w : World E)
          → Holds w
          → Holds (typed E c tx user_id msg msg_type w).1
      unfolding authenticate
      Holds-typed user_id msg none w p = p
      Holds-typed user_id msg (some msg_type) w p = elim (Bool-cases (msg_type == "auth")) [
        | inl same ↦ rw same (Holds-check_token user_id (text_field E msg "token") w p)
        | inr other ↦ rw other (Holds-signal user_id msg_type msg w p)
      ]

      Holds-parsed_frame :
          (user_id : Option Uuid) (msg : Option E.Value) (w : World E)
          → Holds w
          → Holds (parsed_frame E c tx user_id msg w).1
      Holds-parsed_frame user_id none w p = p
      Holds-parsed_frame user_id (some msg) w p =
          Holds-typed user_id msg (text_field E msg "type") w p

      pub Holds-handle_frame :
          (user_id : Option Uuid) (f : Frame) (w : World E)
          → Holds w
          → Holds (handle_frame E c tx user_id f w).1
      unfolding handle_frame
      Holds-handle_frame user_id (text t) w p = Holds-parsed_frame user_id (E.from_str t) w p
      Holds-handle_frame user_id ping w p = p
      Holds-handle_frame user_id close w p = p
      Holds-handle_frame user_id binary w p = p
      Holds-handle_frame user_id pong w p = p

    pub Holds-cleanup :
        Leaving P
        → (user_id : Option Uuid) (w : World E) → Holds w
        → Holds (cleanup E c tx user_id w)
    unfolding cleanup Keeps
    Holds-cleanup leaving none w p = p
    Holds-cleanup leaving (some user) w p =
        let w₁ : World E = deregister user w in
        let w₂ : World E = (set_offline {E = E} user w₁).1 in
        let w₃ : World E = (clear_busy {E = E} user w₂).1 in
        let p₂ = Keeps-set_offline user w₁ (Holds-deregister leaving user w p) in
        Keeps-update_last_seen E P stable user w₃ (Keeps-clear_busy E P user w₂ p₂)

  pub Holds-deliver_published :
      (m : HubMessage) (w : World E) → Holds w → Holds (deliver_published m w)
  unfolding deliver_published
  Holds-deliver_published m w p = ground arith

-- ===== src/System/Requests.antt =====
-- routes/contacts.rs and the router of main.rs keep what every statement keeps.
use Prim.Native.String.{◌++◌}
use flutter_21_client.Prelude.{
  arith, ℕ, String, Bool, true, false, not, nat_eq, Option, none, some, List, [], ◌∷◌,
}
use flutter_21_client.Errors.{ok, err, bad_request, not_found, conflict, forbidden}
use flutter_21_client.Services.{Services, Uuid, online as online_key}
use flutter_21_client.World.{M, db_statement, draw, read, ignore, pure, ◌>>=◌, ◌>>◌}
use flutter_21_client.Hub.{send_to}
use flutter_21_client.World.Tables.{User, Status, pending, accepted, blocked, InviteLink}
use flutter_21_client.World.Events.{contact_request, contact_accepted}
use flutter_21_client.World.Keeps.{
  Keeps, Keeps-bind, Keeps-query, Keeps-statement, Keeps-redis_query, Keeps-lift, Keeps-draw,
  Keeps-read, Keeps-or_fail, Keeps-attempt, Keeps-ignore,
}
use flutter_21_client.Config.{Config}
use flutter_21_client.Auth.{AuthUser}
use flutter_21_client.RedisStore.{is_online, exists}
use flutter_21_client.Contacts.{
  check_existing, send_request, accept_request, decline_request, remove_contact, block_user,
  show_handle, ok_or_false, get_user_by_handle, generate_invite_link, claim_invite, redeem_invite,
  use_invite_link,
}
use flutter_21_client.Contacts.Statements.{
  user_exists, first_status, new_contact, upsert_request, accept_pending, delete_pending,
  delete_accepted, delete_between, insert_contact, insert_request_if_new, insert_invite, use_up,
  is_zero, find_invite, find_handle,
}
use flutter_21_client.Contacts.Listing.{
  contact_entry, Row, with_presence, list_contacts, pending_requests, sent_requests, contact_rows,
  incoming_rows, outgoing_rows,
}
use flutter_21_client.System.Stable.{Property, Stable, Accepting, Keeps-send_to, Keeps-reject_if}

module _ (E : Services) (P : Property) where
  abbrev K : {A : Type 0} → M E A → Type 0
  K m = Keeps {E = E} P m

  pub Keeps-check_existing : (s : Option Status) → K (check_existing s)
  Keeps-check_existing none = Keeps-lift E P (ok tt)
  Keeps-check_existing (some accepted) = Keeps-lift E P (err (conflict "ALREADY_CONTACTS"))
  Keeps-check_existing (some pending) = Keeps-lift E P (err (conflict "REQUEST_EXISTS"))
  Keeps-check_existing (some blocked) = Keeps-lift E P (err (forbidden "BLOCKED"))

  Keeps-show_handle : (found : Option (User × Bool)) → K (show_handle found)
  unfolding Keeps
  Keeps-show_handle none w p = p
  Keeps-show_handle (some (u, contact)) w p = ground arith

  pub Keeps-get_user_by_handle :
      (auth : AuthUser) (handle : String) → K (get_user_by_handle auth handle)
  unfolding get_user_by_handle
  Keeps-get_user_by_handle auth handle =
      Keeps-bind P _ _ (Keeps-query E P (find_handle E.lower handle auth.user_id))
        λ found. Keeps-show_handle found

  Keeps-with_presence : (rows : List Row) → K (with_presence rows)
  unfolding with_presence is_online
  Keeps-with_presence [] = Keeps-lift E P (ok _)
  Keeps-with_presence (r ∷ rows) =
      Keeps-bind P _ _
        (Keeps-attempt E P _ (Keeps-redis_query E P (exists E (online_key r.user.user_id))))
        λ online.
          Keeps-bind P _ _ (Keeps-with_presence rows)
            λ entries. Keeps-lift E P (ok (contact_entry E r (ok_or_false online) ∷ entries))

  pub Keeps-list_contacts : (auth : AuthUser) → K (list_contacts auth)
  unfolding list_contacts
  Keeps-list_contacts auth =
      Keeps-bind P _ _ (Keeps-query E P (contact_rows E.collates auth.user_id))
        λ rows. Keeps-with_presence rows

  pub Keeps-pending_requests : (auth : AuthUser) → K (pending_requests auth)
  unfolding pending_requests
  Keeps-pending_requests auth =
      Keeps-bind P _ _ (Keeps-query E P (incoming_rows auth.user_id)) λ rows. Keeps-lift E P (ok _)

  pub Keeps-sent_requests : (auth : AuthUser) → K (sent_requests auth)
  unfolding sent_requests
  Keeps-sent_requests auth =
      Keeps-bind P _ _ (Keeps-query E P (outgoing_rows auth.user_id)) λ rows. Keeps-lift E P (ok _)

  pub Keeps-claim_invite : (owner : Uuid) (token : String) → K (claim_invite owner token)
  unfolding claim_invite
  Keeps-claim_invite owner token = Keeps-bind P _ _ (Keeps-read E P (λ w. w.now)) λ now.
      Keeps-bind P _ _ (Keeps-query E P (find_invite owner token now)) λ found.
        Keeps-bind P _ _ (Keeps-or_fail E P found (not_found "Invite link not found or expired"))
          λ invite.
            Keeps-bind P _ _
              (Keeps-reject_if E P (is_zero invite.uses_left)
                (bad_request "Invite link has been used"))
              λ _. Keeps-lift E P (ok invite)

  pub Keeps-accept_request :
      Accepting P → (auth : AuthUser) (requester : Uuid) → K (accept_request auth requester)
  unfolding accept_request
  Keeps-accept_request accepting auth requester =
      Keeps-bind P _ _ (Keeps-read E P (λ w. w.now)) λ now.
        Keeps-bind P _ _
          (Keeps-statement E P (accept_pending requester auth.user_id now)
            (accepting requester auth.user_id now))
          λ rows.
            Keeps-bind P _ _
              (Keeps-reject_if E P (nat_eq rows 0) (not_found "No pending request found"))
              λ _.
                Keeps-bind P _ _
                  (Keeps-ignore E P _
                    (Keeps-send_to E P requester (contact_accepted auth.user_id auth.display_name)))
                  λ _. Keeps-lift E P (ok "accepted")

  module _ (s : Stable P) (auth : AuthUser) where
    -- The end of `send_request`, after its checks.
    Keeps-asked :
        (target : Uuid)
        → K {A = String} (do
          n ← draw
          now ← read (λ w. w.now)
          db_statement
              (upsert_request (new_contact (E.random_uuid n) auth.user_id target pending now))
          ignore (send_to target (contact_request auth.user_id auth.display_name false))
          pure "sent")
    Keeps-asked target = Keeps-bind P _ _ (Keeps-draw E P) λ n.
        Keeps-bind P _ _ (Keeps-read E P (λ w. w.now)) λ now.
          Keeps-bind P _ _
            (Keeps-statement E P
              (upsert_request (new_contact (E.random_uuid n) auth.user_id target pending now))
              (s.asks (E.random_uuid n) auth.user_id target now))
            λ _.
              Keeps-bind P _ _
                (Keeps-ignore E P _
                  (Keeps-send_to E P target (contact_request auth.user_id auth.display_name false)))
                λ _. Keeps-lift E P (ok "sent")

    pub Keeps-send_request : (target : Uuid) → K (send_request auth target)
    unfolding send_request
    Keeps-send_request target =
        Keeps-bind P _ _
          (Keeps-reject_if E P (nat_eq target auth.user_id) (bad_request "Cannot add yourself"))
          λ _. Keeps-bind P _ _ (Keeps-query E P (user_exists target)) λ exists.
            Keeps-bind P _ _ (Keeps-reject_if E P (not exists) (not_found "User not found")) λ _.
              Keeps-bind P _ _ (Keeps-query E P (first_status auth.user_id target))
                λ existing. Keeps-bind P _ _ (Keeps-check_existing existing) λ _. Keeps-asked target

    pub Keeps-decline_request : (requester : Uuid) → K (decline_request auth requester)
    unfolding decline_request
    Keeps-decline_request requester =
        Keeps-bind P _ _
          (Keeps-statement E P (delete_pending requester auth.user_id)
            (s.declines requester auth.user_id))
          λ _. Keeps-lift E P (ok "declined")

    pub Keeps-remove_contact : (user : Uuid) → K (remove_contact auth user)
    unfolding remove_contact
    Keeps-remove_contact user =
        Keeps-bind P _ _
          (Keeps-statement E P (delete_accepted auth.user_id user) (s.removes auth.user_id user))
          λ _. Keeps-lift E P (ok "removed")

    pub Keeps-block_user : (user : Uuid) → K (block_user auth user)
    unfolding block_user
    Keeps-block_user user =
        Keeps-bind P _ _
          (Keeps-statement E P (delete_between auth.user_id user) (s.clears auth.user_id user))
          λ _. Keeps-bind P _ _ (Keeps-draw E P) λ n.
            Keeps-bind P _ _ (Keeps-read E P (λ w. w.now)) λ now.
              Keeps-bind P _ _
                (Keeps-statement E P
                  (insert_contact (new_contact (E.random_uuid n) auth.user_id user blocked now))
                  (s.blocks (E.random_uuid n) auth.user_id user now))
                λ _. Keeps-lift E P (ok "blocked")

    abbrev invite_url : Config E → AuthUser → ℕ → String
    invite_url c a n =
        c.app_base_url ++ ("/add/" ++ (E.show_uuid a.user_id ++ ("/" ++ E.random_token n)))

    pub Keeps-generate_invite_link : (c : Config E) → K (generate_invite_link c auth)
    unfolding generate_invite_link
    Keeps-generate_invite_link c = Keeps-bind P _ _ (Keeps-draw E P) λ n.
        Keeps-bind P _ _ (Keeps-draw E P) λ m. Keeps-bind P _ _ (Keeps-read E P (λ w. w.now)) λ now.
          Keeps-bind P _ _
            (Keeps-statement E P
              (insert_invite (E.random_uuid m) auth.user_id (E.random_token n) now)
              (s.invites (E.random_uuid m) auth.user_id (E.random_token n) now))
            λ _. Keeps-lift E P (ok (invite_url c auth n))

    Keeps-redeem_invite : (owner : Uuid) (invite : InviteLink) → K (redeem_invite auth owner invite)
    unfolding redeem_invite
    Keeps-redeem_invite owner invite =
        Keeps-bind P _ _ (Keeps-statement E P (use_up invite.id) (s.uses invite.id)) λ _.
          Keeps-bind P _ _ (Keeps-draw E P) λ n.
            Keeps-bind P _ _ (Keeps-read E P (λ w. w.now)) λ now.
              Keeps-bind P _ _
                (Keeps-ignore E P _ (
                  Keeps-statement E P
                    (insert_request_if_new
                      (new_contact (E.random_uuid n) auth.user_id owner pending now))
                    (s.asks_by_link (E.random_uuid n) auth.user_id owner now)))
                λ _.
                  Keeps-bind P _ _
                    (Keeps-ignore E P _ (
                      Keeps-send_to E P owner
                        (contact_request auth.user_id auth.display_name true)))
                    λ _. Keeps-lift E P (ok "request_sent")

    pub Keeps-use_invite_link :
        (owner : Uuid) (token : String) → K (use_invite_link auth owner token)
    unfolding use_invite_link
    Keeps-use_invite_link owner token =
        Keeps-bind P _ _ (Keeps-claim_invite owner token) λ invite. Keeps-redeem_invite owner invite

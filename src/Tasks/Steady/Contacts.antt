-- ===== src/Tasks/Steady/Contacts.antt =====
-- routes/contacts.rs: no step of a contact task breaks what every statement of the server keeps.
use flutter_21_client.Prelude.{String, true, false}
use flutter_21_client.Errors.{ok}
use flutter_21_client.Services.{Services, Uuid}
use flutter_21_client.World.Tables.{pending, blocked}
use flutter_21_client.World.Events.{contact_request, contact_accepted}
use flutter_21_client.World.Keeps.{
  Keeps, Keeps-bind, Keeps-query, Keeps-statement, Keeps-draw, Keeps-read, Keeps-ignore,
}
use flutter_21_client.Config.{Config}
use flutter_21_client.Auth.{AuthUser}
use flutter_21_client.Contacts.Statements.{
  new_contact, upsert_request, delete_pending, delete_accepted, delete_between, insert_contact,
  insert_request_if_new, use_up,
}
use flutter_21_client.Contacts.Permission.{
  Request, sends, accepts, declines, removes, blocks, invites, redeems,
}
use flutter_21_client.System.Stable.{Property, Stable, Keeps-send_to, Keeps-reject_if}
use flutter_21_client.System.Requests.{
  Keeps-check_existing, Keeps-claim_invite, Keeps-generate_invite_link,
}
use flutter_21_client.Tasks.Writes.{store_request, store_block, store_request_by_link}
use flutter_21_client.Tasks.ContactSteps.{
  send_steps, accept_steps, decline_steps, remove_steps, block_steps, redeem_steps, contact_steps,
}
use flutter_21_client.Tasks.Steady.{
  Steady, Steady-call, Steady-next, Steady-finished, Steady-acceptance,
}

module _ (E : Services) where
  module _ (P : Property) (s : Stable P) where
    Keeps-store_request : (a b : Uuid) → Keeps {E = E} P (store_request a b)
    unfolding store_request
    Keeps-store_request a b = Keeps-bind P _ _ (Keeps-draw E P) λ n.
        Keeps-bind P _ _ (Keeps-read E P (λ w. w.now)) λ now.
          Keeps-statement E P (upsert_request (new_contact (E.random_uuid n) a b pending now))
            (s.asks (E.random_uuid n) a b now)

    Keeps-store_block : (a b : Uuid) → Keeps {E = E} P (store_block a b)
    unfolding store_block
    Keeps-store_block a b = Keeps-bind P _ _ (Keeps-draw E P) λ n.
        Keeps-bind P _ _ (Keeps-read E P (λ w. w.now)) λ now.
          Keeps-statement E P (insert_contact (new_contact (E.random_uuid n) a b blocked now))
            (s.blocks (E.random_uuid n) a b now)

    Keeps-store_request_by_link : (a b : Uuid) → Keeps {E = E} P (store_request_by_link a b)
    unfolding store_request_by_link
    Keeps-store_request_by_link a b = Keeps-bind P _ _ (Keeps-draw E P) λ n.
        Keeps-bind P _ _ (Keeps-read E P (λ w. w.now)) λ now. Keeps-ignore E P _ (
          Keeps-statement E P
            (insert_request_if_new (new_contact (E.random_uuid n) a b pending now))
            (s.asks_by_link (E.random_uuid n) a b now))

  Steady-send : (auth : AuthUser) (target : Uuid) → Steady {E = E} (send_steps auth target)
  unfolding send_steps
  Steady-send auth target =
      Steady-next _ _ (λ P s. Keeps-reject_if E P _ _)
        λ _.
          Steady-next _ _ (λ P s. Keeps-query E P _)
            λ exists.
              Steady-next _ _ (λ P s. Keeps-reject_if E P _ _)
                λ _.
                  Steady-next _ _ (λ P s. Keeps-query E P _)
                    λ existing.
                      Steady-next _ _ (λ P s. Keeps-check_existing E P existing)
                        λ _.
                          Steady-next _ _ (λ P s. Keeps-store_request P s auth.user_id target)
                            λ _.
                              Steady-next _ _
                                (λ P s. Keeps-ignore E P _ (
                                  Keeps-send_to E P target
                                    (contact_request auth.user_id auth.display_name false)))
                                λ _. Steady-finished E (ok "sent")

  Steady-accept :
      (auth : AuthUser) (requester : Uuid) → Steady {E = E} (accept_steps auth requester)
  unfolding accept_steps
  Steady-accept auth requester = Steady-acceptance requester auth.user_id _ λ rows.
      Steady-next _ _ (λ P s. Keeps-reject_if E P _ _)
        λ _.
          Steady-next _ _
            (λ P s.
              Keeps-ignore E P _
                (Keeps-send_to E P requester (contact_accepted auth.user_id auth.display_name)))
            λ _. Steady-finished E (ok "accepted")

  Steady-block : (auth : AuthUser) (user : Uuid) → Steady {E = E} (block_steps auth user)
  unfolding block_steps
  Steady-block auth user =
      Steady-next _ _
        (λ P s. Keeps-statement E P (delete_between auth.user_id user) (s.clears auth.user_id user))
        λ _.
          Steady-next _ _ (λ P s. Keeps-store_block P s auth.user_id user)
            λ _. Steady-finished E (ok "blocked")

  Steady-redeem :
      (auth : AuthUser) (owner : Uuid) (token : String)
      → Steady {E = E} (redeem_steps auth owner token)
  unfolding redeem_steps
  Steady-redeem auth owner token =
      Steady-next _ _ (λ P s. Keeps-claim_invite E P owner token)
        λ invite.
          Steady-next _ _ (λ P s. Keeps-statement E P (use_up invite.id) (s.uses invite.id))
            λ _.
              Steady-next _ _ (λ P s. Keeps-store_request_by_link P s auth.user_id owner)
                λ _.
                  Steady-next _ _
                    (λ P s. Keeps-ignore E P _ (
                      Keeps-send_to E P owner
                        (contact_request auth.user_id auth.display_name true)))
                    λ _. Steady-finished E (ok "request_sent")

  pub Steady-contact :
      (c : Config E) (auth : AuthUser) (r : Request) → Steady (contact_steps c auth r)
  unfolding contact_steps decline_steps remove_steps
  Steady-contact c auth (sends target) = Steady-send auth target
  Steady-contact c auth (accepts requester) = Steady-accept auth requester
  Steady-contact c auth (declines requester) =
      Steady-next _ _
        (λ P s.
          Keeps-statement E P (delete_pending requester auth.user_id)
            (s.declines requester auth.user_id))
        λ _. Steady-finished E (ok "declined")
  Steady-contact c auth (removes user) =
      Steady-next _ _
        (λ P s.
          Keeps-statement E P (delete_accepted auth.user_id user) (s.removes auth.user_id user))
        λ _. Steady-finished E (ok "removed")
  Steady-contact c auth (blocks user) = Steady-block auth user
  Steady-contact c auth invites = Steady-call _ (λ P s. Keeps-generate_invite_link E P s auth c)
  Steady-contact c auth (redeems owner token) = Steady-redeem auth owner token

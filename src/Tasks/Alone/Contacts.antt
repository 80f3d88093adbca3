-- ===== src/Tasks/Alone/Contacts.antt =====
-- routes/contacts.rs: the handlers in steps, run without a pause, are the handlers of `Contacts`.
use flutter_21_client.Prelude.{String}
use flutter_21_client.Errors.{ok}
use flutter_21_client.Services.{Services, Uuid}
use flutter_21_client.World.{draw}
use flutter_21_client.Config.{Config}
use flutter_21_client.Auth.{AuthUser}
use flutter_21_client.Contacts.{
  send_request, accept_request, decline_request, remove_contact, block_user, use_invite_link,
  redeem_invite,
}
use flutter_21_client.Contacts.Permission.{
  Request, sends, accepts, declines, removes, blocks, invites, redeems, handle,
}
use flutter_21_client.Tasks.{Does, Does-call}
use flutter_21_client.Tasks.Writes.{
  store_request, store_acceptance, store_block, store_request_by_link,
}
use flutter_21_client.Tasks.ContactSteps.{
  send_steps, accept_steps, decline_steps, remove_steps, block_steps, redeem_steps, contact_steps,
}
use flutter_21_client.Tasks.Alone.{Does-ended, Does-next}

module _ (E : Services) where
  Does-send :
      (auth : AuthUser) (target : Uuid)
      → Does {E = E} (send_steps auth target) (send_request auth target)
  unfolding Does send_steps send_request store_request draw
  Does-send auth target = Does-next E _ _ _ λ _. Does-next E _ _ _ λ exists. Does-next E _ _ _ λ _.
      Does-next E _ _ _ λ existing.
        Does-next E _ _ _
          λ _. Does-next E _ _ _ λ _. Does-next E _ _ _ λ _. Does-ended E (ok "sent")

  Does-accept :
      (auth : AuthUser) (requester : Uuid)
      → Does {E = E} (accept_steps auth requester) (accept_request auth requester)
  unfolding Does accept_steps accept_request store_acceptance
  Does-accept auth requester =
      Does-next E _ _ _
        λ rows. Does-next E _ _ _ λ _. Does-next E _ _ _ λ _. Does-ended E (ok "accepted")

  Does-block :
      (auth : AuthUser) (user : Uuid) → Does {E = E} (block_steps auth user) (block_user auth user)
  unfolding Does block_steps block_user store_block draw
  Does-block auth user = Does-next E _ _ _ λ _. Does-next E _ _ _ λ _. Does-ended E (ok "blocked")

  Does-redeem :
      (auth : AuthUser) (owner : Uuid) (token : String)
      → Does {E = E} (redeem_steps auth owner token) (use_invite_link auth owner token)
  unfolding Does redeem_steps use_invite_link redeem_invite store_request_by_link draw
  Does-redeem auth owner token = Does-next E _ _ _ λ invite.
      Does-next E _ _ _
        λ _. Does-next E _ _ _ λ _. Does-next E _ _ _ λ _. Does-ended E (ok "request_sent")

  pub Does-handle :
      (c : Config E) (auth : AuthUser) (r : Request)
      → Does (contact_steps c auth r) (handle c auth r)
  unfolding contact_steps handle decline_steps decline_request remove_steps remove_contact
  Does-handle c auth (sends target) = Does-send auth target
  Does-handle c auth (accepts requester) = Does-accept auth requester
  Does-handle c auth (declines requester) = Does-next E _ _ _ λ _. Does-ended E (ok "declined")
  Does-handle c auth (removes user) = Does-next E _ _ _ λ _. Does-ended E (ok "removed")
  Does-handle c auth (blocks user) = Does-block auth user
  Does-handle c auth invites = Does-call _
  Does-handle c auth (redeems owner token) = Does-redeem auth owner token

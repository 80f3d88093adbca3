-- ===== src/Tasks/ContactSteps.antt =====
-- routes/contacts.rs: the handlers that write as tasks, with every call of the database and of Redis a
-- step of its own.
use flutter_21_client.Prelude.{String, not, nat_eq, true, false}
use flutter_21_client.Errors.{bad_request, not_found}
use flutter_21_client.Services.{Services, Uuid}
use flutter_21_client.World.{ignore, db_query, db_statement}
use flutter_21_client.World.Events.{contact_request, contact_accepted}
use flutter_21_client.Config.{Config}
use flutter_21_client.Auth.{AuthUser, reject_if}
use flutter_21_client.Hub.{send_to}
use flutter_21_client.Contacts.{check_existing, claim_invite, generate_invite_link}
use flutter_21_client.Contacts.Statements.{
  user_exists, first_status, delete_pending, delete_accepted, delete_between, use_up,
}
use flutter_21_client.Contacts.Permission.{
  Request, sends, accepts, declines, removes, blocks, invites, redeems,
}
use flutter_21_client.Tasks.{Task, call, ◌>>=◌, ◌>>◌}
use flutter_21_client.Tasks.Accounts.{ended}
use flutter_21_client.Tasks.Writes.{
  store_request, store_acceptance, store_block, store_request_by_link,
}

module _ {E : Services} where
  unfoldable pub send_steps : AuthUser → Uuid → Task E String
  send_steps auth target = do
    call (reject_if (nat_eq target auth.user_id) (bad_request "Cannot add yourself"))
    exists ← call (db_query (user_exists target))
    call (reject_if (not exists) (not_found "User not found"))
    existing ← call (db_query (first_status auth.user_id target))
    call (check_existing existing)
    call (store_request auth.user_id target)
    call (ignore (send_to target (contact_request auth.user_id auth.display_name false)))
    ended "sent"

  unfoldable pub accept_steps : AuthUser → Uuid → Task E String
  accept_steps auth requester = do
    rows_affected ← call (store_acceptance requester auth.user_id)
    call (reject_if (nat_eq rows_affected 0) (not_found "No pending request found"))
    call (ignore (send_to requester (contact_accepted auth.user_id auth.display_name)))
    ended "accepted"

  unfoldable pub decline_steps : AuthUser → Uuid → Task E String
  decline_steps auth requester = do
    call (db_statement (delete_pending requester auth.user_id))
    ended "declined"

  unfoldable pub remove_steps : AuthUser → Uuid → Task E String
  remove_steps auth user = do
    call (db_statement (delete_accepted auth.user_id user))
    ended "removed"

  unfoldable pub block_steps : AuthUser → Uuid → Task E String
  block_steps auth user = do
    call (db_statement (delete_between auth.user_id user))
    call (store_block auth.user_id user)
    ended "blocked"

  -- The look at the link and its checks are one step.
  unfoldable pub redeem_steps : AuthUser → Uuid → String → Task E String
  redeem_steps auth owner token = do
    invite ← call (claim_invite owner token)
    call (db_statement (use_up invite.id))
    call (store_request_by_link auth.user_id owner)
    call (ignore (send_to owner (contact_request auth.user_id auth.display_name true)))
    ended "request_sent"

  unfoldable pub contact_steps : Config E → AuthUser → Request → Task E String
  contact_steps c auth (sends target) = send_steps auth target
  contact_steps c auth (accepts requester) = accept_steps auth requester
  contact_steps c auth (declines requester) = decline_steps auth requester
  contact_steps c auth (removes user) = remove_steps auth user
  contact_steps c auth (blocks user) = block_steps auth user
  contact_steps c auth invites = call (generate_invite_link c auth)
  contact_steps c auth (redeems owner token) = redeem_steps auth owner token

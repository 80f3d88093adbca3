-- ===== src/Contacts.antt =====
-- routes/contacts.rs: contact requests, acceptance, blocks, invite links and `can_call`. A statement
-- is its function on the tables. Queries that expect one row read the first that matches.
pub mod Statements
pub mod Listing
pub mod Listed
pub mod Rows
pub mod Permission
pub mod Unique
pub mod Blocks
pub mod Invites
pub mod Standing
pub mod Refinement
use Prim.Native.String.{◌++◌}
use flutter_21_client.Prelude.{
  String, Bool, true, false, ◌&&◌, ◌||◌, not, Option, none, some, find, is_some, nat_eq, ◌==◌,
  text_eq, ltb, ℕ, ◌+◌, if◌then◌else◌, any,
}
use flutter_21_client.Errors.{
  Result, ok, err, ApiResult, bad_request, not_found, conflict, forbidden,
}
use flutter_21_client.Services.{Services, Uuid}
use flutter_21_client.World.{
  World, M, pure, fail, ignore, attempt, read, draw, or_fail, db_statement, db_query, ◌>>=◌, ◌>>◌,
}
use flutter_21_client.World.Tables.{
  Db, User, Status, pending, accepted, blocked, Contact, InviteLink,
}
use flutter_21_client.World.Events.{contact_request, contact_accepted}
use flutter_21_client.Config.{Config}
use flutter_21_client.Auth.{AuthUser, reject_if}
use flutter_21_client.Hub.{send_to}
use Statements.{
  user_exists, first_status, upsert_request, accept_pending, delete_pending, delete_accepted,
  delete_between, insert_contact, insert_request_if_new, is_contact, new_contact, find_invite,
  insert_invite, use_up, is_zero, find_handle,
}

-- The user that a search by handle shows.
pub record Card : Type 0 where
  pub user_id : Uuid
  pub username : String
  pub display_name : String
  pub avatar_url : Option String

abbrev pub ok_or_false : ApiResult Bool → Bool
ok_or_false (ok b) = b
ok_or_false (err e) = false

abbrev pub card : User → Card
card u = record {
  user_id = u.user_id;
  username = u.username;
  display_name = u.display_name;
  avatar_url = u.avatar_url;
}

module _ {E : Services} where
  -- The match on the status of an existing row.
  abbrev pub check_existing : Option Status → M E (Unit {0})
  check_existing none = pure tt
  check_existing (some accepted) = fail (conflict "ALREADY_CONTACTS")
  check_existing (some pending) = fail (conflict "REQUEST_EXISTS")
  check_existing (some blocked) = fail (forbidden "BLOCKED")

  unfoldable pub send_request : AuthUser → Uuid → M E String
  unfolding db_query db_statement draw send_to
  send_request auth target = do
    reject_if (nat_eq target auth.user_id) (bad_request "Cannot add yourself")
    exists ← db_query (user_exists target)
    reject_if (not exists) (not_found "User not found")
    existing ← db_query (first_status auth.user_id target)
    check_existing existing
    n ← draw
    now ← read (λ w. w.now)
    db_statement (upsert_request (new_contact (E.random_uuid n) auth.user_id target pending now))
    ignore (send_to target (contact_request auth.user_id auth.display_name false))
    pure "sent"

  unfoldable pub accept_request : AuthUser → Uuid → M E String
  unfolding db_statement send_to
  accept_request auth requester = do
    now ← read (λ w. w.now)
    rows_affected ← db_statement (accept_pending requester auth.user_id now)
    reject_if (nat_eq rows_affected 0) (not_found "No pending request found")
    ignore (send_to requester (contact_accepted auth.user_id auth.display_name))
    pure "accepted"

  unfoldable pub decline_request : AuthUser → Uuid → M E String
  unfolding db_statement
  decline_request auth requester = do
    db_statement (delete_pending requester auth.user_id)
    pure "declined"

  unfoldable pub remove_contact : AuthUser → Uuid → M E String
  unfolding db_statement
  remove_contact auth user = do db_statement (delete_accepted auth.user_id user); pure "removed"

  unfoldable pub block_user : AuthUser → Uuid → M E String
  unfolding db_statement draw
  block_user auth user = do
    db_statement (delete_between auth.user_id user)
    n ← draw
    now ← read (λ w. w.now)
    db_statement (insert_contact (new_contact (E.random_uuid n) auth.user_id user blocked now))
    pure "blocked"

  -- The match on the row and its `is_contact` column.
  abbrev pub show_handle : Option (User × Bool) → M E Card
  show_handle none = fail (not_found "User not found")
  show_handle (some (u, contact)) =
      if not u.discoverable && not contact then fail (not_found "User not found") else pure (card u)

  unfoldable pub get_user_by_handle : AuthUser → String → M E Card
  unfolding db_query
  get_user_by_handle auth handle = do
    user ← db_query (find_handle E.lower handle auth.user_id)
    show_handle user

  unfoldable pub generate_invite_link : Config E → AuthUser → M E String
  unfolding db_statement draw
  generate_invite_link c auth = do
    n ← draw
    m ← draw
    now ← read (λ w. w.now)
    db_statement (insert_invite (E.random_uuid m) auth.user_id (E.random_token n) now)
    pure (c.app_base_url ++ ("/add/" ++ (E.show_uuid auth.user_id ++ ("/" ++ E.random_token n))))

  -- `use_invite_link` up to its check of the link, and from there on; a request that another task
  -- serves can run in between.
  unfoldable pub claim_invite : Uuid → String → M E InviteLink
  unfolding db_query
  claim_invite owner token = do
    now ← read (λ w. w.now)
    found ← db_query (find_invite owner token now)
    invite ← or_fail found (not_found "Invite link not found or expired")
    reject_if (is_zero invite.uses_left) (bad_request "Invite link has been used")
    pure invite

  unfoldable pub redeem_invite : AuthUser → Uuid → InviteLink → M E String
  unfolding db_statement draw send_to
  redeem_invite auth owner invite = do
    db_statement (use_up invite.id)
    n ← draw
    now ← read (λ w. w.now)
    ignore (
        db_statement
          (insert_request_if_new (new_contact (E.random_uuid n) auth.user_id owner pending now)))
    ignore (send_to owner (contact_request auth.user_id auth.display_name true))
    pure "request_sent"

  unfoldable pub use_invite_link : AuthUser → Uuid → String → M E String
  unfolding claim_invite redeem_invite
  use_invite_link auth owner token = do
    invite ← claim_invite owner token
    redeem_invite auth owner invite

  unfoldable pub can_call : Uuid → Uuid → M E Bool
  unfolding db_query
  can_call caller callee = do
    found ← attempt (db_query (is_contact caller callee))
    pure (ok_or_false found)

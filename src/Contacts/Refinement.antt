-- ===== src/Contacts/Refinement.antt =====
-- routes/contacts.rs: the requests under /api/contacts as operations on how users stand to each other.
use flutter_21_client.Prelude.{
  String, Bool, false, ◌&&◌, ◌||◌, not, Option, none, some, [], is_some, nat_eq, nat_eq_iff, ◌≡◌,
  refl, arith, if◌then◌else◌, Bool-cases, Option-cases, inl, inr,
}
use flutter_21_client.Services.{Services, Uuid}
use flutter_21_client.World.{World, stored}
use flutter_21_client.World.Tables.{pending, accepted, blocked, InviteLink}
use flutter_21_client.Config.{Config}
use flutter_21_client.Auth.{AuthUser}
use flutter_21_client.Contacts.{
  send_request, accept_request, decline_request, remove_contact, block_user, generate_invite_link,
  use_invite_link, claim_invite, redeem_invite,
}
use flutter_21_client.Contacts.Permission.{
  Request, sends, accepts, declines, removes, blocks, invites, redeems, handle,
}
use flutter_21_client.Contacts.Statements.{
  is_status, user_exists, new_contact, find_invite, is_zero, use_up, delete_between, insert_invite,
}
use flutter_21_client.Contacts.Unique.{IsUnique}
use flutter_21_client.Contacts.Standing.{
  Standing, standing, is_pair, changed, filtered, any-stands, first_status-stands,
  stands-upsert_request, stands-insert_contact, stands-insert_request_if_new, stands-accept_pending,
  stands-delete_pending, stands-delete_accepted, stands-delete_between,
}

-- An invite link that serves now.
abbrev pub serves : Option InviteLink → Bool
serves none = false
serves (some l) = not (is_zero l.uses_left)

-- What a request of the user `me` is to do to the relation: `known` are the users, `valid` says of an
-- owner and a token whether the link serves.
abbrev pub spec :
    (known : Uuid → Bool) (valid : Uuid → String → Bool) (me : Uuid) → Request → Standing → Standing
spec known valid me (sends t) s x y =
    if is_pair me t x y
      && (not (nat_eq t me)
          && (known me && known t && (not (is_some (s me t)) && not (is_some (s t me)))))
    then some pending
    else s x y
spec known valid me (accepts r) s x y =
    if is_pair r me x y
    then changed (λ v. if is_status v pending then accepted else v) (s x y)
    else s x y
spec known valid me (declines r) s x y =
    if is_pair r me x y then filtered (λ v. not (is_status v pending)) (s x y) else s x y
spec known valid me (removes u) s x y =
    if is_pair me u x y || is_pair u me x y
    then filtered (λ v. not (is_status v accepted)) (s x y)
    else s x y
spec known valid me (blocks u) s x y =
    if is_pair me u x y && (known me && known u)
    then some blocked
    else if is_pair me u x y || is_pair u me x y
    then none
    else s x y
spec known valid me invites s x y = s x y
spec known valid me (redeems owner token) s x y =
    if is_pair me owner x y
      && (valid owner token && (known me && known owner && not (is_some (s me owner))))
    then some pending
    else s x y

abbrev pub known_users : {E : Services} → World E → Uuid → Bool
known_users w u = user_exists u w.db

abbrev pub valid_links : {E : Services} → World E → Uuid → String → Bool
valid_links w owner token = serves (find_invite owner token w.now w.db)

module _ {E : Services} (auth : AuthUser) (w : World E) (x y : Uuid) where
  abbrev known : Uuid → Bool
  known = known_users w

  abbrev valid : Uuid → String → Bool
  valid = valid_links w

  abbrev me : Uuid
  me = auth.user_id

  abbrev before : Standing
  before = standing w.db

  spec-sends :
      (t : Uuid)
      → w.db_outcomes ≡ []
      → standing (send_request auth t w).1.db x y ≡ spec known valid me (sends t) before x y
  unfolding send_request
  spec-sends t up = ground (
    arith,
    first_status-stands me t w.db,
    stands-upsert_request w.db x y (new_contact (E.random_uuid w.drawn) me t pending w.now) refl,
  )

  spec-accepts :
      (r : Uuid)
      → w.db_outcomes ≡ []
      → standing (accept_request auth r w).1.db x y ≡ spec known valid me (accepts r) before x y
  unfolding accept_request
  spec-accepts r up = ground (arith, stands-accept_pending w.db x y r me w.now)

  module _ (distinct : IsUnique w.db) where
    spec-declines :
        (r : Uuid)
        → w.db_outcomes ≡ []
        → standing (decline_request auth r w).1.db x y ≡ spec known valid me (declines r) before x y
    unfolding decline_request
    spec-declines r up = ground (arith, stands-delete_pending w.db x y distinct r me)

    spec-removes :
        (u : Uuid)
        → w.db_outcomes ≡ []
        → standing (remove_contact auth u w).1.db x y ≡ spec known valid me (removes u) before x y
    unfolding remove_contact
    spec-removes u up = ground (arith, stands-delete_accepted w.db x y distinct me u)

    spec-blocks :
        (u : Uuid)
        → w.db_outcomes ≡ []
        → standing (block_user auth u w).1.db x y ≡ spec known valid me (blocks u) before x y
    unfolding block_user delete_between
    spec-blocks u up =
        let r = new_contact (E.random_uuid w.drawn) me u blocked w.now in
        let d = stored w.db (delete_between me u w.db) in
        ground (
          arith,
          stands-insert_contact d x y r,
          stands-delete_between w.db x y distinct me u,
          stands-delete_between w.db me u distinct me u,
          any-stands me u d.contacts,
          nat_eq_iff me me,
          nat_eq_iff u u,
        )

  -- A link that serves leaves the request if the two have no row of that direction.
  redeem_invite-standing :
      (owner : Uuid) (l : InviteLink)
      → w.db_outcomes ≡ []
      → standing (redeem_invite auth owner l w).1.db x y ≡ (
          if is_pair me owner x y && (known me && known owner && not (is_some (before me owner)))
          then some pending
          else before x y)
  unfolding redeem_invite use_up
  redeem_invite-standing owner l up =
      let r = new_contact (E.random_uuid w.drawn) me owner pending w.now in
      ground (
        arith,
        stands-insert_request_if_new (stored w.db (use_up l.id w.db)) x y r,
        any-stands me owner w.db.contacts,
      )

  spec-invites :
      (c : Config E)
      → standing (generate_invite_link c auth w).1.db x y ≡ spec known valid me invites before x y
  unfolding generate_invite_link insert_invite
  spec-invites c = ground arith

module _ {E : Services} (auth : AuthUser) (w : World E) (x y : Uuid) where
  spec-redeems :
      (owner : Uuid) (token : String)
      → w.db_outcomes ≡ []
      → standing (use_invite_link auth owner token w).1.db x y
        ≡ spec
            (known_users w)
            (valid_links w)
            auth.user_id
            (redeems owner token)
            (standing w.db)
            x
            y
  unfolding use_invite_link claim_invite
  spec-redeems owner token up =
      let w' : World E = record w { db_outcomes = [] } in
      elim (Option-cases (find_invite owner token w.now w.db)) [
        | inl missing ↦ ground arith
        | inr (l, found) ↦ elim (Bool-cases (is_zero l.uses_left)) [
          | inl used ↦ ground arith
          | inr left ↦ ground (arith, redeem_invite-standing auth w' x y owner l refl)
        ]
      ]

  -- When the database carries the statements out and no two contact rows have one requester and one
  -- target, a request of a user under /api/contacts does to the relation of how users stand to each
  -- other, pending, accepted or blocked, what the specification of the request says, for every two
  -- users, whatever the request answers.
  pub handle-spec :
      (c : Config E) (request : Request)
      → w.db_outcomes ≡ []
      → IsUnique w.db
      → standing (handle c auth request w).1.db x y
        ≡ spec (known_users w) (valid_links w) auth.user_id request (standing w.db) x y
  unfolding handle
  handle-spec c (sends t) up distinct = spec-sends auth w x y t up
  handle-spec c (accepts r) up distinct = spec-accepts auth w x y r up
  handle-spec c (declines r) up distinct = spec-declines auth w x y distinct r up
  handle-spec c (removes u) up distinct = spec-removes auth w x y distinct u up
  handle-spec c (blocks u) up distinct = spec-blocks auth w x y distinct u up
  handle-spec c invites up distinct = spec-invites auth w x y c
  handle-spec c (redeems owner token) up distinct = spec-redeems owner token up

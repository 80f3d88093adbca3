-- ===== src/Contacts/Permission.antt =====
-- routes/contacts.rs: who may call whom, and that only an acceptance adds to it.
use flutter_21_client.Prelude.{
  String, true, false, any, ◌≡◌, refl, Option-cases, arith, ◌⊎◌, inl, inr, ◌↔◌,
}
use flutter_21_client.Errors.{ok}
use flutter_21_client.Services.{Services, Uuid}
use flutter_21_client.World.{World, M, stored, first_outcome, done}
use flutter_21_client.World.Tables.{Db, pending, accepted, blocked, Contact}
use flutter_21_client.Config.{Config}
use flutter_21_client.Auth.{AuthUser}
use flutter_21_client.Contacts.{
  send_request, accept_request, decline_request, remove_contact, block_user, generate_invite_link,
  use_invite_link, can_call,
}
use flutter_21_client.Contacts.Statements.{
  is_status, is_contact, renew_request, is_pending_from_to, new_contact, upsert_request,
  insert_contact, insert_request_if_new, accept_pending, delete_pending, delete_accepted,
  delete_between, use_up, insert_invite, find_invite,
}
use flutter_21_client.Contacts.Rows.{
  is_link, any-keep, any-map, is_link-renew_request, any-accept_row, is_contact_comm,
}

-- A request to one of the routes under /api/contacts that write.
pub data Request : Type 0 where
  sends accepts declines removes blocks : Uuid → Request
  invites : Request
  redeems : Uuid → String → Request

unfoldable pub handle : {E : Services} → Config E → AuthUser → Request → M E String
handle c auth (sends target) = send_request auth target
handle c auth (accepts requester) = accept_request auth requester
handle c auth (declines requester) = decline_request auth requester
handle c auth (removes user) = remove_contact auth user
handle c auth (blocks user) = block_user auth user
handle c auth invites = generate_invite_link c auth
handle c auth (redeems owner token) = use_invite_link auth owner token

module _ (a b : Uuid) where
  abbrev pub Linked : Db → Type 0
  Linked d = is_contact a b d ≡ true

  pub Linked-upsert_request :
      (r : Contact) (d : Db)
      → r.status ≡ pending
      → Linked (stored d (upsert_request r d))
      → Linked d
  unfolding upsert_request
  Linked-upsert_request r d p h =
      ground
        (arith, any-map (is_link a b) (renew_request r) (is_link-renew_request a b r) d.contacts)

  pub Linked-insert_contact :
      (r : Contact) (d : Db)
      → is_status r.status accepted ≡ false
      → Linked (stored d (insert_contact r d))
      → Linked d
  unfolding insert_contact
  Linked-insert_contact r d p h = ground arith

  pub Linked-insert_request_if_new :
      (r : Contact) (d : Db)
      → r.status ≡ pending
      → Linked (stored d (insert_request_if_new r d))
      → Linked d
  unfolding insert_request_if_new
  Linked-insert_request_if_new r d p h = ground arith

  pub Linked-delete_pending :
      (r t : Uuid) (d : Db) → Linked (stored d (delete_pending r t d)) → Linked d
  unfolding delete_pending
  Linked-delete_pending r t d h = any-keep (is_link a b) _ d.contacts h

  pub Linked-delete_accepted :
      (r t : Uuid) (d : Db) → Linked (stored d (delete_accepted r t d)) → Linked d
  unfolding delete_accepted
  Linked-delete_accepted r t d h = any-keep (is_link a b) _ d.contacts h

  pub Linked-delete_between :
      (r t : Uuid) (d : Db) → Linked (stored d (delete_between r t d)) → Linked d
  unfolding delete_between
  Linked-delete_between r t d h = any-keep (is_link a b) _ d.contacts h

  module _ {E : Services} (auth : AuthUser) where
    Linked-send_request :
        (target : Uuid) (w : World E) → Linked (send_request auth target w).1.db → Linked w.db
    unfolding send_request
    Linked-send_request target w h =
        let r = new_contact (E.random_uuid w.drawn) auth.user_id target pending w.now in
        ground (arith, Linked-upsert_request r w.db refl)

    Linked-decline_request :
        (r : Uuid) (w : World E) → Linked (decline_request auth r w).1.db → Linked w.db
    unfolding decline_request
    Linked-decline_request r w h = ground (arith, Linked-delete_pending r auth.user_id w.db)

    Linked-remove_contact :
        (u : Uuid) (w : World E) → Linked (remove_contact auth u w).1.db → Linked w.db
    unfolding remove_contact
    Linked-remove_contact u w h = ground (arith, Linked-delete_accepted auth.user_id u w.db)

    Linked-block_user : (u : Uuid) (w : World E) → Linked (block_user auth u w).1.db → Linked w.db
    unfolding block_user
    Linked-block_user u w h =
        let r = new_contact (E.random_uuid w.drawn) auth.user_id u blocked w.now in
        ground (
          arith,
          Linked-delete_between auth.user_id u w.db,
          Linked-insert_contact r w.db refl,
          Linked-insert_contact r (stored w.db (delete_between auth.user_id u w.db)) refl,
        )

    Linked-generate_invite_link :
        (c : Config E) (w : World E) → Linked (generate_invite_link c auth w).1.db → Linked w.db
    unfolding generate_invite_link insert_invite
    Linked-generate_invite_link c w h = ground arith

    Linked-use_invite_link :
        (owner : Uuid) (token : String) (w : World E)
        → Linked (use_invite_link auth owner token w).1.db
        → Linked w.db
    unfolding use_invite_link use_up
    Linked-use_invite_link owner token w h =
        let r = new_contact (E.random_uuid w.drawn) auth.user_id owner pending w.now in
        elim (Option-cases (find_invite owner token w.now w.db)) [
          | inl missing ↦ ground arith
          | inr (l, found) ↦ ground (
            arith,
            Linked-insert_request_if_new r (stored w.db (use_up l.id w.db)) refl,
            Linked-insert_request_if_new r w.db refl,
          )
        ]

    pub Linked-accept_request :
        (requester : Uuid) (w : World E)
        → Linked (accept_request auth requester w).1.db
        → Linked w.db
          ⊎ ((any (is_pending_from_to requester auth.user_id) w.db.contacts ≡ true)
              × (((a ≡ requester) × (b ≡ auth.user_id)) ⊎ ((a ≡ auth.user_id) × (b ≡ requester))))
    unfolding accept_request accept_pending
    Linked-accept_request requester w h =
        ground (arith, any-accept_row a b requester auth.user_id w.now w.db.contacts)

-- Whatever request a user makes under /api/contacts, and however its statements end: two users who
-- are accepted contacts afterwards were so before, unless the request accepts a pending request that
-- one of the two had made to the other, who is the user making this request.
pub handle-links :
    {E : Services} (a b : Uuid) (c : Config E) (auth : AuthUser) (request : Request) (w : World E)
    → is_contact a b (handle c auth request w).1.db ≡ true
    → (is_contact a b w.db ≡ true)
      ⊎ ((requester : Uuid) × (request ≡ accepts requester)
          × (any (is_pending_from_to requester auth.user_id) w.db.contacts ≡ true)
          × (((a ≡ requester) × (b ≡ auth.user_id)) ⊎ ((a ≡ auth.user_id) × (b ≡ requester))))
unfolding handle
handle-links a b c auth (sends target) w h = inl (Linked-send_request a b auth target w h)
handle-links a b c auth (accepts requester) w h =
    elim (Linked-accept_request a b auth requester w h) [
      | inl before ↦ inl before
      | inr (asked, parties) ↦ inr (requester, refl, asked, parties)
    ]
handle-links a b c auth (declines r) w h = inl (Linked-decline_request a b auth r w h)
handle-links a b c auth (removes u) w h = inl (Linked-remove_contact a b auth u w h)
handle-links a b c auth (blocks u) w h = inl (Linked-block_user a b auth u w h)
handle-links a b c auth invites w h = inl (Linked-generate_invite_link a b auth c w h)
handle-links a b c auth (redeems owner token) w h =
    inl (Linked-use_invite_link a b auth owner token w h)

module _ {E : Services} where
  -- `can_call` always answers. It answers yes exactly when the database carries the query out and an
  -- accepted row joins the two users, and asking the other way round gives the same answer.
  pub can_call_iff :
      (caller callee : Uuid) (w : World E)
      → (((can_call caller callee w).0 ≡ ok true)
          ↔ ((first_outcome w.db_outcomes ≡ done) × (is_contact caller callee w.db ≡ true)))
        × (((can_call caller callee w).0 ≡ ok true) ⊎ ((can_call caller callee w).0 ≡ ok false))
        × ((can_call caller callee w).0 ≡ (can_call callee caller w).0)
  unfolding can_call
  can_call_iff caller callee w = (
    (λ h. ground arith, λ h. ground arith),
    ground arith,
    ground (arith, is_contact_comm caller callee w.db),
  )

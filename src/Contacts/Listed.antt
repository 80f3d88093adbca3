-- ===== src/Contacts/Listed.antt =====
-- routes/contacts.rs: who stands on the lists of contacts and of requests.
use flutter_21_client.Prelude.{
  String, Bool, ◌&&◌, ◌||◌, List, [], ◌∷◌, map, keep, any, any-append, nat_eq, ◌≡◌, refl, ap, ◌∙◌,
  arith, All,
}
use flutter_21_client.Errors.{ok}
use flutter_21_client.Services.{Services, Uuid, online}
use flutter_21_client.RedisStore.{exists, is_online}
use flutter_21_client.World.{World}
use flutter_21_client.World.Tables.{Db, User, Contact, accepted}
use flutter_21_client.Auth.{AuthUser}
use flutter_21_client.Contacts.Statements.{
  is_status, is_contact, user_exists, between, is_pending_from_to,
}
use flutter_21_client.Contacts.Listing.{
  ContactEntry, RequestEntry, Row, insert_sorted, order_by, row_of, join_users, other_party,
  is_mine, is_incoming, is_outgoing, newest_first, contact_rows, incoming_rows, outgoing_rows,
  contact_entry, request_entry, with_presence, list_contacts, pending_requests, sent_requests,
}

module _ {ℓ} {A : Type ℓ} where
  any-keep_and : (p q : A → Bool) (xs : List A) → any p (keep q xs) ≡ any (λ x. q x && p x) xs
  any-keep_and p q [] = refl
  any-keep_and p q (x ∷ xs) = ground (arith, any-keep_and p q xs)

  any_ext : (p q : A → Bool) → ((x : A) → p x ≡ q x) → (xs : List A) → any p xs ≡ any q xs
  any_ext p q h [] = refl
  any_ext p q h (x ∷ xs) = ground (arith, h x, any_ext p q h xs)

any-insert_sorted :
    (p : Row → Bool) (before : Row → Row → Bool) (r : Row) (rows : List Row)
    → any p (insert_sorted before r rows) ≡ (p r || any p rows)
any-insert_sorted p before r [] = refl
any-insert_sorted p before r (s ∷ rows) = ground (arith, any-insert_sorted p before r rows)

any-order_by :
    (p : Row → Bool) (before : Row → Row → Bool) (rows : List Row)
    → any p (order_by before rows) ≡ any p rows
any-order_by p before [] = refl
any-order_by p before (r ∷ rows) =
    ground (arith, any-insert_sorted p before r (order_by before rows), any-order_by p before rows)

module _ (u : Uuid) where
  abbrev of_user : Row → Bool
  of_user r = nat_eq r.user.user_id u

  any-users_of :
      (c : Contact) (party : Uuid) (users : List User)
      → any of_user (map (row_of c) (keep (λ v. nat_eq party v.user_id) users))
        ≡ (nat_eq party u && any (λ v. nat_eq v.user_id u) users)
  any-users_of c party [] = ground arith
  any-users_of c party (v ∷ users) = ground (arith, any-users_of c party users)

  any-join_users :
      (party : Contact → Uuid) (users : List User) (cs : List Contact)
      → any of_user (join_users party users cs)
        ≡ (any (λ c. nat_eq (party c) u) cs && any (λ v. nat_eq v.user_id u) users)
  any-join_users party users [] = refl
  any-join_users party users (c ∷ cs) =
      any-append of_user (map (row_of c) (keep (λ v. nat_eq (party c) v.user_id) users))
        (join_users party users cs)
      ∙ ground (arith, any-users_of c (party c) users, any-join_users party users cs)

  -- A sorted join over the rows that pass a test has the users whom such a row names.
  any-listed :
      (party : Contact → Uuid) (test named : Contact → Bool) (before : Row → Row → Bool) (d : Db)
      → ((c : Contact) → (test c && nat_eq (party c) u) ≡ named c)
      → any of_user (order_by before (join_users party d.users (keep test d.contacts)))
        ≡ (any named d.contacts && user_exists u d)
  any-listed party test named before d h =
      any-order_by of_user before (join_users party d.users (keep test d.contacts))
      ∙ any-join_users party d.users (keep test d.contacts)
      ∙ ap (λ b. b && user_exists u d)
          (any-keep_and (λ c. nat_eq (party c) u) test d.contacts
            ∙ any_ext (λ c. test c && nat_eq (party c) u) named h d.contacts)

  module _ (me : Uuid) (d : Db) where
    any-contact_rows :
        (collates : String → String → Bool)
        → any of_user (contact_rows collates me d) ≡ (is_contact me u d && user_exists u d)
    any-contact_rows collates =
        any-listed (other_party me) (is_mine me)
          (λ c. is_status c.status accepted && between me u c)
          (λ r s. collates r.user.display_name s.user.display_name) d (λ c. ground arith)

    any-incoming_rows :
        any of_user (incoming_rows me d)
        ≡ (any (is_pending_from_to u me) d.contacts && user_exists u d)
    any-incoming_rows =
        any-listed (λ c. c.requester_id) (is_incoming me) (is_pending_from_to u me) newest_first d
          (λ c. ground arith)

    any-outgoing_rows :
        any of_user (outgoing_rows me d)
        ≡ (any (is_pending_from_to me u) d.contacts && user_exists u d)
    any-outgoing_rows =
        any-listed (λ c. c.target_id) (is_outgoing me) (is_pending_from_to me u) newest_first d
          (λ c. ground arith)

abbrev pub lists_contact : Uuid → List ContactEntry → Bool
lists_contact u = any (λ e. nat_eq e.user_id u)

abbrev pub lists_request : Uuid → List RequestEntry → Bool
lists_request u = any (λ e. nat_eq e.user_id u)

-- The presence that an entry shows is that of the keyspace.
abbrev pub ShowsPresence : (E : Services) → E.Store → List ContactEntry → Type 0
ShowsPresence E s = All (λ e. e.is_online ≡ exists E (online e.user_id) s)

requests_lem :
    (E : Services) (u : Uuid) (rows : List Row)
    → lists_request u (map (request_entry E) rows) ≡ any (of_user u) rows
requests_lem E u [] = refl
requests_lem E u (r ∷ rows) = ground (arith, requests_lem E u rows)

module _ {E : Services} where
  with_presence-ok :
      (u : Uuid) (s : E.Store) (rows : List Row) (w : World E)
      → w.store ≡ s
      → w.redis_outcomes ≡ []
      → (entries : List ContactEntry) × ((with_presence rows w).0 ≡ ok entries)
        × (lists_contact u entries ≡ any (of_user u) rows)
        × ShowsPresence E s entries
  unfolding with_presence
  with_presence-ok u s [] w at_s up = ([], refl, refl, tt)
  with_presence-ok u s (r ∷ rows) w at_s up =
      let w' : World E = (is_online {E = E} r.user.user_id w).1 in
      let here = exists E (online r.user.user_id) s in
      let (entries, fine, same, shown) =
        with_presence-ok u s rows w' (ground arith) (ground arith) in
      (
        contact_entry E r here ∷ entries,
        ground (arith, fine),
        ground (arith, same),
        (ground arith, shown),
      )

  -- When the database and Redis answer: the contact list of a user has an entry for exactly the
  -- users with a row who are accepted contacts of that user, each with the presence that Redis has;
  -- the lists of requests have an entry for exactly the users with a row who have asked that user,
  -- and whom that user has asked, and where the request is pending.
  pub listing :
      (auth : AuthUser) (u : Uuid) (w : World E)
      → w.db_outcomes ≡ []
      → w.redis_outcomes ≡ []
      → ((entries : List ContactEntry) × ((list_contacts auth w).0 ≡ ok entries)
          × (lists_contact u entries ≡ (is_contact auth.user_id u w.db && user_exists u w.db))
          × ShowsPresence E w.store entries)
        × ((asked : List RequestEntry) × ((pending_requests auth w).0 ≡ ok asked)
            × (lists_request u asked
                ≡ (any (is_pending_from_to u auth.user_id) w.db.contacts && user_exists u w.db)))
        × ((sent : List RequestEntry) × ((sent_requests auth w).0 ≡ ok sent)
            × (lists_request u sent
                ≡ (any (is_pending_from_to auth.user_id u) w.db.contacts && user_exists u w.db)))
  unfolding list_contacts pending_requests sent_requests
  listing auth u w up up' =
      let rows = contact_rows E.collates auth.user_id w.db in
      let w' : World E = record w { db_outcomes = [] } in
      let (entries, fine, same, shown) = with_presence-ok u w.store rows w' refl up' in
      (
        (
          entries,
          ground (arith, fine),
          same ∙ any-contact_rows u auth.user_id w.db E.collates,
          shown,
        ),
        (
          map (request_entry E) (incoming_rows auth.user_id w.db),
          ground arith,
          requests_lem E u (incoming_rows auth.user_id w.db)
              ∙ any-incoming_rows u auth.user_id w.db,
        ),
        (
          map (request_entry E) (outgoing_rows auth.user_id w.db),
          ground arith,
          requests_lem E u (outgoing_rows auth.user_id w.db)
              ∙ any-outgoing_rows u auth.user_id w.db,
        ),
      )

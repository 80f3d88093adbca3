-- ===== src/Contacts/Listing.antt =====
-- routes/contacts.rs: the lists of contacts and of pending requests. A JOIN goes through the users for
-- each contact row; ORDER BY is an insertion sort, by the collation of the database or by time.
use flutter_21_client.Prelude.{
  ℕ, String, Bool, ◌&&◌, ◌||◌, Option, some, List, [], ◌∷◌, ◌++◌, map, keep, nat_eq, leb,
  if◌then◌else◌,
}
use flutter_21_client.Services.{Services, Uuid}
use flutter_21_client.World.{M, pure, attempt, db_query, ◌>>=◌}
use flutter_21_client.World.Tables.{Db, User, Contact, accepted, pending}
use flutter_21_client.Auth.{AuthUser}
use flutter_21_client.RedisStore.{is_online}
use flutter_21_client.Contacts.{ok_or_false}
use flutter_21_client.Contacts.Statements.{is_status}

pub record ContactEntry : Type 0 where
  pub user_id : Uuid
  pub username : String
  pub display_name : String
  pub avatar_url : Option String
  pub is_online : Bool
  pub last_seen : Option String
  pub status : String
  pub created_at : String

-- An entry of the lists of requests.
pub record RequestEntry : Type 0 where
  pub user_id : Uuid
  pub username : String
  pub display_name : String
  pub avatar_url : Option String
  pub created_at : String

-- The columns that the queries select, with the creation of the contact.
pub record Row : Type 0 where
  pub user : User
  pub created_at : ℕ

abbrev pub insert_sorted : (Row → Row → Bool) → Row → List Row → List Row
insert_sorted before r [] = r ∷ []
insert_sorted before r (s ∷ rows) =
    if before r s then r ∷ s ∷ rows else s ∷ insert_sorted before r rows

abbrev pub order_by : (Row → Row → Bool) → List Row → List Row
order_by before [] = []
order_by before (r ∷ rows) = insert_sorted before r (order_by before rows)

abbrev pub row_of : Contact → User → Row
row_of c u = record { user = u; created_at = c.created_at }

-- `JOIN users u ON party = u.user_id`
abbrev pub join_users : (Contact → Uuid) → List User → List Contact → List Row
join_users party users [] = []
join_users party users (c ∷ cs) =
    map (row_of c) (keep (λ u. nat_eq (party c) u.user_id) users) ++ join_users party users cs

abbrev pub other_party : Uuid → Contact → Uuid
other_party me c = if nat_eq c.requester_id me then c.target_id else c.requester_id

abbrev pub is_mine : Uuid → Contact → Bool
is_mine me c = (nat_eq c.requester_id me || nat_eq c.target_id me) && is_status c.status accepted

abbrev pub is_incoming : Uuid → Contact → Bool
is_incoming me c = nat_eq c.target_id me && is_status c.status pending

abbrev pub is_outgoing : Uuid → Contact → Bool
is_outgoing me c = nat_eq c.requester_id me && is_status c.status pending

-- `ORDER BY c.created_at DESC`
abbrev pub newest_first : Row → Row → Bool
newest_first r s = leb s.created_at r.created_at

abbrev pub contact_rows : (String → String → Bool) → Uuid → Db → List Row
contact_rows collates me d =
    order_by (λ r s. collates r.user.display_name s.user.display_name)
      (join_users (other_party me) d.users (keep (is_mine me) d.contacts))

abbrev pub incoming_rows : Uuid → Db → List Row
incoming_rows me d =
    order_by newest_first
      (join_users (λ c. c.requester_id) d.users (keep (is_incoming me) d.contacts))

abbrev pub outgoing_rows : Uuid → Db → List Row
outgoing_rows me d =
    order_by newest_first (join_users (λ c. c.target_id) d.users (keep (is_outgoing me) d.contacts))

abbrev pub contact_entry : (E : Services) → Row → Bool → ContactEntry
contact_entry E r online = record {
  user_id = r.user.user_id;
  username = r.user.username;
  display_name = r.user.display_name;
  avatar_url = r.user.avatar_url;
  is_online = online;
  last_seen = some (E.to_rfc3339 r.user.last_seen);
  status = "accepted";
  created_at = E.to_rfc3339 r.created_at;
}

abbrev pub request_entry : (E : Services) → Row → RequestEntry
request_entry E r = record {
  user_id = r.user.user_id;
  username = r.user.username;
  display_name = r.user.display_name;
  avatar_url = r.user.avatar_url;
  created_at = E.to_rfc3339 r.created_at;
}

module _ {E : Services} where
  -- The loop that asks Redis about each contact.
  unfoldable pub with_presence : List Row → M E (List ContactEntry)
  unfolding is_online
  with_presence [] = pure []
  with_presence (r ∷ rows) = do
    online ← attempt (is_online {E = E} r.user.user_id)
    entries ← with_presence rows
    pure (contact_entry E r (ok_or_false online) ∷ entries)

  unfoldable pub list_contacts : AuthUser → M E (List ContactEntry)
  unfolding db_query
  list_contacts auth = do rows ← db_query (contact_rows E.collates auth.user_id); with_presence rows

  unfoldable pub pending_requests : AuthUser → M E (List RequestEntry)
  unfolding db_query
  pending_requests auth = do
    rows ← db_query (incoming_rows auth.user_id)
    pure (map (request_entry E) rows)

  unfoldable pub sent_requests : AuthUser → M E (List RequestEntry)
  unfolding db_query
  sent_requests auth = do
    rows ← db_query (outgoing_rows auth.user_id)
    pure (map (request_entry E) rows)

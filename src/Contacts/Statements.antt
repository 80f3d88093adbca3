-- ===== src/Contacts/Statements.antt =====
-- routes/contacts.rs: the SQL statements, as functions on the tables. A WHERE clause is a test on a
-- row; UNIQUE and REFERENCES constraints refuse an INSERT by `none`.
use flutter_21_client.Prelude.{
  ℕ, suc, zero, ◌+◌, String, Bool, true, false, ◌&&◌, ◌||◌, not, Option, none, some, ◌∷◌, map, any,
  find, keep, length, nat_eq, ◌==◌, text_eq, ltb, if◌then◌else◌,
}
use flutter_21_client.Services.{Uuid}
use flutter_21_client.World.Tables.{
  Db, User, Status, pending, accepted, blocked, Contact, Integer, natural, negative, InviteLink,
}

abbrev pub is_status : Status → Status → Bool
is_status pending pending = true
is_status accepted accepted = true
is_status blocked blocked = true
is_status _ _ = false

-- `requester_id = $1 AND target_id = $2`
abbrev pub from_to : Uuid → Uuid → Contact → Bool
from_to a b c = nat_eq c.requester_id a && nat_eq c.target_id b

-- `(requester_id = $1 AND target_id = $2) OR (requester_id = $2 AND target_id = $1)`
abbrev pub between : Uuid → Uuid → Contact → Bool
between a b c = from_to a b c || from_to b a c

abbrev pub user_exists : Uuid → Db → Bool
user_exists u d = any (λ v. nat_eq v.user_id u) d.users

abbrev pub status_of : Option Contact → Option Status
status_of none = none
status_of (some c) = some c.status

abbrev pub first_status : Uuid → Uuid → Db → Option Status
first_status a b d = status_of (find (between a b) d.contacts)

abbrev pub is_contact : Uuid → Uuid → Db → Bool
is_contact a b d = any (λ c. is_status c.status accepted && between a b c) d.contacts

abbrev pub new_contact : Uuid → Uuid → Uuid → Status → ℕ → Contact
new_contact id requester target status now = record {
  id = id;
  requester_id = requester;
  target_id = target;
  status = status;
  created_at = now;
  updated_at = now;
}

abbrev pub parties_exist : Contact → Db → Bool
parties_exist c d = user_exists c.requester_id d && user_exists c.target_id d

abbrev pub is_taken : Contact → Db → Bool
is_taken c d = any (from_to c.requester_id c.target_id) d.contacts

abbrev pub add_contact : Contact → Db → Db
add_contact c d = record d { contacts = c ∷ d.contacts }

unfoldable pub insert_contact : Contact → Db → Option (Unit {0} × Db)
insert_contact c d =
    if parties_exist c d && not (is_taken c d) then some (tt, add_contact c d) else none

abbrev pub renew_request : Contact → Contact → Contact
renew_request c row =
    if from_to c.requester_id c.target_id row
    then record row { status = pending; updated_at = c.updated_at }
    else row

-- `ON CONFLICT (requester_id, target_id) DO UPDATE SET status = 'pending', updated_at = now()`
unfoldable pub upsert_request : Contact → Db → Option (Unit {0} × Db)
upsert_request c d =
    if not (parties_exist c d)
    then none
    else if is_taken c d
    then some (tt, record d { contacts = map (renew_request c) d.contacts })
    else some (tt, add_contact c d)

-- `ON CONFLICT DO NOTHING`
unfoldable pub insert_request_if_new : Contact → Db → Option (Unit {0} × Db)
insert_request_if_new c d =
    if not (parties_exist c d)
    then none
    else if is_taken c d
    then some (tt, d)
    else some (tt, add_contact c d)

abbrev pub is_pending_from_to : Uuid → Uuid → Contact → Bool
is_pending_from_to a b c = from_to a b c && is_status c.status pending

abbrev pub accept_row : Uuid → Uuid → ℕ → Contact → Contact
accept_row a b now c =
    if is_pending_from_to a b c then record c { status = accepted; updated_at = now } else c

-- With the number of rows that the UPDATE changed.
unfoldable pub accept_pending : Uuid → Uuid → ℕ → Db → Option (ℕ × Db)
accept_pending requester target now d = some (
  length (keep (is_pending_from_to requester target) d.contacts),
  record d { contacts = map (accept_row requester target now) d.contacts },
)

abbrev pub without : (Contact → Bool) → Db → Option (Unit {0} × Db)
without p d = some (tt, record d { contacts = keep (λ c. not (p c)) d.contacts })

unfoldable pub delete_pending : Uuid → Uuid → Db → Option (Unit {0} × Db)
delete_pending requester target = without (is_pending_from_to requester target)

unfoldable pub delete_accepted : Uuid → Uuid → Db → Option (Unit {0} × Db)
delete_accepted a b = without (λ c. is_status c.status accepted && between a b c)

unfoldable pub delete_between : Uuid → Uuid → Db → Option (Unit {0} × Db)
delete_between a b = without (between a b)

abbrev pub with_contact : Uuid → Db → Option User → Option (User × Bool)
with_contact viewer d none = none
with_contact viewer d (some u) = some (u, is_contact viewer u.user_id d)

abbrev pub find_handle : (String → String) → String → Uuid → Db → Option (User × Bool)
find_handle lower handle viewer d =
    with_contact viewer d (find (λ u. lower u.username == lower handle && u.is_active) d.users)

abbrev pub is_zero : Integer → Bool
is_zero (natural zero) = true
is_zero _ = false

abbrev pub minus_one : Integer → Integer
minus_one (natural zero) = negative 0
minus_one (natural (suc n)) = natural n
minus_one (negative n) = negative (suc n)

abbrev pub find_invite : Uuid → String → ℕ → Db → Option InviteLink
find_invite owner token now d =
    find (λ l. nat_eq l.owner_id owner && l.token == token && ltb now l.expires_at) d.invite_links

abbrev pub use_link : Uuid → InviteLink → InviteLink
use_link id l = if nat_eq l.id id then record l { uses_left = minus_one l.uses_left } else l

unfoldable pub use_up : Uuid → Db → Option (Unit {0} × Db)
use_up id d = some (tt, record d { invite_links = map (use_link id) d.invite_links })

-- One use within 24 hours.
abbrev pub with_invite : Uuid → Uuid → String → ℕ → Db → Db
with_invite id owner token now d = record d {
  invite_links =
      record {
        id = id;
        owner_id = owner;
        token = token;
        uses_left = natural 1;
        expires_at = now + 86400000;
        created_at = now;
      }
      ∷ d.invite_links;
}

unfoldable pub insert_invite : Uuid → Uuid → String → ℕ → Db → Option (Unit {0} × Db)
insert_invite id owner token now d =
    if not (user_exists owner d) || any (λ l. l.token == token || nat_eq l.id id) d.invite_links
    then none
    else some (tt, with_invite id owner token now d)

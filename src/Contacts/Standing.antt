-- ===== src/Contacts/Standing.antt =====
-- routes/contacts.rs: the rows of `contacts` as a directed relation between users, and what the
-- statements do to it.
use flutter_21_client.Prelude.{
  ℕ, Bool, ◌&&◌, ◌||◌, not, Option, none, some, List, [], ◌∷◌, map, any, find, keep, is_some,
  nat_eq, nat_eq_iff, ◌≡◌, refl, arith, if◌then◌else◌,
}
use flutter_21_client.Services.{Uuid}
use flutter_21_client.World.{stored}
use flutter_21_client.World.Tables.{Db, Contact, Status, pending, accepted}
use flutter_21_client.Contacts.Statements.{
  status_of, from_to, between, is_status, parties_exist, is_taken, first_status, renew_request,
  accept_row, is_pending_from_to, upsert_request, insert_contact, insert_request_if_new,
  accept_pending, delete_pending, delete_accepted, delete_between,
}
use flutter_21_client.Contacts.Rows.{find_of_not_any}
use flutter_21_client.Contacts.Unique.{HasDistinctPairs, any-keep-false}

-- How the first user stands to the second one by a request or a block of the first.
abbrev pub Standing : Type 0
Standing = Uuid → Uuid → Option Status

abbrev pub stands : List Contact → Standing
stands cs x y = status_of (find (from_to x y) cs)

abbrev pub standing : Db → Standing
standing d = stands d.contacts

abbrev pub is_pair : Uuid → Uuid → Uuid → Uuid → Bool
is_pair a b x y = nat_eq x a && nat_eq y b

abbrev pub changed : (Status → Status) → Option Status → Option Status
changed g none = none
changed g (some s) = some (g s)

abbrev pub filtered : (Status → Bool) → Option Status → Option Status
filtered k none = none
filtered k (some s) = if k s then some s else none

stands-map :
    (f : Contact → Contact) (g : Uuid → Uuid → Status → Status) (x y : Uuid)
    → ((c : Contact)
        → ((f c).requester_id ≡ c.requester_id)
          × ((f c).target_id ≡ c.target_id)
          × ((f c).status ≡ g c.requester_id c.target_id c.status))
    → (cs : List Contact) → stands (map f cs) x y ≡ changed (g x y) (stands cs x y)
stands-map f g x y same [] = refl
stands-map f g x y same (c ∷ cs) = ground (
  arith,
  same c,
  stands-map f g x y same cs,
  nat_eq_iff c.requester_id x,
  nat_eq_iff c.target_id y,
)

stands-keep :
    (q : Contact → Bool) (k : Uuid → Uuid → Status → Bool) (x y : Uuid)
    → ((c : Contact) → q c ≡ k c.requester_id c.target_id c.status)
    → (cs : List Contact) → HasDistinctPairs cs
    → stands (keep q cs) x y ≡ filtered (k x y) (stands cs x y)
stands-keep q k x y same [] h = refl
stands-keep q k x y same (c ∷ cs) h = ground (
  arith,
  same c,
  stands-keep q k x y same cs h.1,
  any-keep-false (from_to c.requester_id c.target_id) q cs h.0,
  find_of_not_any (from_to x y) (keep q cs),
  nat_eq_iff c.requester_id x,
  nat_eq_iff c.target_id y,
)

pub any-stands : (x y : Uuid) (cs : List Contact) → any (from_to x y) cs ≡ is_some (stands cs x y)
any-stands x y [] = refl
any-stands x y (c ∷ cs) = ground (arith, any-stands x y cs)

pub first_status-stands :
    (a b : Uuid) (d : Db)
    → is_some (first_status a b d) ≡ (is_some (standing d a b) || is_some (standing d b a))
first_status-stands a b d = go d.contacts
  where
    go :
        (cs : List Contact)
        → is_some (status_of (find (between a b) cs))
          ≡ (is_some (stands cs a b) || is_some (stands cs b a))
    go [] = refl
    go (c ∷ cs) = ground (arith, go cs)

module _ (d : Db) (x y : Uuid) where
  pub stands-upsert_request :
      (r : Contact)
      → r.status ≡ pending
      → standing (stored d (upsert_request r d)) x y ≡ (
          if parties_exist r d && is_pair r.requester_id r.target_id x y
          then some pending
          else standing d x y)
  unfolding upsert_request
  stands-upsert_request r p = ground (
    arith,
    any-stands r.requester_id r.target_id d.contacts,
    stands-map (renew_request r)
        (λ a b s. if is_pair r.requester_id r.target_id a b then pending else s) x y
        (λ c. ground arith) d.contacts,
    nat_eq_iff x r.requester_id,
    nat_eq_iff y r.target_id,
  )

  pub stands-insert_contact :
      (r : Contact)
      → standing (stored d (insert_contact r d)) x y ≡ (
          if parties_exist r d && (not (is_taken r d) && is_pair r.requester_id r.target_id x y)
          then some r.status
          else standing d x y)
  unfolding insert_contact
  stands-insert_contact r = ground arith

  pub stands-insert_request_if_new :
      (r : Contact)
      → standing (stored d (insert_request_if_new r d)) x y ≡ (
          if parties_exist r d && (not (is_taken r d) && is_pair r.requester_id r.target_id x y)
          then some r.status
          else standing d x y)
  unfolding insert_request_if_new
  stands-insert_request_if_new r = ground arith

  pub stands-accept_pending :
      (a b : Uuid) (now : ℕ)
      → standing (stored d (accept_pending a b now d)) x y
        ≡ changed
            (λ s. if is_pair a b x y && is_status s pending then accepted else s)
            (standing d x y)
  unfolding accept_pending
  stands-accept_pending a b now =
      stands-map (accept_row a b now)
        (λ v w s. if is_pair a b v w && is_status s pending then accepted else s) x y
        (λ c. ground arith) d.contacts

  module _ (distinct : HasDistinctPairs d.contacts) where
    pub stands-delete_pending :
        (a b : Uuid)
        → standing (stored d (delete_pending a b d)) x y
          ≡ filtered (λ s. not (is_pair a b x y && is_status s pending)) (standing d x y)
    unfolding delete_pending
    stands-delete_pending a b =
        stands-keep (λ c. not (is_pending_from_to a b c))
          (λ v w s. not (is_pair a b v w && is_status s pending)) x y (λ c. refl) d.contacts
          distinct

    pub stands-delete_accepted :
        (a b : Uuid)
        → standing (stored d (delete_accepted a b d)) x y
          ≡ filtered
              (λ s. not (is_status s accepted && (is_pair a b x y || is_pair b a x y)))
              (standing d x y)
    unfolding delete_accepted
    stands-delete_accepted a b =
        stands-keep (λ c. not (is_status c.status accepted && between a b c))
          (λ v w s. not (is_status s accepted && (is_pair a b v w || is_pair b a v w))) x y
          (λ c. refl) d.contacts distinct

    pub stands-delete_between :
        (a b : Uuid)
        → standing (stored d (delete_between a b d)) x y
          ≡ filtered (λ s. not (is_pair a b x y || is_pair b a x y)) (standing d x y)
    unfolding delete_between
    stands-delete_between a b =
        stands-keep (λ c. not (between a b c)) (λ v w s. not (is_pair a b v w || is_pair b a v w)) x
          y (λ c. refl) d.contacts distinct

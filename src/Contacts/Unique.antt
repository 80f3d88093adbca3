-- ===== src/Contacts/Unique.antt =====
-- routes/contacts.rs: the rows of `contacts` keep the UNIQUE (requester_id, target_id) of the schema.
use flutter_21_client.Prelude.{
  String, Bool, false, ◌&&◌, not, List, [], ◌∷◌, map, any, keep, ◌≡◌, refl, arith, Option-cases,
  inl, inr,
}
use flutter_21_client.Services.{Services, Uuid}
use flutter_21_client.World.{World, stored}
use flutter_21_client.World.Tables.{Db, pending, accepted, blocked, Contact}
use flutter_21_client.Config.{Config}
use flutter_21_client.Auth.{AuthUser}
use flutter_21_client.Contacts.{
  send_request, accept_request, decline_request, remove_contact, block_user, generate_invite_link,
  use_invite_link,
}
use flutter_21_client.Contacts.Permission.{
  Request, sends, accepts, declines, removes, blocks, invites, redeems, handle,
}
use flutter_21_client.Contacts.Statements.{
  from_to, between, is_status, renew_request, accept_row, new_contact, is_pending_from_to,
  upsert_request, insert_contact, insert_request_if_new, accept_pending, delete_pending,
  delete_accepted, delete_between, use_up, insert_invite, find_invite,
}
use flutter_21_client.Contacts.Rows.{any-map_same}

-- No two rows have one requester and one target.
abbrev pub HasDistinctPairs : List Contact → Type 0
HasDistinctPairs [] = Unit
HasDistinctPairs (c ∷ cs) =
    (any (from_to c.requester_id c.target_id) cs ≡ false) × HasDistinctPairs cs

abbrev pub IsUnique : Db → Type 0
IsUnique d = HasDistinctPairs d.contacts

pub any-keep-false :
    {A : Type 0} (p q : A → Bool) (xs : List A) → any p xs ≡ false → any p (keep q xs) ≡ false
any-keep-false p q [] h = refl
any-keep-false p q (x ∷ xs) h = ground (arith, any-keep-false p q xs)

pub HasDistinctPairs-keep :
    (q : Contact → Bool) (cs : List Contact) → HasDistinctPairs cs → HasDistinctPairs (keep q cs)
HasDistinctPairs-keep q [] h = tt
HasDistinctPairs-keep q (c ∷ cs) h = ground (
  arith,
  HasDistinctPairs-keep q cs h.1,
  any-keep-false (from_to c.requester_id c.target_id) q cs,
)

-- An UPDATE that leaves both users of every row alone.
pub HasDistinctPairs-map :
    (f : Contact → Contact)
    → ((c : Contact) → ((f c).requester_id ≡ c.requester_id) × ((f c).target_id ≡ c.target_id))
    → (cs : List Contact) → HasDistinctPairs cs
    → HasDistinctPairs (map f cs)
HasDistinctPairs-map f same [] h = tt
HasDistinctPairs-map f same (c ∷ cs) h = ground (
  arith,
  same c,
  HasDistinctPairs-map f same cs h.1,
  any-map_same (from_to c.requester_id c.target_id) f (λ x. ground (arith, same x)) cs,
)

module _ (r : Contact) (d : Db) (u : IsUnique d) where
  pub IsUnique-insert_contact : IsUnique (stored d (insert_contact r d))
  unfolding insert_contact
  IsUnique-insert_contact = ground arith

  pub IsUnique-insert_request_if_new : IsUnique (stored d (insert_request_if_new r d))
  unfolding insert_request_if_new
  IsUnique-insert_request_if_new = ground arith

  pub IsUnique-upsert_request : IsUnique (stored d (upsert_request r d))
  unfolding upsert_request
  IsUnique-upsert_request =
      ground (arith, HasDistinctPairs-map (renew_request r) (λ c. ground arith) d.contacts u)

module _ {E : Services} (auth : AuthUser) (w : World E) (u : IsUnique w.db) where
  IsUnique-send_request : (target : Uuid) → IsUnique (send_request auth target w).1.db
  unfolding send_request
  IsUnique-send_request target = ground (
    arith,
    IsUnique-upsert_request (new_contact (E.random_uuid w.drawn) auth.user_id target pending w.now)
        w.db u,
  )

  IsUnique-accept_request : (r : Uuid) → IsUnique (accept_request auth r w).1.db
  unfolding accept_request accept_pending
  IsUnique-accept_request r = ground (
    arith,
    HasDistinctPairs-map (accept_row r auth.user_id w.now) (λ c. ground arith) w.db.contacts u,
  )

  IsUnique-decline_request : (r : Uuid) → IsUnique (decline_request auth r w).1.db
  unfolding decline_request delete_pending
  IsUnique-decline_request r = ground (
    arith,
    HasDistinctPairs-keep (λ c. not (is_pending_from_to r auth.user_id c)) w.db.contacts u,
  )

  IsUnique-remove_contact : (v : Uuid) → IsUnique (remove_contact auth v w).1.db
  unfolding remove_contact delete_accepted
  IsUnique-remove_contact v = ground (
    arith,
    HasDistinctPairs-keep (λ c. not (is_status c.status accepted && between auth.user_id v c))
        w.db.contacts u,
  )

  IsUnique-delete_between : (v : Uuid) → IsUnique (stored w.db (delete_between auth.user_id v w.db))
  unfolding delete_between
  IsUnique-delete_between v =
      HasDistinctPairs-keep (λ c. not (between auth.user_id v c)) w.db.contacts u

  IsUnique-block_user : (v : Uuid) → IsUnique (block_user auth v w).1.db
  unfolding block_user
  IsUnique-block_user v =
      let r = new_contact (E.random_uuid w.drawn) auth.user_id v blocked w.now in
      let d = stored w.db (delete_between auth.user_id v w.db) in
      ground (
        arith,
        IsUnique-delete_between v,
        IsUnique-insert_contact r w.db u,
        IsUnique-insert_contact r d (IsUnique-delete_between v),
      )

  IsUnique-generate_invite_link : (c : Config E) → IsUnique (generate_invite_link c auth w).1.db
  unfolding generate_invite_link insert_invite
  IsUnique-generate_invite_link c = ground arith

  IsUnique-use_invite_link :
      (owner : Uuid) (token : String) → IsUnique (use_invite_link auth owner token w).1.db
  unfolding use_invite_link use_up
  IsUnique-use_invite_link owner token =
      let r = new_contact (E.random_uuid w.drawn) auth.user_id owner pending w.now in
      elim (Option-cases (find_invite owner token w.now w.db)) [
        | inl missing ↦ ground arith
        | inr (l, found) ↦ ground (
          arith,
          IsUnique-insert_request_if_new r (stored w.db (use_up l.id w.db)) u,
          IsUnique-insert_request_if_new r w.db u,
        )
      ]

-- Every request under /api/contacts, whatever it answers and however its statements end, keeps the
-- contact rows free of two rows with one requester and one target.
pub handle-IsUnique :
    {E : Services} (c : Config E) (auth : AuthUser) (request : Request) (w : World E)
    → IsUnique w.db
    → IsUnique (handle c auth request w).1.db
unfolding handle
handle-IsUnique c auth (sends target) w u = IsUnique-send_request auth w u target
handle-IsUnique c auth (accepts r) w u = IsUnique-accept_request auth w u r
handle-IsUnique c auth (declines r) w u = IsUnique-decline_request auth w u r
handle-IsUnique c auth (removes v) w u = IsUnique-remove_contact auth w u v
handle-IsUnique c auth (blocks v) w u = IsUnique-block_user auth w u v
handle-IsUnique c auth invites w u = IsUnique-generate_invite_link auth w u c
handle-IsUnique c auth (redeems owner token) w u = IsUnique-use_invite_link auth w u owner token

-- ===== src/Contacts/Blocks.antt =====
-- routes/contacts.rs: what a block does, and how an invite link gets round it.
use flutter_21_client.Prelude.{
  String, Bool, true, false, ◌&&◌, not, some, List, [], ◌∷◌, any, find, keep, ◌≡◌, ◌≢◌, refl, sym,
  arith,
}
use flutter_21_client.Errors.{ok, err, forbidden}
use flutter_21_client.Services.{Services, Uuid}
use flutter_21_client.World.{World, M, ◌>>=◌}
use flutter_21_client.World.Tables.{Db, blocked, Contact, InviteLink}
use flutter_21_client.Auth.{AuthUser}
use flutter_21_client.Contacts.{send_request, accept_request, block_user, use_invite_link, can_call}
use flutter_21_client.Contacts.Statements.{
  from_to, between, is_status, is_contact, first_status, user_exists, new_contact, insert_contact,
  delete_between, accept_pending, accept_row, find_invite, insert_request_if_new, use_up, is_zero,
  status_of,
}
use flutter_21_client.Contacts.Rows.{is_link, any-keep_disjoint, is_contact_comm, any-map_same}

-- After a block: the blocker's row is the only one of the two users, who are different.
abbrev pub IsBlocked : Uuid → Uuid → Db → Type 0
IsBlocked blocker user d =
    (is_contact blocker user d ≡ false)
    × (first_status blocker user d ≡ some blocked)
    × (first_status user blocker d ≡ some blocked)
    × (any (from_to user blocker) d.contacts ≡ false)
    × (user_exists blocker d ≡ true)
    × (user_exists user d ≡ true)

abbrev pub is_block : Uuid → Uuid → Contact → Bool
is_block a b c = from_to a b c && is_status c.status blocked

any-is_block :
    (a b : Uuid) (cs : List Contact)
    → any (from_to b a) cs ≡ false
    → status_of (find (between a b) cs) ≡ some blocked
    → any (is_block a b) cs ≡ true
any-is_block a b [] h e = cc
any-is_block a b (c ∷ cs) h e = ground (arith, any-is_block a b cs)

module _ (a b : Uuid) (d : Db) (apart : a ≢ b) where
  abbrev rest : List Contact
  rest = keep (λ c. not (between a b c)) d.contacts

  block-IsBlocked :
      (r : Contact)
      → r.requester_id ≡ a
      → r.target_id ≡ b
      → r.status ≡ blocked
      → user_exists a d ≡ true
      → user_exists b d ≡ true
      → IsBlocked a b (record d { contacts = r ∷ rest })
  block-IsBlocked r ra rb rs ea eb = (
    ground (
      arith,
      any-keep_disjoint (is_link a b) (λ c. not (between a b c)) (λ c h. ground arith) d.contacts,
    ),
    ground arith,
    ground arith,
    ground (
      arith,
      any-keep_disjoint (from_to b a) (λ c. not (between a b c)) (λ c h. ground arith) d.contacts,
    ),
    ea,
    eb,
  )

-- The owner's link is redeemed, and the owner accepts the request that this leaves.
abbrev pub redeem_and_accept : {E : Services} → AuthUser → AuthUser → String → M E String
redeem_and_accept owner user token =
    use_invite_link user owner.user_id token >>= (λ _. accept_request owner user.user_id)

module _ {E : Services} where
  block_user-IsBlocked :
      (auth : AuthUser) (user : Uuid) (w : World E) (answer : String)
      → auth.user_id ≢ user
      → (block_user auth user w).0 ≡ ok answer
      → IsBlocked auth.user_id user (block_user auth user w).1.db
  unfolding block_user delete_between insert_contact
  block_user-IsBlocked auth user w answer apart h =
      let r = new_contact (E.random_uuid w.drawn) auth.user_id user blocked w.now in
      ground (arith, block-IsBlocked auth.user_id user w.db apart r refl refl refl)

  send_request_blocked :
      (auth : AuthUser) (target : Uuid) (w : World E)
      → w.db_outcomes ≡ []
      → target ≢ auth.user_id
      → user_exists target w.db ≡ true
      → first_status auth.user_id target w.db ≡ some blocked
      → (send_request auth target w).0 ≡ err (forbidden "BLOCKED")
  unfolding send_request
  send_request_blocked auth target w up ne ex st = ground arith

  module _ (auth other : AuthUser) (w v : World E) (answer : String)
      (apart : auth.user_id ≢ other.user_id)
      (done : (block_user auth other.user_id w).0 ≡ ok answer)
      (same : v.db ≡ (block_user auth other.user_id w).1.db) (up : v.db_outcomes ≡ []) where
    IsBlocked-now : IsBlocked auth.user_id other.user_id v.db
    IsBlocked-now = rw same (block_user-IsBlocked auth other.user_id w answer apart done)

    -- After a user has blocked another user, and while the tables stay so, a contact request of
    -- either to the other is refused as BLOCKED, and neither may call the other. The database
    -- answers.
    pub blocks_both_ways :
        ((send_request auth other.user_id v).0 ≡ err (forbidden "BLOCKED"))
        × ((send_request other auth.user_id v).0 ≡ err (forbidden "BLOCKED"))
        × ((can_call auth.user_id other.user_id v).0 ≡ ok false)
        × ((can_call other.user_id auth.user_id v).0 ≡ ok false)
    unfolding can_call
    blocks_both_ways =
        let (no_link, st, st', _, ea, eb) = IsBlocked-now in
        (
          send_request_blocked auth other.user_id v up (λ e. apart (sym e)) eb st,
          send_request_blocked other auth.user_id v up apart ea st',
          ground arith,
          ground (arith, is_contact_comm auth.user_id other.user_id v.db),
        )

    -- While the tables are as a block left them, the blocked user, who is not the blocker, can
    -- redeem an invite link of the blocker that has uses left, and if the blocker accepts the
    -- request that this leaves, the two are accepted contacts although the blocked row is still
    -- there. The database answers.
    pub invite_passes_block :
        (token : String) (l : InviteLink)
        → find_invite auth.user_id token v.now v.db ≡ some l
        → is_zero l.uses_left ≡ false
        → ((redeem_and_accept auth other token v).0 ≡ ok "accepted")
          × (is_contact other.user_id auth.user_id (redeem_and_accept auth other token v).1.db
              ≡ true)
          × (any
                (is_block auth.user_id other.user_id)
                (redeem_and_accept auth other token v).1.db.contacts
              ≡ true)
    unfolding use_invite_link accept_request use_up insert_request_if_new accept_pending
    invite_passes_block token l found uses =
        let (no_link, st, st', free, ea, eb) = IsBlocked-now in
        (
          ground arith,
          ground arith,
          ground (
            arith,
            any-map_same (is_block auth.user_id other.user_id)
                (accept_row other.user_id auth.user_id v.now) (λ c. ground arith) v.db.contacts,
            any-is_block auth.user_id other.user_id v.db.contacts free st,
          ),
        )

-- ===== src/System/References.antt =====
-- db/mod.rs, the foreign keys of the schema, and the users of the connections: what every statement
-- of the server keeps.
use flutter_21_client.Prelude.{
  All-imp, All-map, All-keep, ℕ, String, true, List, ◌∷◌, map, text_eq, ◌≡◌, arith, ◌∙◌, suc, ◌⊎◌,
  inl, inr, Bool-cases,
}
use flutter_21_client.Services.{Uuid}
use flutter_21_client.World.{WsTx, stored}
use flutter_21_client.World.Tables.{Db, User, Room, Contact, pending, blocked}
use flutter_21_client.Database.{insert_user, mark_seen, seen, insert_room}
use flutter_21_client.Contacts.Statements.{
  is_taken, add_contact, with_invite, user_exists, renew_request, accept_row, new_contact,
  upsert_request, insert_contact, insert_request_if_new, accept_pending, delete_pending,
  delete_accepted, delete_between, use_up, use_link, insert_invite,
}
use flutter_21_client.System.Stable.{Property, Respects, Stable, Accepting}
use flutter_21_client.System.Integrity.{HasReferences, HasConnectedUsers, user_exists-seen}

abbrev Names : Db → Contact → Type 0
Names d c = (user_exists c.requester_id d ≡ true) × (user_exists c.target_id d ≡ true)

-- Users are only ever added.
abbrev pub Grows : Db → Db → Type 0
Grows d e = (u : Uuid) → user_exists u d ≡ true → user_exists u e ≡ true

pub Grows-insert_user : (u : User) (d : Db) → Grows d (stored d (insert_user u d))
unfolding insert_user
Grows-insert_user u d v h = ground arith

pub Grows-mark_seen : (u : Uuid) (now : ℕ) (d : Db) → Grows d (stored d (mark_seen u now d))
unfolding mark_seen
Grows-mark_seen u now d v h = user_exists-seen v u now d.users ∙ h

-- A statement leaves the tables alone or, under the condition, writes them.
abbrev Writes : Db → Db → Type 0 → Db → Type 0
Writes d after C e = (after ≡ d) ⊎ (C × (after ≡ e))

References-Writes :
    (d after e : Db) (C : Type 0) (cs : List (Uuid × WsTx))
    → Writes d after C e
    → HasReferences d cs
    → (C → HasReferences e cs)
    → HasReferences after cs
References-Writes d after e C cs (inl same) h k = rw same h
References-Writes d after e C cs (inr (holds, same)) h k = rw same (k holds)

References-Grows :
    (d : Db) (us : List User) (n : ℕ) (cs : List (Uuid × WsTx))
    → Grows d (record d { users = us; next_user = n })
    → HasReferences d cs
    → HasReferences (record d { users = us; next_user = n }) cs
References-Grows d us n cs more h =
    let e : Db = record d { users = us; next_user = n } in
    (
      All-imp {P = Names d} {Q = Names e} (λ c n. (more c.requester_id n.0, more c.target_id n.1))
          d.contacts h.0,
      All-imp {P = λ r. user_exists r.created_by d ≡ true}
          {Q = λ r. user_exists r.created_by e ≡ true} (λ r n. more r.created_by n) d.rooms h.1,
      All-imp {P = λ l. user_exists l.owner_id d ≡ true} {Q = λ l. user_exists l.owner_id e ≡ true}
          (λ l n. more l.owner_id n) d.invite_links h.2,
    )

References-inserts_user : (u : User) → Respects HasReferences (insert_user u)
unfolding insert_user
References-inserts_user u d cs h =
    References-Writes d (stored d (insert_user u d))
      (record d { users = u ∷ d.users; next_user = suc d.next_user }) Unit cs (ground arith) h
      (λ _. References-Grows d (u ∷ d.users) (suc d.next_user) cs (λ v k. ground arith) h)

References-marks_seen : (u : Uuid) (now : ℕ) → Respects HasReferences (mark_seen u now)
unfolding mark_seen
References-marks_seen u now d cs h =
    References-Grows d (map (seen u now) d.users) d.next_user cs
      (λ v k. user_exists-seen v u now d.users ∙ k) h

References-inserts_room : (r : Room) → Respects HasReferences (insert_room r)
unfolding insert_room
References-inserts_room r d cs h =
    References-Writes d (stored d (insert_room r d))
      (record d { rooms = r ∷ d.rooms; next_room = suc d.next_room })
      (user_exists r.created_by d ≡ true) cs (ground arith) h (λ known. (h.0, (known, h.1), h.2))

References-add_contact :
    (r : Contact) (d : Db) (cs : List (Uuid × WsTx))
    → Names d r
    → HasReferences d cs
    → HasReferences (add_contact r d) cs
References-add_contact r d cs known h = ((known, h.0), h.1, h.2)

References-renew :
    (r : Contact) (d : Db) (cs : List (Uuid × WsTx))
    → HasReferences d cs
    → HasReferences (record d { contacts = map (renew_request r) d.contacts }) cs
References-renew r d cs h =
    (All-map (Names d) (renew_request r) (λ c n. ground arith) d.contacts h.0, h.1, h.2)

References-upsert_request : (r : Contact) → Respects HasReferences (upsert_request r)
unfolding upsert_request
References-upsert_request r d cs h = elim (Bool-cases (is_taken r d)) [
  | inl taken ↦
      References-Writes d (stored d (upsert_request r d))
        (record d { contacts = map (renew_request r) d.contacts }) Unit cs (ground arith) h
        (λ _. References-renew r d cs h)
  | inr free ↦
      References-Writes d (stored d (upsert_request r d)) (add_contact r d) (Names d r) cs
        (ground arith) h (λ known. References-add_contact r d cs known h)
]

References-insert_contact : (r : Contact) → Respects HasReferences (insert_contact r)
unfolding insert_contact
References-insert_contact r d cs h =
    References-Writes d (stored d (insert_contact r d)) (add_contact r d) (Names d r) cs
      (ground arith) h (λ known. References-add_contact r d cs known h)

References-insert_request_if_new : (r : Contact) → Respects HasReferences (insert_request_if_new r)
unfolding insert_request_if_new
References-insert_request_if_new r d cs h =
    References-Writes d (stored d (insert_request_if_new r d)) (add_contact r d) (Names d r) cs
      (ground arith) h (λ known. References-add_contact r d cs known h)

References-insert_invite :
    (id owner : Uuid) (token : String) (now : ℕ)
    → Respects HasReferences (insert_invite id owner token now)
unfolding insert_invite
References-insert_invite id owner token now d cs h =
    References-Writes d (stored d (insert_invite id owner token now d))
      (with_invite id owner token now d) (user_exists owner d ≡ true) cs (ground arith) h
      (λ known. (h.0, h.1, (known, h.2)))

References-use_up : (id : Uuid) → Respects HasReferences (use_up id)
unfolding use_up
References-use_up id d cs h = (
  h.0,
  h.1,
  All-map (λ l. user_exists l.owner_id d ≡ true) (use_link id) (λ l n. ground arith) d.invite_links
      h.2,
)

pub Stable-HasReferences : Stable HasReferences
unfolding delete_pending delete_accepted delete_between
Stable-HasReferences = record {
  inserts_user = References-inserts_user;
  marks_seen = References-marks_seen;
  inserts_room = References-inserts_room;
  asks = λ id a b now. References-upsert_request (new_contact id a b pending now);
  declines = λ a b d cs h. (All-keep (Names d) _ d.contacts h.0, h.1, h.2);
  removes = λ a b d cs h. (All-keep (Names d) _ d.contacts h.0, h.1, h.2);
  clears = λ a b d cs h. (All-keep (Names d) _ d.contacts h.0, h.1, h.2);
  blocks = λ id a b now. References-insert_contact (new_contact id a b blocked now);
  asks_by_link = λ id a b now. References-insert_request_if_new (new_contact id a b pending now);
  invites = References-insert_invite;
  uses = References-use_up;
}

pub Accepting-HasReferences : Accepting HasReferences
unfolding accept_pending
Accepting-HasReferences a b now d cs h =
    (All-map (Names d) (accept_row a b now) (λ c n. ground arith) d.contacts h.0, h.1, h.2)

Grows-insert_room : (r : Room) (d : Db) → Grows d (stored d (insert_room r d))
unfolding insert_room
Grows-insert_room r d u h = ground arith

Grows-upsert_request : (r : Contact) (d : Db) → Grows d (stored d (upsert_request r d))
unfolding upsert_request
Grows-upsert_request r d u h = ground arith

Grows-insert_contact : (r : Contact) (d : Db) → Grows d (stored d (insert_contact r d))
unfolding insert_contact
Grows-insert_contact r d u h = ground arith

Grows-insert_request_if_new :
    (r : Contact) (d : Db) → Grows d (stored d (insert_request_if_new r d))
unfolding insert_request_if_new
Grows-insert_request_if_new r d u h = ground arith

Grows-insert_invite :
    (id owner : Uuid) (token : String) (now : ℕ) (d : Db)
    → Grows d (stored d (insert_invite id owner token now d))
unfolding insert_invite
Grows-insert_invite id owner token now d u h = ground arith

-- A property that grows with the users is kept by every statement.
module _ (P : Property)
    (grows : (d e : Db) (cs : List (Uuid × WsTx)) → Grows d e → P d cs → P e cs) where
  pub Stable-of-growth : Stable P
  unfolding delete_pending delete_accepted delete_between use_up
  Stable-of-growth = record {
    inserts_user = λ u d cs. grows d _ cs (Grows-insert_user u d);
    marks_seen = λ u now d cs. grows d _ cs (Grows-mark_seen u now d);
    inserts_room = λ r d cs. grows d _ cs (Grows-insert_room r d);
    asks =
        λ id a b now d cs. grows d _ cs (Grows-upsert_request (new_contact id a b pending now) d);
    declines = λ a b d cs. grows d _ cs (λ u h. h);
    removes = λ a b d cs. grows d _ cs (λ u h. h);
    clears = λ a b d cs. grows d _ cs (λ u h. h);
    blocks =
        λ id a b now d cs. grows d _ cs (Grows-insert_contact (new_contact id a b blocked now) d);
    asks_by_link = λ id a b now d cs.
        grows d _ cs (Grows-insert_request_if_new (new_contact id a b pending now) d);
    invites = λ id a t now d cs. grows d _ cs (Grows-insert_invite id a t now d);
    uses = λ id d cs. grows d _ cs (λ u h. h);
  }

  pub Accepting-of-growth : Accepting P
  unfolding accept_pending
  Accepting-of-growth a b now d cs = grows d _ cs (λ u h. h)

pub HasConnectedUsers-Grows :
    (d e : Db) (cs : List (Uuid × WsTx))
    → Grows d e
    → HasConnectedUsers d cs
    → HasConnectedUsers e cs
HasConnectedUsers-Grows d e cs more h = (All-imp (λ k. more k.0) cs h.0, h.1)

-- ===== src/Tasks/Taken.antt =====
-- db/mod.rs, `create_user`: a name or an address that a user has.
use flutter_21_client.Prelude.{
  ℕ, suc, Option, String, Bool, true, ◌||◌, none, List, [], ◌∷◌, any, nat_eq, ◌==◌, text_eq,
  eq_refl, ◌≡◌, ◌≢◌, ◌∙◌, arith,
}
use flutter_21_client.Errors.{ok}
use flutter_21_client.Services.{Services, Uuid}
use flutter_21_client.World.{World, db_statement}
use flutter_21_client.World.Tables.{Db, User}
use flutter_21_client.Database.{
  create_user, insert_user, user_conflicts, user_row, mark_seen, seen, insert_room,
}
use flutter_21_client.Auth.{RegisterRequest}
use flutter_21_client.Auth.Registration.{IsAdded, create_user-ok}
use flutter_21_client.Contacts.Statements.{
  upsert_request, insert_contact, insert_request_if_new, accept_pending, delete_pending,
  delete_accepted, delete_between, use_up, insert_invite,
}
use flutter_21_client.Contacts.Rows.{any-map_same}
use flutter_21_client.System.Stable.{Property, Stable, Respects}
use flutter_21_client.System.Invariant.{Invariant}

-- The columns of `users` that are UNIQUE and that a request fills.
pub data Column : Type 0 where
  username_column email_column : Column

abbrev pub of_user : Column → User → String
of_user username_column u = u.username
of_user email_column u = u.email

abbrev pub of_request : Column → RegisterRequest → String
of_request username_column body = body.username
of_request email_column body = body.email

abbrev pub IsTaken : Column → String → Property
IsTaken col text d cs = any (λ v. of_user col v == text) d.users ≡ true

module _ (col : Column) (text : String) where
  of_user-seen :
      (user : Uuid) (now : ℕ) (v : User)
      → (of_user col (seen user now v) == text) ≡ (of_user col v == text)
  unfolding seen
  of_user-seen user now v = elim col [
    | username_column ↦ ground arith
    | email_column ↦ ground arith
  ]

  IsTaken-mark_seen : (u : Uuid) (now : ℕ) → Respects (IsTaken col text) (mark_seen u now)
  unfolding mark_seen
  IsTaken-mark_seen u now d cs h =
      any-map_same (λ v. of_user col v == text) (seen u now) (of_user-seen u now) d.users ∙ h

  Stable-IsTaken : Stable (IsTaken col text)
  unfolding insert_user insert_room upsert_request insert_request_if_new insert_contact
      delete_pending delete_accepted delete_between insert_invite use_up
  Stable-IsTaken = record {
    inserts_user = λ u d cs h. ground arith;
    marks_seen = IsTaken-mark_seen;
    inserts_room = λ r d cs h. ground arith;
    asks = λ id a b now d cs h. ground arith;
    declines = λ a b d cs h. h;
    removes = λ a b d cs h. h;
    clears = λ a b d cs h. h;
    blocks = λ id a b now d cs h. ground arith;
    asks_by_link = λ id a b now d cs h. ground arith;
    invites = λ id a token now d cs h. ground arith;
    uses = λ id d cs h. h;
  }

  pub Invariant-IsTaken : Invariant (IsTaken col text)
  unfolding accept_pending
  Invariant-IsTaken = record {
    stable = Stable-IsTaken;
    accepting = λ a b now d cs h. h;
    entering = λ tx user d cs active p. p;
    leaving = λ user d cs p. p;
  }

abbrev clashes : User → User → Bool
clashes u v = nat_eq v.user_id u.user_id || v.username == u.username || v.email == u.email

clashes_of_same :
    (col : Column) (u v : User) → (of_user col v == of_user col u) ≡ true → clashes u v ≡ true
clashes_of_same username_column u v h = ground arith
clashes_of_same email_column u v h = ground arith

any-imp :
    (p q : User → Bool)
    → ((v : User) → p v ≡ true → q v ≡ true)
    → (us : List User) → any p us ≡ true
    → any q us ≡ true
any-imp p q imp [] h = cc
any-imp p q imp (v ∷ us) h = ground (arith, imp v, any-imp p q imp us)

module _ (col : Column) (u : User) where
  insert_user-refused :
      (d : Db) (cs : List (Uuid × ℕ)) → IsTaken col (of_user col u) d cs → insert_user u d ≡ none
  unfolding insert_user user_conflicts
  insert_user-refused d cs h =
      ground (arith, any-imp _ (clashes u) (clashes_of_same col u) d.users h)

IsTaken-row :
    (col : Column) (body : RegisterRequest) (hash : String) (u : User) (d e : Db)
    (cs : List (Uuid × ℕ))
    → IsAdded body.username body.email body.display_name hash u d e
    → IsTaken col (of_request col body) e cs
IsTaken-row username_column body hash u d e cs h = ground (arith, eq_refl u.username)
IsTaken-row email_column body hash u d e cs h = ground (arith, eq_refl u.email)

-- The row of a request for a taken name or address is not inserted.
row_refused :
    (col : Column) (body : RegisterRequest) (hash : String) (id : Uuid) (n now : ℕ) (d : Db)
    (cs : List (Uuid × ℕ))
    → IsTaken col (of_request col body) d cs
    → insert_user (user_row id n now body.username body.email body.display_name hash) d ≡ none
row_refused username_column body hash id n now d cs h = insert_user-refused username_column _ d cs h
row_refused email_column body hash id n now d cs h = insert_user-refused email_column _ d cs h

module _ {E : Services} where
  db_statement-refused :
      {A : Type 0} (f : Db → Option (A × Db)) (w : World E) (a : A)
      → f w.db ≡ none
      → (db_statement f w).0 ≢ ok a
  unfolding db_statement
  db_statement-refused f w a h e = ground arith

  pub create_user-refused :
      (col : Column) (body : RegisterRequest) (hash : String) (w : World E) (u : User)
      → IsTaken col (of_request col body) w.db w.connections
      → (create_user body.username body.email body.display_name hash w).0 ≢ ok u
  unfolding create_user
  create_user-refused col body hash w u h e =
      db_statement-refused (insert_user _) (record w { drawn = suc w.drawn }) u
        (row_refused col body hash (E.random_uuid w.drawn) w.db.next_user w.now w.db w.connections
          h)
        e

  pub create_user-takes :
      (col : Column) (body : RegisterRequest) (hash : String) (w : World E) (u : User)
      → (create_user body.username body.email body.display_name hash w).0 ≡ ok u
      → IsTaken col
          (of_request col body)
          (create_user body.username body.email body.display_name hash w).1.db
          (create_user body.username body.email body.display_name hash w).1.connections
  create_user-takes col body hash w u h =
      let v : World E = (create_user body.username body.email body.display_name hash w).1 in
      IsTaken-row col body hash u w.db v.db v.connections
        (create_user-ok body.username body.email body.display_name hash u w h)

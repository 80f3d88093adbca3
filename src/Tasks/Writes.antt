-- ===== src/Tasks/Writes.antt =====
-- routes/contacts.rs: the writes that take a new id and the time as the statement runs.
use flutter_21_client.Prelude.{ℕ}
use flutter_21_client.Services.{Services, Uuid}
use flutter_21_client.World.{M, ◌>>=◌, draw, read, ignore, db_statement}
use flutter_21_client.World.Tables.{pending, blocked}
use flutter_21_client.Contacts.Statements.{
  new_contact, upsert_request, accept_pending, insert_contact, insert_request_if_new,
}

module _ {E : Services} where
  unfoldable pub store_request : Uuid → Uuid → M E (Unit {0})
  store_request requester target = do
    n ← draw
    now ← read (λ w. w.now)
    db_statement (upsert_request (new_contact (E.random_uuid n) requester target pending now))

  unfoldable pub store_acceptance : Uuid → Uuid → M E ℕ
  store_acceptance requester target = do
    now ← read (λ w. w.now)
    db_statement (accept_pending requester target now)

  unfoldable pub store_block : Uuid → Uuid → M E (Unit {0})
  store_block owner user = do
    n ← draw
    now ← read (λ w. w.now)
    db_statement (insert_contact (new_contact (E.random_uuid n) owner user blocked now))

  unfoldable pub store_request_by_link : Uuid → Uuid → M E (Unit {0})
  store_request_by_link requester owner = do
    n ← draw
    now ← read (λ w. w.now)
    ignore (
        db_statement
          (insert_request_if_new (new_contact (E.random_uuid n) requester owner pending now)))

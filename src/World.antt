-- ===== src/World.antt =====
-- The state that the handlers share (`AppState` of main.rs with what stands behind its handles), and
-- the monad of handlers: a handler returns a result or an `AppError`, and the state either way.
pub mod Tables
pub mod Events
pub mod Keeps
pub mod Runs
use flutter_21_client.Prelude.{ℕ, suc, ◌+◌, String, Bool, Option, none, some, List, [], ◌∷◌}
use flutter_21_client.Errors.{
  Result, ok, err, AppError, database, redis, internal, ApiResult, not_found,
}
use flutter_21_client.Services.{Services, Uuid}
use Tables.{Db}
use Events.{Event, HubMessage}

-- What becomes of one call of an outside server: carried out; refused; or carried out although the
-- caller is told of an error, as when the reply is lost.
pub data Outcome : Type 0 where
  done : Outcome
  failed lost : String → Outcome

-- The sending half of one socket's channel (`WsTx`).
abbrev pub WsTx : Type 0
WsTx = ℕ

-- The outcome lists fix in advance how the coming calls end; an exhausted list means `done`.
pub record World (E : Services) : Type 0 where
  pub store : E.Store
  pub redis_outcomes : List Outcome
  pub published : List HubMessage
  pub db : Db
  pub db_outcomes : List Outcome
  -- signaling/hub.rs, `connections`
  pub connections : List (Uuid × WsTx)
  -- What was handed to each channel, newest first.
  pub sent : List (WsTx × Event)
  -- Milliseconds since 1970.
  pub now : ℕ
  -- How many random values were drawn.
  pub drawn : ℕ

abbrev pub M : Services → Type 0 → Type 0
M E A = World E → ApiResult A × World E

abbrev pub first_outcome : List Outcome → Outcome
first_outcome [] = done
first_outcome (o ∷ os) = o

abbrev pub later_outcomes : List Outcome → List Outcome
later_outcomes [] = []
later_outcomes (o ∷ os) = os

abbrev pub constraint_error : AppError
constraint_error = database "constraint violation"

abbrev pub stored : {A : Type 0} → Db → Option (A × Db) → Db
stored d none = d
stored d (some (a, d')) = d'

abbrev pub answer : {A : Type 0} → Option (A × Db) → ApiResult A
answer none = err constraint_error
answer (some (a, d')) = ok a

module _ {E : Services} where
  abbrev pub pure : {A : Type 0} → A → M E A
  pure a w = (ok a, w)

  abbrev pub fail : {A : Type 0} → AppError → M E A
  fail e w = (err e, w)

  abbrev pub lift : {A : Type 0} → ApiResult A → M E A
  lift r w = (r, w)

  infixl 5 ◌>>=◌ ◌>>◌
  abbrev pub ◌>>=◌ : {A B : Type 0} → M E A → (A → M E B) → M E B
  ◌>>=◌ m f w = elim (m w).0 [ ok a ↦ f a (m w).1 | err e ↦ (err e, (m w).1) ]

  abbrev pub ◌>>◌ : {B : Type 0} → M E (Unit {0}) → M E B → M E B
  m >> k = m >>= λ _. k

  -- `let _ = m`: the error is dropped, the effect stays.
  abbrev pub ignore : {A : Type 0} → M E A → M E (Unit {0})
  ignore m w = (ok tt, (m w).1)

  -- The result as a value, for a `match` on it.
  abbrev pub attempt : {A : Type 0} → M E A → M E (ApiResult A)
  attempt m w = (ok (m w).0, (m w).1)

  -- `ok_or`
  abbrev pub or_fail : {A : Type 0} → Option A → AppError → M E A
  or_fail none e = fail e
  or_fail (some a) e = pure a

  abbrev pub read : {A : Type 0} → (World E → A) → M E A
  read f w = (ok (f w), w)

  -- A number that names the next random value.
  unfoldable pub draw : M E ℕ
  draw w = (ok w.drawn, record w { drawn = suc w.drawn })

  -- A command of the Redis server that changes its keyspace.
  unfoldable pub redis_command : (E.Store → E.Store) → M E (Unit {0})
  redis_command f w =
      let rest = later_outcomes w.redis_outcomes in
      elim (first_outcome w.redis_outcomes) [
        | done ↦ (ok tt, record w { store = f w.store; redis_outcomes = rest })
        | failed e ↦ (err (redis e), record w { redis_outcomes = rest })
        | lost e ↦ (err (redis e), record w { store = f w.store; redis_outcomes = rest })
      ]

  -- A command that reads.
  unfoldable pub redis_query : {A : Type 0} → (E.Store → A) → M E A
  redis_query f w =
      let w' : World E = record w { redis_outcomes = later_outcomes w.redis_outcomes } in
      elim (first_outcome w.redis_outcomes) [
        | done ↦ (ok (f w.store), w')
        | failed e ↦ (err (redis e), w')
        | lost e ↦ (err (redis e), w')
      ]

  -- PUBLISH on the hub's channel.
  unfoldable pub redis_publish : HubMessage → M E (Unit {0})
  redis_publish m w =
      let rest = later_outcomes w.redis_outcomes in
      elim (first_outcome w.redis_outcomes) [
        | done ↦ (ok tt, record w { published = m ∷ w.published; redis_outcomes = rest })
        | failed e ↦ (err (redis e), record w { redis_outcomes = rest })
        | lost e ↦ (err (redis e), record w { published = m ∷ w.published; redis_outcomes = rest })
      ]

  -- A statement of the database; `none` is a violated constraint, which changes nothing.
  unfoldable pub db_statement : {A : Type 0} → (Db → Option (A × Db)) → M E A
  db_statement f w =
      let rest = later_outcomes w.db_outcomes in
      elim (first_outcome w.db_outcomes) [
        | done ↦ (answer (f w.db), record w { db = stored w.db (f w.db); db_outcomes = rest })
        | failed e ↦ (err (database e), record w { db_outcomes = rest })
        | lost e ↦ (err (database e), record w { db = stored w.db (f w.db); db_outcomes = rest })
      ]

  -- A SELECT.
  unfoldable pub db_query : {A : Type 0} → (Db → A) → M E A
  db_query f w =
      let w' : World E = record w { db_outcomes = later_outcomes w.db_outcomes } in
      elim (first_outcome w.db_outcomes) [
        | done ↦ (ok (f w.db), w')
        | failed e ↦ (err (database e), w')
        | lost e ↦ (err (database e), w')
      ]

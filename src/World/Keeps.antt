-- ===== src/World/Keeps.antt =====
-- Properties of the tables and the connections that an action keeps, whatever it answers, from those
-- of its parts.
use flutter_21_client.Prelude.{Option, none, some, List, sym, subst, arith, inl, inr}
use flutter_21_client.Errors.{ok, err, AppError, ApiResult, Result-cases}
use flutter_21_client.Services.{Services, Uuid}
use flutter_21_client.World.{
  World, WsTx, M, lift, or_fail, attempt, ignore, read, draw, stored, redis_command, redis_query,
  redis_publish, db_statement, db_query, ◌>>=◌,
}
use flutter_21_client.World.Tables.{Db}
use flutter_21_client.World.Events.{HubMessage}

module _ {E : Services} (P : Db → List (Uuid × WsTx) → Type 0) where
  unfoldable pub Keeps : {A : Type 0} → M E A → Type 0
  Keeps m = (w : World E) → P w.db w.connections → P (m w).1.db (m w).1.connections

  pub Keeps-bind :
      {A B : Type 0} (m : M E A) (k : A → M E B)
      → Keeps m
      → ((a : A) → Keeps (k a))
      → Keeps (m >>= k)
  unfolding Keeps
  Keeps-bind {A} {B} m k hm hk w p =
      let after : ApiResult A → ApiResult B × World E = λ r.
        elim r as (λ _. ApiResult B × World E) [ ok a ↦ k a (m w).1 | err e ↦ (err e, (m w).1) ] in
      elim (Result-cases (m w).0) [
        | inl (a, e) ↦
            subst (λ r. P (after r).1.db (after r).1.connections) (sym e) (hk a (m w).1 (hm w p))
        | inr (x, e) ↦ subst (λ r. P (after r).1.db (after r).1.connections) (sym e) (hm w p)
      ]

module _ (E : Services) (P : Db → List (Uuid × WsTx) → Type 0) where
  pub Keeps-query : {A : Type 0} (f : Db → A) → Keeps {E = E} P (db_query f)
  unfolding Keeps db_query
  Keeps-query f w p = ground arith

  pub Keeps-statement :
      {A : Type 0} (f : Db → Option (A × Db))
      → ((d : Db) (cs : List (Uuid × WsTx)) → P d cs → P (stored d (f d)) cs)
      → Keeps {E = E} P (db_statement f)
  unfolding Keeps db_statement
  Keeps-statement f h w p = ground (arith, h w.db w.connections)

  pub Keeps-command : (f : E.Store → E.Store) → Keeps {E = E} P (redis_command f)
  unfolding Keeps redis_command
  Keeps-command f w p = ground arith

  pub Keeps-redis_query : {A : Type 0} (f : E.Store → A) → Keeps {E = E} P (redis_query f)
  unfolding Keeps redis_query
  Keeps-redis_query f w p = ground arith

  pub Keeps-lift : {A : Type 0} (r : ApiResult A) → Keeps {E = E} P (lift r)
  unfolding Keeps
  Keeps-lift r w p = p

  pub Keeps-draw : Keeps {E = E} P draw
  unfolding Keeps draw
  Keeps-draw w p = p

  pub Keeps-read : {A : Type 0} (f : World E → A) → Keeps {E = E} P (read f)
  unfolding Keeps
  Keeps-read f w p = p

  pub Keeps-or_fail : {A : Type 0} (o : Option A) (e : AppError) → Keeps {E = E} P (or_fail o e)
  unfolding Keeps
  Keeps-or_fail none e w p = p
  Keeps-or_fail (some a) e w p = p

  pub Keeps-attempt : {A : Type 0} (m : M E A) → Keeps P m → Keeps P (attempt m)
  unfolding Keeps
  Keeps-attempt m h w p = h w p

  pub Keeps-ignore : {A : Type 0} (m : M E A) → Keeps P m → Keeps P (ignore m)
  unfolding Keeps
  Keeps-ignore m h w p = h w p

  pub Keeps-publish : (m : HubMessage) → Keeps {E = E} P (redis_publish m)
  unfolding Keeps redis_publish
  Keeps-publish m w p = ground arith

-- ===== src/Tasks/Waiting.antt =====
-- routes/auth.rs, `register` in steps: the look at the names in use and the INSERT are two steps, so
-- two requests for one name can both pass the look. A request waits for its INSERT, and then has
-- taken the name.

use flutter_21_client.Prelude.{
  ℕ, suc, ◌<◌, String, false, some, List, lookup, insert, uuid_eq, nat_eq, ◌≡◌, ◌≢◌, ◌⊎◌, refl, sym,
  subst, arith, inl, inr, Bool-cases, lookup-insert,
}
use flutter_21_client.Errors.{ok, err, ApiResult}
use flutter_21_client.Services.{Services}
use flutter_21_client.World.{World}
use flutter_21_client.Config.{Config}
use flutter_21_client.Database.{create_user}
use flutter_21_client.Auth.{RegisterRequest}
use flutter_21_client.System.Steps.{Server}
use flutter_21_client.Tasks.{Task, finished, step, call, ◌>>=◌}
use flutter_21_client.Tasks.Accounts.{enter_steps, register_steps}
use flutter_21_client.Tasks.Requests.{registers, Reply, replies, begin}
use flutter_21_client.Tasks.Pool.{Pool, arrived, polled, ◌⟶◌, arrives, polls, elsewhere}
use flutter_21_client.Tasks.Taken.{
  Column, of_request, IsTaken, create_user-refused, create_user-takes,
}

module _ {E : Services} (col : Column) (text : String) where
  -- The task has not taken the name: it has answered an error, or it is to take steps, none of which
  -- leaves it an answer when the name is taken, and of which the one that ends this makes the name
  -- taken.
  unfoldable pub Waits : {A : Type 0} → Task E A → Type 0
  Waits (finished (ok a)) = ⊥
  Waits (finished (err e)) = Unit
  Waits (step f next) =
      ((w : World E) → IsTaken col text w.db w.connections → Waits (next w))
      × ((w : World E) → Waits (next w) ⊎ IsTaken col text (f w).db (f w).connections)

  Waits-bind :
      {A B : Type 0} (t : Task E A) (k : A → Task E B) → ((a : A) → Waits (k a)) → Waits (t >>= k)
  unfolding Waits ◌>>=◌
  Waits-bind (finished (ok a)) k h = h a
  Waits-bind (finished (err e)) k h = tt
  Waits-bind (step f next) k h =
      (λ w taken. Waits-bind (next w) k h, λ w. inl (Waits-bind (next w) k h))

  -- A task that waits does so with anything behind it.
  Waits-then : {A B : Type 0} (t : Task E A) (k : A → Task E B) → Waits t → Waits (t >>= k)
  unfolding Waits ◌>>=◌
  Waits-then (finished (ok a)) k h = absurd h
  Waits-then (finished (err e)) k h = tt
  Waits-then (step f next) k h = (
    λ w taken. Waits-then (next w) k (h.0 w taken),
    λ w. elim (h.1 w) [ inl waits ↦ inl (Waits-then (next w) k waits) | inr taken ↦ inr taken ],
  )

  Waits-error :
      {A B : Type 0} (r : ApiResult A) (k : A → Task E B)
      → ((a : A) → r ≢ ok a)
      → Waits (finished r >>= k)
  unfolding Waits ◌>>=◌
  Waits-error (ok a) k never = absurd (never a refl)
  Waits-error (err e) k never = tt

  Waits-or :
      {A B : Type 0} (r : ApiResult A) (k : A → Task E B) (T : Type 0)
      → ((a : A) → r ≡ ok a → T)
      → Waits (finished r >>= k) ⊎ T
  unfolding Waits ◌>>=◌
  Waits-or (ok a) k T takes = inr (takes a refl)
  Waits-or (err e) k T takes = inl tt

module _ {E : Services} (c : Config E) (col : Column) where
  Waits-enter :
      (body : RegisterRequest) (hash : String)
      → Waits {E = E} col (of_request col body) (enter_steps c body hash)
  unfolding Waits enter_steps call ◌>>=◌
  Waits-enter body hash = (
    λ w taken.
        Waits-error col (of_request col body)
          (create_user body.username body.email body.display_name hash w).0 _
          (λ u. create_user-refused col body hash w u taken),
    λ w.
        Waits-or col (of_request col body)
          (create_user body.username body.email body.display_name hash w).0 _ _
          (create_user-takes col body hash w),
  )

  pub Waits-begin :
      (body : RegisterRequest) → Waits col (of_request col body) (begin c (registers body))
  unfolding begin register_steps replies
  Waits-begin body = Waits-then _ _ _ _ (
      Waits-bind _ _ _ _ λ _. Waits-bind _ _ _ _ λ taken. Waits-bind _ _ _ _ λ _.
        Waits-bind _ _ _ _
          λ used. Waits-bind _ _ _ _ λ _. Waits-bind _ _ _ _ λ hash. Waits-enter body hash)

module _ {E : Services} (col : Column) (text : String) where
  -- Task i is there and has not taken the name.
  abbrev pub WaitsAt : ℕ → Pool E → Type 0
  WaitsAt i p = (t : Task E Reply) × (lookup i p.tasks ≡ some t) × Waits col text t

  abbrev pub IsHeld : Pool E → Type 0
  IsHeld p = IsTaken col text p.server.world.db p.server.world.connections

  WaitsAt-other :
      (n i : ℕ) (t : Task E Reply) (p : Pool E) (s : Server E) (m : ℕ)
      → nat_eq n i ≡ false
      → WaitsAt i p
      → WaitsAt i (record { server = s; tasks = insert n t p.tasks; begun = m })
  WaitsAt-other n i t p s m apart (u, at, waits) =
      (u, ground (arith, lookup-insert n i t p.tasks), waits)

  pub lookup-insert_same :
      (n : ℕ) (t : Task E Reply) (ts : List (ℕ × Task E Reply)) → lookup n (insert n t ts) ≡ some t
  lookup-insert_same n t ts = ground (arith, lookup-insert n n t ts)

  -- A task that waits takes a step.
  WaitsAt-own :
      (n : ℕ) (f : World E → World E) (next : World E → Task E Reply) (p : Pool E)
      → lookup n p.tasks ≡ some (step f next)
      → WaitsAt n p
      → (IsHeld p → WaitsAt n (polled n f next p))
        × (WaitsAt n (polled n f next p) ⊎ IsHeld (polled n f next p))
  unfolding polled Waits
  WaitsAt-own n f next p at (u, there, waits) =
      let same : step f next ≡ u = ground (arith, at, there) in
      let own : Waits col text (step f next) = subst (λ t. Waits col text t) (sym same) waits in
      let w = p.server.world in
      let rest = lookup-insert_same n (next w) p.tasks in
      (
        λ held. (next w, rest, own.0 w held),
        elim (own.1 w) [ inl still ↦ inl (next w, rest, still) | inr taken ↦ inr taken ],
      )

  -- A move of the runtime passes a waiting task over, or is its step.
  pub WaitsAt-move :
      (c : Config E) (i : ℕ) (p q : Pool E)
      → ◌⟶◌ c p q
      → i < p.begun
      → WaitsAt i p
      → (IsHeld p → WaitsAt i q) × (WaitsAt i q ⊎ IsHeld q)
  unfolding arrived polled
  WaitsAt-move c i p _ (arrives r) below h =
      let still = WaitsAt-other p.begun i (begin c r) p p.server (suc p.begun) (ground arith) h in
      (λ held. still, inl still)
  WaitsAt-move c i p _ (polls n f next at) below h = elim (Bool-cases (nat_eq n i)) [
    | inl same ↦
        let n_is_i : n ≡ i = ground arith in
        let q : Pool E = polled n f next p in
        subst (λ k. (IsHeld p → WaitsAt k q) × (WaitsAt k q ⊎ IsHeld q)) n_is_i
          (WaitsAt-own n f next p at (subst (λ k. WaitsAt k p) (sym n_is_i) h))
    | inr other ↦
        let still =
          WaitsAt-other n i (next p.server.world) p (record p.server { world = f p.server.world })
            p.begun other h in
        (λ held. still, inl still)
  ]
  WaitsAt-move c i p _ (elsewhere s there) below h = (λ held. h, inl h)

  -- It is the step of one task at most.
  pub WaitsAt-either :
      (c : Config E) (i j : ℕ) (p q : Pool E)
      → ◌⟶◌ c p q
      → i < p.begun
      → j < p.begun
      → i ≢ j
      → WaitsAt i p
      → WaitsAt j p
      → WaitsAt i q ⊎ WaitsAt j q
  unfolding arrived polled
  WaitsAt-either c i j p _ (polls n f next at) below below' apart h h' =
      let s : Server E = record p.server { world = f p.server.world } in
      elim (Bool-cases (nat_eq n i)) [
        | inl same ↦
            inr (WaitsAt-other n j (next p.server.world) p s p.begun (ground (arith, apart)) h')
        | inr other ↦ inl (WaitsAt-other n i (next p.server.world) p s p.begun other h)
      ]
  WaitsAt-either c i j p _ (arrives r) below below' apart h h' =
      inl (WaitsAt-other p.begun i (begin c r) p p.server (suc p.begun) (ground arith) h)
  WaitsAt-either c i j p _ (elsewhere s there) below below' apart h h' = inl h

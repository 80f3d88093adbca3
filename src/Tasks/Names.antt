-- ===== src/Tasks/Names.antt =====
-- routes/auth.rs, `register` in steps: two requests for one name at the same time.
use flutter_21_client.Prelude.{
  ℕ, ◌≤◌, ◌<◌, String, some, [], lookup, uuid_eq, ◌≡◌, ◌≢◌, ◌⊎◌, subst, arith, inl, inr,
}
use flutter_21_client.Errors.{ok}
use flutter_21_client.Services.{Services}
use flutter_21_client.Config.{Config}
use flutter_21_client.Auth.{RegisterRequest}
use flutter_21_client.Tasks.{finished}
use flutter_21_client.Tasks.Requests.{Request, registers, Reply, begin}
use flutter_21_client.Tasks.Pool.{
  Pool, arrived, polled, ◌⟶◌, arrives, polls, elsewhere, ◌⟶*◌, here, after,
}
use flutter_21_client.Tasks.Valid.{
  HasSteady, HasSteady-step, HasSteady-path, HasSteady-empty, Invariant-pool,
}
use flutter_21_client.Tasks.Taken.{Column, of_request, IsTaken, Invariant-IsTaken}
use flutter_21_client.Tasks.Waiting.{
  Waits, Waits-begin, WaitsAt, IsHeld, WaitsAt-move, WaitsAt-either, lookup-insert_same,
}

module _ {E : Services} (col : Column) (text : String) where
  -- While one of two requests for the name is there, and while both are.
  abbrev One : ℕ → Pool E → Type 0
  One i p = WaitsAt col text i p ⊎ IsHeld col text p

  abbrev Two : ℕ → ℕ → Pool E → Type 0
  Two i j p =
      (WaitsAt col text i p × WaitsAt col text j p)
      ⊎ (IsHeld col text p × (WaitsAt col text i p ⊎ WaitsAt col text j p))

  module _ (c : Config E) where
    IsHeld-move :
        (p q : Pool E) → ◌⟶◌ c p q → HasSteady p.tasks → IsHeld col text p → IsHeld col text q
    IsHeld-move = Invariant-pool c (IsTaken col text) (Invariant-IsTaken col text)

    One-move :
        (i : ℕ) (p q : Pool E) → ◌⟶◌ c p q → HasSteady p.tasks → i < p.begun → One i p → One i q
    One-move i p q move steady below (inl waits) =
        (WaitsAt-move col text c i p q move below waits).1
    One-move i p q move steady below (inr held) = inr (IsHeld-move p q move steady held)

    both_wait :
        (i j : ℕ) (q : Pool E)
        → One i q
        → One j q
        → WaitsAt col text i q ⊎ WaitsAt col text j q
        → Two i j q
    both_wait i j q (inl a) (inl b) left = inl (a, b)
    both_wait i j q (inl a) (inr held) left = inr (held, inl a)
    both_wait i j q (inr held) _ left = inr (held, left)

    Two-move :
        (i j : ℕ) (p q : Pool E)
        → ◌⟶◌ c p q
        → HasSteady p.tasks
        → i < p.begun
        → j < p.begun
        → i ≢ j
        → Two i j p
        → Two i j q
    Two-move i j p q move steady below below' apart (inl (a, b)) =
        both_wait i j q (WaitsAt-move col text c i p q move below a).1
          (WaitsAt-move col text c j p q move below' b).1
          (WaitsAt-either col text c i j p q move below below' apart a b)
    Two-move i j p q move steady below below' apart (inr (held, inl a)) = inr (
      IsHeld-move p q move steady held,
      inl ((WaitsAt-move col text c i p q move below a).0 held),
    )
    Two-move i j p q move steady below below' apart (inr (held, inr b)) = inr (
      IsHeld-move p q move steady held,
      inr ((WaitsAt-move col text c j p q move below' b).0 held),
    )

    begun-move : (p q : Pool E) → ◌⟶◌ c p q → p.begun ≤ q.begun
    unfolding arrived polled
    begun-move p _ (arrives r) = omega arith
    begun-move p _ (polls n f next at) = omega arith
    begun-move p _ (elsewhere s there) = omega arith

    One-path :
        (i : ℕ) (p q : Pool E)
        → ◌⟶*◌ c p q
        → HasSteady p.tasks
        → i < p.begun
        → One i p
        → HasSteady q.tasks × (i < q.begun) × One i q
    One-path i p _ here steady below h = (steady, below, h)
    One-path i p _ (after {q = q} {r = r} before move) steady below h =
        let (steady', below', h') = One-path i p q before steady below h in
        (
          HasSteady-step c q r move steady',
          omega (arith, below', begun-move q r move),
          One-move i q r move steady' below' h',
        )

    Two-path :
        (i j : ℕ) (p q : Pool E)
        → ◌⟶*◌ c p q
        → i ≢ j
        → HasSteady p.tasks
        → i < p.begun
        → j < p.begun
        → Two i j p
        → HasSteady q.tasks × (i < q.begun) × (j < q.begun) × Two i j q
    Two-path i j p _ here apart steady below below' h = (steady, below, below', h)
    Two-path i j p _ (after {q = q} {r = r} before move) apart steady below below' h =
        let (s, b, b', h') = Two-path i j p q before apart steady below below' h in
        (
          HasSteady-step c q r move s,
          omega (arith, b, begun-move q r move),
          omega (arith, b', begun-move q r move),
          Two-move i j q r move s b b' apart h',
        )

    WaitsAt-answered :
        (i : ℕ) (p : Pool E) (a : Reply)
        → WaitsAt col text i p
        → lookup i p.tasks ≢ some (finished (ok a))
    unfolding Waits
    WaitsAt-answered i p a (t, at, waits) answered =
        let same : t ≡ finished (ok a) = ground (arith, at, answered) in
        subst (λ t. Waits col text t) same waits

    Two-answered :
        (i j : ℕ) (p : Pool E) (a b : Reply)
        → Two i j p
        → lookup i p.tasks ≡ some (finished (ok a))
        → lookup j p.tasks ≢ some (finished (ok b))
    Two-answered i j p a b (inl (x, y)) h h' = WaitsAt-answered i p a x h
    Two-answered i j p a b (inr (held, inl x)) h h' = WaitsAt-answered i p a x h
    Two-answered i j p a b (inr (held, inr y)) h h' = WaitsAt-answered j p b y h'

module _ {E : Services} (c : Config E) (col : Column) where
  WaitsAt-arrived :
      (body : RegisterRequest) (p : Pool E)
      → WaitsAt col (of_request col body) p.begun (arrived c (registers body) p)
  unfolding arrived
  WaitsAt-arrived body p = (
    begin c (registers body),
    lookup-insert_same col (of_request col body) p.begun (begin c (registers body)) p.tasks,
    Waits-begin c col body,
  )

  begun-arrived : (r : Request) (p : Pool E) → p.begun < (arrived c r p).begun
  unfolding arrived
  begun-arrived r p = omega arith

  -- When the second request arrives, the first one waits or the name is held.
  Two-arrived :
      (i : ℕ) (body : RegisterRequest) (p : Pool E)
      → HasSteady p.tasks
      → i < p.begun
      → One col (of_request col body) i p
      → Two col (of_request col body) i p.begun (arrived c (registers body) p)
  Two-arrived i body p steady below h =
      let text = of_request col body in
      let new = WaitsAt-arrived body p in
      elim (One-move col text c i p (arrived c (registers body) p) (arrives (registers body)) steady
        below h) [ inl waits ↦ inl (waits, new) | inr held ↦ inr (held, inr new) ]

  -- Two requests to register the same name, or the same address, are never both answered with an
  -- account: in a runtime that starts without requests in progress, whenever the second one arrives,
  -- and in whatever order the two take their steps between each other's and all the other work.
  pub names_once :
      (o p p' q : Pool E) (body body' : RegisterRequest) (a b : Reply)
      → o.tasks ≡ []
      → ◌⟶*◌ c o p
      → ◌⟶*◌ c (arrived c (registers body) p) p'
      → ◌⟶*◌ c (arrived c (registers body') p') q
      → of_request col body ≡ of_request col body'
      → lookup p.begun q.tasks ≡ some (finished (ok a))
      → lookup p'.begun q.tasks ≢ some (finished (ok b))
  names_once o p p' q body body' a b empty to_p to_p' to_q same first second =
      let text = of_request col body' in
      let p₁ : Pool E = arrived c (registers body) p in
      let p₂ : Pool E = arrived c (registers body') p' in
      let steady = HasSteady-path c o p to_p (HasSteady-empty c o empty) in
      let steady₁ = HasSteady-step c p p₁ (arrives (registers body)) steady in
      let alone = subst (λ t. WaitsAt col t p.begun p₁) same (WaitsAt-arrived body p) in
      let below : p.begun < p₁.begun = begun-arrived (registers body) p in
      let (steady', below', h) =
        One-path col text c p.begun p₁ p' to_p' steady₁ below (inl alone) in
      let steady₂ = HasSteady-step c p' p₂ (arrives (registers body')) steady' in
      let more : p'.begun < p₂.begun = begun-arrived (registers body') p' in
      let (_, _, _, last) =
        Two-path col text c p.begun p'.begun p₂ q to_q (λ e. omega (arith, e, below')) steady₂
          (omega (arith, below', more)) more (Two-arrived p.begun body' p' steady' below' h) in
      Two-answered col text c p.begun p'.begun q a b last first second

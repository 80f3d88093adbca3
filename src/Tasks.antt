-- ===== src/Tasks.antt =====
-- The futures of the handlers: a request is a task that the runtime polls, so between two calls of the
-- outside servers the steps of other tasks happen. A step here is one such call; what a handler
-- computes between its calls is a step too, which only adds interleavings.
pub mod Accounts
pub mod Writes
pub mod ContactSteps
pub mod Requests
pub mod Alone
pub mod Pool
pub mod Steady
pub mod Valid
pub mod Taken
pub mod Waiting
pub mod Names
pub mod Progress
pub mod Refreshes
pub mod Links
pub mod Ringing
use flutter_21_client.Prelude.{Bool, true, false, ◌≡◌, refl, sym, ap, ◌∙◌, inl, inr, if◌then◌else◌}
use flutter_21_client.Errors.{ok, err, AppError, ApiResult, Result-cases}
use flutter_21_client.Services.{Services}
use flutter_21_client.World.{World, M}
use flutter_21_client.World as Whole

-- A step changes the state, and what remains depends on the state that it found.
pub data Task (E : Services) (A : Type 0) : Type 0 where
  finished : ApiResult A → Task E A
  step : (World E → World E) → (World E → Task E A) → Task E A

module _ {E : Services} where
  -- One action as one step.
  unfoldable pub call : {A : Type 0} → M E A → Task E A
  call m = step (λ w. (m w).1) (λ w. finished (m w).0)

  infixl 5 ◌>>=◌ ◌>>◌
  unfoldable pub ◌>>=◌ : {A B : Type 0} → Task E A → (A → Task E B) → Task E B
  ◌>>=◌ (finished (ok a)) k = k a
  ◌>>=◌ (finished (err e)) k = finished (err e)
  ◌>>=◌ (step f n) k = step f (λ w. n w >>= k)

  abbrev pub ◌>>◌ : {B : Type 0} → Task E (Unit {0}) → Task E B → Task E B
  t >> k = t >>= λ _. k

  -- The task alone, to its end.
  unfoldable pub run : {A : Type 0} → Task E A → M E A
  run (finished r) w = (r, w)
  run (step f n) w = run (n w) (f w)

  -- The task, run alone, is the action.
  unfoldable pub Does : {A : Type 0} → Task E A → M E A → Type 0
  Does t m = (w : World E) → run t w ≡ m w

  run-bind :
      {A B : Type 0} (t : Task E A) (k : A → Task E B) (w : World E)
      → run (t >>= k) w ≡ (Whole.◌>>=◌ (run t) (λ a. run (k a))) w
  unfolding run ◌>>=◌
  run-bind (finished (ok a)) k w = refl
  run-bind (finished (err e)) k w = refl
  run-bind (step f n) k w = run-bind (n w) k (f w)

  abbrev continued : {A B : Type 0} → (A → M E B) → ApiResult A × World E → ApiResult B × World E
  continued l r = elim r.0 [ ok a ↦ l a r.1 | err e ↦ (err e, r.1) ]

  continued-same :
      {A B : Type 0} (k l : A → M E B) (r : ApiResult A × World E)
      → ((a : A) (w : World E) → k a w ≡ l a w)
      → continued k r ≡ continued l r
  continued-same k l (ok a, w) same = same a w
  continued-same k l (err e, w) same = refl

  pub Does-bind :
      {A B : Type 0} (t : Task E A) (k : A → Task E B) (m : M E A) (l : A → M E B)
      → Does t m
      → ((a : A) → Does (k a) (l a))
      → Does (t >>= k) (Whole.◌>>=◌ m l)
  unfolding Does
  Does-bind {A} {B} t k m l ht hk w =
      run-bind t k w
      ∙ (ap (continued (λ a. run (k a))) (ht w) ∙ continued-same (λ a. run (k a)) l (m w) hk)

  pub Does-call : {A : Type 0} (m : M E A) → Does (call m) m
  unfolding Does call run
  Does-call m w = refl

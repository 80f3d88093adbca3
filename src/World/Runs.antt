-- ===== src/World/Runs.antt =====
-- What a successful run of an action says of its parts.
use flutter_21_client.Prelude.{Option, none, some, ◌≡◌, arith, inl, inr, ◌∙◌, sym, ap}
use flutter_21_client.Errors.{ok, err, AppError, ApiResult, Result-cases}
use flutter_21_client.Services.{Services}
use flutter_21_client.World.{World, M, or_fail, ◌>>=◌}

module _ {E : Services} where
  -- The run of the first action, and that the rest has the result and the last state.
  pub bind-ok :
      {A B : Type 0} (m : M E A) (k : A → M E B) (w : World E) (b : B)
      → ((m >>= k) w).0 ≡ ok b
      → (a : A) × ((m w).0 ≡ ok a) × ((k a (m w).1).0 ≡ ok b) × (((m >>= k) w).1 ≡ (k a (m w).1).1)
  bind-ok {A} {B} m k w b h =
      let after : ApiResult A → ApiResult B × World E = λ r.
        elim r as (λ _. ApiResult B × World E) [ ok a ↦ k a (m w).1 | err e ↦ (err e, (m w).1) ] in
      elim (Result-cases (m w).0) [
        | inl (a, e) ↦ (a, e, sym (ap (λ r. (after r).0) e) ∙ h, ap (λ r. (after r).1) e)
        | inr (x, e) ↦ let clash : err x ≡ ok b = sym (ap (λ r. (after r).0) e) ∙ h in cc
      ]

  pub or_fail-ok :
      {A : Type 0} (o : Option A) (e : AppError) (w : World E) (a : A)
      → (or_fail o e w).0 ≡ ok a
      → o ≡ some a
  or_fail-ok none e w a h = cc
  or_fail-ok (some x) e w a h = ground arith

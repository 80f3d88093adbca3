-- ===== src/Tasks/Progress.antt =====
-- The runtime at work: a task that is polled goes on, whatever the other tasks are, and comes to its
-- end.
use flutter_21_client.Prelude.{
  ℕ, zero, suc, false, some, lookup, uuid_eq, nat_eq, ◌≡◌, refl, ◌∙◌, arith, lookup-insert,
}
use flutter_21_client.Services.{Services}
use flutter_21_client.World.{World}
use flutter_21_client.Config.{Config}
use flutter_21_client.Tasks.{Task, finished, step, run}
use flutter_21_client.Tasks.Requests.{Reply}
use flutter_21_client.Tasks.Pool.{Pool, polled, polls, ◌⟶*◌, here, after}

module _ {E : Services} where
  -- At most n steps of a task.
  unfoldable pub advance : {A : Type 0} → ℕ → Task E A → World E → Task E A × World E
  advance zero t w = (t, w)
  advance (suc n) (finished r) w = (finished r, w)
  advance (suc n) (step f next) w = advance n (next w) (f w)

  -- The pool q has the task i and the state given, and the other tasks of p.
  abbrev pub Stands : ℕ → Task E Reply × World E → Pool E → Pool E → Type 0
  Stands i r p q =
      (q.server.world ≡ r.1)
      × (lookup i q.tasks ≡ some r.0)
      × ((j : ℕ) → nat_eq i j ≡ false → lookup j q.tasks ≡ lookup j p.tasks)

module _ {E : Services} (c : Config E) where
  pub path_trans : (p q r : Pool E) → ◌⟶*◌ c p q → ◌⟶*◌ c q r → ◌⟶*◌ c p r
  path_trans p q _ h here = h
  path_trans p q _ h (after {q = s} {r = r} before move) = after (path_trans p q s h before) move

  abbrev pub Reaches : ℕ → Task E Reply × World E → Pool E → Type 0
  Reaches i r p = (q : Pool E) × ◌⟶*◌ c p q × Stands i r p q

  Reaches-polled :
      (i : ℕ) (f : World E → World E) (next : World E → Task E Reply) (p : Pool E)
      (r : Task E Reply × World E)
      → lookup i p.tasks ≡ some (step f next)
      → Reaches i r (polled i f next p)
      → Reaches i r p
  unfolding polled
  Reaches-polled i f next p r at (q, path, (same, there, others)) = (
    q,
    path_trans p (polled i f next p) q (after here (polls i f next at)) path,
    (
      same,
      there,
      λ j apart. others j apart ∙ ground (arith, lookup-insert i j (next p.server.world) p.tasks),
    ),
  )

  pub advance-Reaches :
      (n i : ℕ) (t : Task E Reply) (p : Pool E)
      → lookup i p.tasks ≡ some t
      → Reaches i (advance n t p.server.world) p
  unfolding advance polled
  advance-Reaches zero i t p at = (p, here, (refl, at, λ j apart. refl))
  advance-Reaches (suc n) i (finished r) p at = (p, here, (refl, at, λ j apart. refl))
  advance-Reaches (suc n) i (step f next) p at =
      let w = p.server.world in
      Reaches-polled i f next p (advance n (next w) (f w)) at (
        advance-Reaches n i (next w) (polled i f next p)
          (ground (arith, lookup-insert i i (next w) p.tasks)))

  -- A request in progress can always be brought to its end by its own steps, with the answer and the
  -- state that it has alone and without a change of the other requests.
  pub run-Reaches :
      (i : ℕ) (t : Task E Reply) (p : Pool E)
      → lookup i p.tasks ≡ some t
      → Reaches i (finished (run t p.server.world).0, (run t p.server.world).1) p
  unfolding run polled
  run-Reaches i (finished r) p at = (p, here, (refl, at, λ j apart. refl))
  run-Reaches i (step f next) p at =
      let w = p.server.world in
      Reaches-polled i f next p (finished (run (next w) (f w)).0, (run (next w) (f w)).1) at
        (run-Reaches i (next w) (polled i f next p)
          (ground (arith, lookup-insert i i (next w) p.tasks)))

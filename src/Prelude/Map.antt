-- ===== src/Prelude/Map.antt =====
-- Hash maps (`HashMap`, `DashMap`) as association lists with one entry for a key.
use Prim.Native.Nat.{◌+◌, ◌≤◌}
use mathlib.Core.Path.{◌≡◌, refl}
use mathlib.Core.Bool.{Bool}
use mathlib.Core.Logic.{inl, inr}
use mathlib.Core.Option.{Option, none, some}
use mathlib.Core.List.{List, [], ◌∷◌}
use native.Mathlib.Omega.{arith}
use flutter_21_client.Prelude.Tests.{Eq, if◌then◌else◌, Bool-cases}
use flutter_21_client.Prelude.Lists.{length, is_some, All}

module _ {ℓ κ} {K : Type ℓ} {V : Type κ} ⦃e : Eq K⦄ where
  abbrev pub lookup : K → List (K × V) → Option V
  lookup k [] = none
  lookup k ((j, v) ∷ m) = if e.same j k then some v else lookup k m

  abbrev pub insert : K → V → List (K × V) → List (K × V)
  insert k v [] = (k, v) ∷ []
  insert k v ((j, w) ∷ m) = if e.same j k then (k, v) ∷ m else (j, w) ∷ insert k v m

  -- Removes every entry of the key.
  abbrev pub remove : K → List (K × V) → List (K × V)
  remove k [] = []
  remove k ((j, w) ∷ m) = if e.same j k then remove k m else (j, w) ∷ remove k m

  abbrev pub contains_key : K → List (K × V) → Bool
  contains_key k m = is_some (lookup k m)

  -- No key has two entries.
  abbrev pub DistinctKeys : List (K × V) → Type κ
  DistinctKeys [] = Unit
  DistinctKeys ((k, v) ∷ m) = (lookup k m ≡ none) × DistinctKeys m

module _ {ℓ κ} {K : Type ℓ} {V : Type κ} ⦃e : Eq K⦄ where
  pub lookup-insert :
      (k j : K) (v : V) (m : List (K × V))
      → lookup j (insert k v m) ≡ (if e.same k j then some v else lookup j m)
  lookup-insert k j v [] = refl
  lookup-insert k j v ((i, w) ∷ m) =
      ground (arith, e.same_iff k j, e.same_iff i k, e.same_iff i j, lookup-insert k j v m)

  pub lookup-remove :
      (k j : K) (m : List (K × V))
      → lookup j (remove k m) ≡ (if e.same k j then none else lookup j m)
  lookup-remove k j [] = ground arith
  lookup-remove k j ((i, w) ∷ m) =
      ground (arith, e.same_iff k j, e.same_iff i k, e.same_iff i j, lookup-remove k j m)

  pub insert-DistinctKeys :
      (k : K) (v : V) (m : List (K × V)) → DistinctKeys m → DistinctKeys (insert k v m)
  insert-DistinctKeys k v [] d = (refl, tt)
  insert-DistinctKeys k v ((i, w) ∷ m) d =
      ground (
        arith,
        e.same_iff i k,
        e.same_iff k i,
        insert-DistinctKeys k v m d.1,
        lookup-insert k i v m,
      )

  pub remove-DistinctKeys : (k : K) (m : List (K × V)) → DistinctKeys m → DistinctKeys (remove k m)
  remove-DistinctKeys k [] d = tt
  remove-DistinctKeys k ((i, w) ∷ m) d =
      ground (arith, remove-DistinctKeys k m d.1, lookup-remove k i m)

  -- A write of a present key keeps the number of entries, of a new key adds one.
  pub length-insert :
      (k : K) (v : V) (m : List (K × V))
      → length (insert k v m) ≡ (if contains_key k m then length m else length m + 1)
  length-insert k v [] = omega arith
  length-insert k v ((i, w) ∷ m) = ground (arith, length-insert k v m)

  pub length-remove-le : (k : K) (m : List (K × V)) → length (remove k m) ≤ length m
  length-remove-le k [] = omega arith
  length-remove-le k ((i, w) ∷ m) = ground (arith, length-remove-le k m)

  pub remove_absent : (k : K) (m : List (K × V)) → lookup k m ≡ none → remove k m ≡ m
  remove_absent k [] h = refl
  remove_absent k ((i, w) ∷ m) h = ground (arith, remove_absent k m)

module _ {ℓ} {K V : Type 0} ⦃e : Eq K⦄ (P : K × V → Type ℓ) where
  pub All-insert : (k : K) (v : V) (m : List (K × V)) → P (k, v) → All P m → All P (insert k v m)
  All-insert k v [] p h = (p, tt)
  All-insert k v ((j, x) ∷ m) p (q, h) = elim (Bool-cases (e.same j k)) [
    | inl same ↦ rw same (p, h)
    | inr other ↦ rw other (q, All-insert k v m p h)
  ]

  pub All-remove : (k : K) (m : List (K × V)) → All P m → All P (remove k m)
  All-remove k [] h = tt
  All-remove k ((j, x) ∷ m) (q, h) = elim (Bool-cases (e.same j k)) [
    | inl same ↦ rw same (All-remove k m h)
    | inr other ↦ rw other (q, All-remove k m h)
  ]

  pub All-lookup : (k : K) (v : V) (m : List (K × V)) → All P m → lookup k m ≡ some v → P (k, v)
  All-lookup k v [] h found = cc
  All-lookup k v ((j, x) ∷ m) (q, h) found = elim (Bool-cases (e.same j k)) [
    | inl same ↦ let xv : x ≡ v = cc in rw (← (e.same_iff j k).0 same, ← xv) q
    | inr other ↦ All-lookup k v m h (rw other at found)
  ]

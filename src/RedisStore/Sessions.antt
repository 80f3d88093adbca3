-- ===== src/RedisStore/Sessions.antt =====
-- db/redis_store.rs: the session list keeps ten ids, so a user's eleventh session from the end is out
-- of reach of `revoke_all_refresh_tokens`.
use flutter_21_client.Prelude.{
  ℕ, zero, suc, ◌+◌, ◌<◌, ◌≤◌, String, Bool, false, ◌≡◌, refl, ap, some, List, [], ◌∷◌, arith, any,
  take, length, ◌==◌, text_eq, eq_refl, All,
}
use native.Mathlib.Nat.{add-zero, zero-add}
use flutter_21_client.Errors.{ok}
use flutter_21_client.Services.{Services, Uuid, refresh, refresh_list}
use flutter_21_client.World.{World, M, pure, ◌>>◌}
use flutter_21_client.RedisStore.{store_refresh_token, revoke_all_refresh_tokens, delete_tokens}
use flutter_21_client.RedisStore.Tokens.{stored_token, value-stored_token, value-delete_tokens}

shift : (n : ℕ) (jtis : List String) → suc (length jtis) + n ≡ length jtis + suc n
shift n jtis = omega arith

module _ {ℓ} {A : Type ℓ} (p : A → Bool) where
  any-take-take :
      (n m : ℕ) (xs : List A) → any p (take n xs) ≡ false → any p (take n (take m xs)) ≡ false
  any-take-take zero m xs h = refl
  any-take-take (suc n) zero xs h = refl
  any-take-take (suc n) (suc m) [] h = refl
  any-take-take (suc n) (suc m) (x ∷ xs) h = ground (arith, any-take-take n m xs)

take_all {ℓ} : {A : Type ℓ} (n : ℕ) (xs : List A) → length xs ≤ n → take n xs ≡ xs
take_all zero [] h = refl
take_all zero (x ∷ xs) h = absurd (omega arith)
take_all (suc n) [] h = refl
take_all (suc n) (x ∷ xs) h = ap (◌∷◌ x) (take_all n xs (omega arith))

length-take-le {ℓ} : {A : Type ℓ} (n : ℕ) (xs : List A) → length (take n xs) ≤ n
length-take-le zero xs = omega arith
length-take-le (suc n) [] = omega arith
length-take-le (suc n) (x ∷ xs) = omega (arith, length-take-le n xs)

-- Sessions of one user opened one after the other, with one life time.
pub store_each : {E : Services} → Uuid → ℕ → List String → M E (Unit {0})
store_each user t [] = pure tt
store_each user t (jti ∷ jtis) = do store_refresh_token user jti t; store_each user t jtis

module _ (E : Services) (user : Uuid) (t : ℕ) (pos : 0 < t) where
  stored_tokens : List String → E.Store → E.Store
  stored_tokens [] s = s
  stored_tokens (jti ∷ jtis) s = stored_tokens jtis (stored_token E user jti t s)

  abbrev listed : E.Store → List String
  listed s = E.items (refresh_list user) s

  items-stored_token :
      (jti : String) (s : E.Store) → listed (stored_token E user jti t s) ≡ take 10 (jti ∷ listed s)
  items-stored_token jti s =
      let l = refresh_list user in
      let s₁ = E.set_ex (refresh user jti) "1" t s in
      ground (
        arith,
        E.items-expire l l t (E.ltrim l 9 (E.lpush l jti s₁)) pos,
        E.items-ltrim l l 9 (E.lpush l jti s₁),
        E.items-lpush l l jti s₁,
        E.items-set_ex l (refresh user jti) "1" t s,
      )

  module _ (old : String) where
    abbrev Others : List String → Type 0
    Others jtis = All (λ j. (j == old) ≡ false) jtis

    -- Each further session pushes the old id one place down.
    pushed_down :
        (n : ℕ) (jtis : List String) (s : E.Store)
        → Others jtis
        → any (λ j. j == old) (take n (listed s)) ≡ false
        → any (λ j. j == old) (take (length jtis + n) (listed (stored_tokens jtis s))) ≡ false
    unfolding stored_tokens
    pushed_down n [] s o h = rw (zero-add n) h
    pushed_down n (jti ∷ jtis) s (ne, o) h =
        rw (shift n jtis) (pushed_down (suc n) jtis (stored_token E user jti t s) o lower)
      where
        next : any (λ j. j == old) (take (suc n) (jti ∷ listed s)) ≡ false
        next = ground arith

        lower : any (λ j. j == old) (take (suc n) (listed (stored_token E user jti t s))) ≡ false
        lower =
            rw (items-stored_token jti s)
              (any-take-take (λ j. j == old) (suc n) 10 (jti ∷ listed s) next)

    -- The key of the old id is not touched by further sessions.
    value-stored_tokens :
        (jtis : List String) (s : E.Store)
        → Others jtis
        → E.value (refresh user old) (stored_tokens jtis s) ≡ E.value (refresh user old) s
    unfolding stored_tokens
    value-stored_tokens [] s o = refl
    value-stored_tokens (jti ∷ jtis) s (ne, o) = ground (
      arith,
      value-stored_tokens jtis (stored_token E user jti t s) o,
      value-stored_token E (refresh user old) user jti t s pos,
    )

    bounded :
        (jtis : List String) (s : E.Store)
        → length (listed s) ≤ 10
        → length (listed (stored_tokens jtis s)) ≤ 10
    unfolding stored_tokens
    bounded [] s h = h
    bounded (jti ∷ jtis) s h =
        bounded jtis (stored_token E user jti t s)
          (rw (items-stored_token jti s) (length-take-le 10 (jti ∷ listed s)))

    -- After ten further sessions the old id is not on the list.
    unlisted :
        (jtis : List String) (s : E.Store)
        → Others jtis
        → length jtis ≡ 10
        → any (λ j. j == old) (listed (stored_tokens jtis (stored_token E user old t s))) ≡ false
    unlisted jtis s o ten =
        let s' = stored_token E user old t s in
        let short =
          bounded jtis s' (rw (items-stored_token old s) (length-take-le 10 (old ∷ listed s))) in
        rw (take_all 10 _ short) at (rw (add-zero 10) at (rw ten at (pushed_down 0 jtis s' o refl)))

module _ {E : Services} where
  store_one :
      (user : Uuid) (t : ℕ) (jti : String) (w : World E)
      → w.redis_outcomes ≡ []
      → ((store_refresh_token user jti t w).1.store ≡ stored_token E user jti t w.store)
        × ((store_refresh_token user jti t w).1.redis_outcomes ≡ [])
        × ((store_refresh_token user jti t w).0 ≡ ok tt)
  unfolding store_refresh_token
  store_one user t jti w up = ground arith

  store_each-ok :
      (user : Uuid) (t : ℕ) (pos : 0 < t) (jtis : List String) (w : World E)
      → w.redis_outcomes ≡ []
      → ((store_each user t jtis w).1.store ≡ stored_tokens E user t pos jtis w.store)
        × ((store_each user t jtis w).1.redis_outcomes ≡ [])
        × ((store_each user t jtis w).0 ≡ ok tt)
  unfolding store_each stored_tokens
  store_each-ok user t pos [] w up = (refl, up, refl)
  store_each-ok user t pos (jti ∷ jtis) w up =
      let w' : World E = (store_refresh_token {E = E} user jti t w).1 in
      let first = store_one user t jti w up in
      ground (arith, first, store_each-ok user t pos jtis w')

  -- Of eleven sessions opened one after the other, where the id of the first differs from the
  -- others, `revoke_all_refresh_tokens` does not revoke the first: its key is still there although
  -- every command was carried out.
  pub eleventh_survives_revoke :
      (user : Uuid) (t : ℕ) (old : String) (jtis : List String) (w : World E)
      → 0 < t
      → w.redis_outcomes ≡ []
      → length jtis ≡ 10
      → All (λ j. (j == old) ≡ false) jtis
      → (((do store_each user t (old ∷ jtis); revoke_all_refresh_tokens {E = E} user) w).0 ≡ ok tt)
        × (E.value
              (refresh user old)
              ((do store_each user t (old ∷ jtis); revoke_all_refresh_tokens {E = E} user)
                w).1.store
            ≡ some "1")
  unfolding revoke_all_refresh_tokens stored_tokens
  eleventh_survives_revoke user t old jtis w pos up ten o =
      let s = stored_tokens E user t pos jtis (stored_token E user old t w.store) in
      let l = E.items (refresh_list user) s in
      let after = store_each-ok user t pos (old ∷ jtis) w up in
      (
        ground (arith, after),
        ground (
          arith,
          after,
          unlisted E user t pos old jtis w.store o ten,
          E.value-del_list (refresh user old) (refresh_list user) (delete_tokens E user l s),
          value-delete_tokens E user user old l s,
          value-stored_tokens E user t pos old jtis (stored_token E user old t w.store) o,
          value-stored_token E (refresh user old) user old t w.store pos,
          eq_refl old,
        ),
      )

-- ===== src/Services/Keyspace.antt =====
-- The Redis server: its keyspace as two observations, the text at a key and the list at a key, and
-- the documented effect of each command that server-rust sends. Time is `advance`, in seconds.
use flutter_21_client.Prelude.{
  ℕ, suc, ◌<◌, String, ◌≡◌, Option, none, some, List, [], ◌∷◌, take, if◌then◌else◌, ltb,
}
use flutter_21_client.Services.Keys.{Key, ListKey, key_eq, list_key_eq}

pub record Redis : Type 1 where
  pub Store : Type 0
  pub value : Key → Store → Option String
  pub items : ListKey → Store → List String
  pub set_ex : Key → String → ℕ → Store → Store
  pub del : Key → Store → Store
  pub del_list : ListKey → Store → Store
  pub lpush : ListKey → String → Store → Store
  -- LTRIM from 0: keeps the first entries, up to and including the index.
  pub ltrim : ListKey → ℕ → Store → Store
  pub expire : ListKey → ℕ → Store → Store
  pub advance : ℕ → Store → Store
  pub value-set_ex :
      (j k : Key) (v : String) (t : ℕ) (s : Store)
      → 0 < t
      → value j (set_ex k v t s) ≡ (if key_eq k j then some v else value j s)
  pub value-del :
      (j k : Key) (s : Store) → value j (del k s) ≡ (if key_eq k j then none else value j s)
  pub value-del_list : (j : Key) (k : ListKey) (s : Store) → value j (del_list k s) ≡ value j s
  pub value-lpush :
      (j : Key) (k : ListKey) (v : String) (s : Store) → value j (lpush k v s) ≡ value j s
  pub value-ltrim : (j : Key) (k : ListKey) (n : ℕ) (s : Store) → value j (ltrim k n s) ≡ value j s
  pub value-expire :
      (j : Key) (k : ListKey) (t : ℕ) (s : Store) → value j (expire k t s) ≡ value j s
  pub items-set_ex :
      (j : ListKey) (k : Key) (v : String) (t : ℕ) (s : Store)
      → items j (set_ex k v t s) ≡ items j s
  pub items-del : (j : ListKey) (k : Key) (s : Store) → items j (del k s) ≡ items j s
  pub items-del_list :
      (j k : ListKey) (s : Store)
      → items j (del_list k s) ≡ (if list_key_eq k j then [] else items j s)
  pub items-lpush :
      (j k : ListKey) (v : String) (s : Store)
      → items j (lpush k v s) ≡ (if list_key_eq k j then v ∷ items k s else items j s)
  pub items-ltrim :
      (j k : ListKey) (n : ℕ) (s : Store)
      → items j (ltrim k n s) ≡ (if list_key_eq k j then take (suc n) (items k s) else items j s)
  pub items-expire :
      (j k : ListKey) (t : ℕ) (s : Store) → 0 < t → items j (expire k t s) ≡ items j s
  -- A text set with a time to live is there until that time has passed.
  pub value-advance-set_ex :
      (k : Key) (v : String) (t d : ℕ) (s : Store)
      → 0 < t
      → value k (advance d (set_ex k v t s)) ≡ (if ltb d t then some v else none)
  -- Passing time only ever removes keys.
  pub value_none-advance :
      (k : Key) (d : ℕ) (s : Store) → value k s ≡ none → value k (advance d s) ≡ none

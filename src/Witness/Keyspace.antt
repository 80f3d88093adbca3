-- ===== src/Witness/Keyspace.antt =====
-- A keyspace for the witnesses: texts with the seconds that they have left, and lists.
use flutter_21_client.Prelude.{
  ℕ, suc, ◌-◌, String, true, ◌≡◌, refl, Option, none, some, List, [], ◌∷◌, take, if◌then◌else◌, ltb,
  arith, text_eq, eq_refl,
}
use flutter_21_client.Services.{
  Key, ListKey, refresh, online, busy, room_host, room_joiner, key_eq, list_key_eq, Redis,
}

pub record Memory : Type 0 where
  pub texts : Key → Option (String × ℕ)
  pub lists : ListKey → List String

abbrev pub text_part : Option (String × ℕ) → Option String
text_part none = none
text_part (some (v, t)) = some v

abbrev pub still_live : ℕ → Option (String × ℕ) → Option (String × ℕ)
still_live d none = none
still_live d (some (v, t)) = if ltb d t then some (v, t - d) else none

abbrev pub value_in : Key → Memory → Option String
value_in k s = text_part (s.texts k)

abbrev pub put : Key → Option (String × ℕ) → Memory → Memory
put k x s = record s { texts = λ j. if key_eq k j then x else s.texts j }

abbrev pub put_list : ListKey → List String → Memory → Memory
put_list k x s = record s { lists = λ j. if list_key_eq k j then x else s.lists j }

abbrev pub later : ℕ → Memory → Memory
later d s = record s { texts = λ j. still_live d (s.texts j) }

pub key_eq_self : (k : Key) → key_eq k k ≡ true
key_eq_self (refresh u j) = ground (arith, eq_refl j)
key_eq_self (online u) = ground arith
key_eq_self (busy u) = ground arith
key_eq_self (room_host r) = eq_refl r
key_eq_self (room_joiner r) = eq_refl r

pub none-still_live :
    (d : ℕ) (x : Option (String × ℕ)) → text_part x ≡ none → text_part (still_live d x) ≡ none
none-still_live d none h = refl
none-still_live d (some (v, t)) h = absurd (ground arith)

pub value_in-put :
    (j k : Key) (x : Option (String × ℕ)) (s : Memory)
    → value_in j (put k x s) ≡ (if key_eq k j then text_part x else value_in j s)
value_in-put j k x s = ground arith

pub value_in-later :
    (k : Key) (v : String) (t d : ℕ) (s : Memory)
    → value_in k (later d (put k (some (v, t)) s)) ≡ (if ltb d t then some v else none)
value_in-later k v t d s = ground (arith, key_eq_self k)

abbrev pub empty_memory : Memory
empty_memory = record { texts = λ k. none; lists = λ k. [] }

abbrev pub memory_server : Redis
memory_server = record {
  Store = Memory;
  value = value_in;
  items = λ k s. s.lists k;
  set_ex = λ k v t. put k (some (v, t));
  del = λ k. put k none;
  del_list = λ k. put_list k [];
  lpush = λ k v s. put_list k (v ∷ s.lists k) s;
  ltrim = λ k n s. put_list k (take (suc n) (s.lists k)) s;
  expire = λ k t s. s;
  advance = later;
  value-set_ex = λ j k v t s h. value_in-put j k (some (v, t)) s;
  value-del = λ j k s. value_in-put j k none s;
  value-del_list = λ j k s. refl;
  value-lpush = λ j k v s. refl;
  value-ltrim = λ j k n s. refl;
  value-expire = λ j k t s. refl;
  items-set_ex = λ j k v t s. refl;
  items-del = λ j k s. refl;
  items-del_list = λ j k s. refl;
  items-lpush = λ j k v s. refl;
  items-ltrim = λ j k n s. refl;
  items-expire = λ j k t s h. refl;
  value-advance-set_ex = λ k v t d s h. value_in-later k v t d s;
  value_none-advance = λ k d s h. none-still_live d (s.texts k) h;
}

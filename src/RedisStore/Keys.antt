-- ===== src/RedisStore/Keys.antt =====
-- db/redis_store.rs: different keys have different texts, so that `Key` and `ListKey` lose nothing.
use Prim.Native.String.{◌++◌, count}
use flutter_21_client.Prelude.{
  ℕ, ◌<◌, String, ◌≡◌, refl, ap, sym, ◌∙◌, ◌≢◌, false, eq_iff, ◌==◌, text_eq,
}
use flutter_21_client.Services.{
  Services, Uuid, Key, ListKey, refresh, online, busy, room_host, room_joiner, refresh_list,
  key_text, list_key_text,
}
use text.Mathlib.TextLemmas.{append_cancel_left, append_assoc, append_inj}

-- Two texts that begin with different letters of one number are different.
prefix_clash :
    (p q p' q' a b : String)
    → count p ≡ count q
    → (p == q) ≡ false
    → (p ++ p') ++ a ≡ (q ++ q') ++ b
    → ⊥
prefix_clash p q p' q' a b l d e =
    let same : p ≡ q = (append_inj (sym (append_assoc p p' a) ∙ e ∙ append_assoc q q' b) l).0 in
    cc (d, (eq_iff p q).1 same)

-- The id of the user that a key names, if any, is below a bound.
abbrev pub UserBelow : ℕ → Key → Type 0
UserBelow n (refresh u jti) = u < n
UserBelow n (online u) = u < n
UserBelow n (busy u) = u < n
UserBelow n (room_host r) = Unit
UserBelow n (room_joiner r) = Unit

module _ (E : Services) where
  show_injective :
      (u v : Uuid) → u < E.uuid_bound → v < E.uuid_bound → E.show_uuid u ≡ E.show_uuid v → u ≡ v
  show_injective u v hu hv e = cc (E.parse-show u hu, E.parse-show v hv, ap E.parse_uuid e)

  after_prefix : (p a b : String) → p ++ a ≡ p ++ b → a ≡ b
  after_prefix p a b e = append_cancel_left p a b e

  -- "rt:" with a user id and a token id
  refresh_parts :
      (u v : Uuid) (i j : String)
      → u < E.uuid_bound
      → v < E.uuid_bound
      → key_text E.show_uuid (refresh u i) ≡ key_text E.show_uuid (refresh v j)
      → refresh u i ≡ refresh v j
  unfolding key_text
  refresh_parts u v i j hu hv e =
      let halves = append_inj (after_prefix "rt:" _ _ e) (E.show_length u v) in
      cc (show_injective u v hu hv halves.0, after_prefix ":" _ _ halves.1)

  -- Two keys for texts that have the same text are the same key, where the ids of the users that they
  -- name have 128 bits.
  pub key_text_injective :
      (j k : Key)
      → UserBelow E.uuid_bound j
      → UserBelow E.uuid_bound k
      → key_text E.show_uuid j ≡ key_text E.show_uuid k
      → j ≡ k
  unfolding key_text
  key_text_injective (refresh u i) (refresh v j) hj hk e = refresh_parts u v i j hj hk e
  key_text_injective (online u) (online v) hj hk e =
      ap online (show_injective u v hj hk (after_prefix "online:" _ _ e))
  key_text_injective (busy u) (busy v) hj hk e =
      ap busy (show_injective u v hj hk (after_prefix "busy:" _ _ e))
  key_text_injective (room_host r) (room_host s) hj hk e =
      ap room_host (after_prefix "room_host:" _ _ e)
  key_text_injective (room_joiner r) (room_joiner s) hj hk e =
      ap room_joiner (after_prefix "room_joiner:" _ _ e)
  key_text_injective (refresh u i) (online v) hj hk e =
      absurd (prefix_clash "r" "o" "t:" "nline:" _ _ refl refl e)
  key_text_injective (refresh u i) (busy v) hj hk e =
      absurd (prefix_clash "r" "b" "t:" "usy:" _ _ refl refl e)
  key_text_injective (refresh u i) (room_host s) hj hk e =
      absurd (prefix_clash "rt" "ro" ":" "om_host:" _ _ refl refl e)
  key_text_injective (refresh u i) (room_joiner s) hj hk e =
      absurd (prefix_clash "rt" "ro" ":" "om_joiner:" _ _ refl refl e)
  key_text_injective (online u) (busy v) hj hk e =
      absurd (prefix_clash "o" "b" "nline:" "usy:" _ _ refl refl e)
  key_text_injective (online u) (refresh v j) hj hk e =
      absurd (prefix_clash "o" "r" "nline:" "t:" _ _ refl refl e)
  key_text_injective (online u) (room_host s) hj hk e =
      absurd (prefix_clash "o" "r" "nline:" "oom_host:" _ _ refl refl e)
  key_text_injective (online u) (room_joiner s) hj hk e =
      absurd (prefix_clash "o" "r" "nline:" "oom_joiner:" _ _ refl refl e)
  key_text_injective (busy u) (online v) hj hk e =
      absurd (prefix_clash "b" "o" "usy:" "nline:" _ _ refl refl e)
  key_text_injective (busy u) (refresh v j) hj hk e =
      absurd (prefix_clash "b" "r" "usy:" "t:" _ _ refl refl e)
  key_text_injective (busy u) (room_host s) hj hk e =
      absurd (prefix_clash "b" "r" "usy:" "oom_host:" _ _ refl refl e)
  key_text_injective (busy u) (room_joiner s) hj hk e =
      absurd (prefix_clash "b" "r" "usy:" "oom_joiner:" _ _ refl refl e)
  key_text_injective (room_host r) (refresh v j) hj hk e =
      absurd (prefix_clash "ro" "rt" "om_host:" ":" _ _ refl refl e)
  key_text_injective (room_host r) (online v) hj hk e =
      absurd (prefix_clash "r" "o" "oom_host:" "nline:" _ _ refl refl e)
  key_text_injective (room_host r) (busy v) hj hk e =
      absurd (prefix_clash "r" "b" "oom_host:" "usy:" _ _ refl refl e)
  key_text_injective (room_host r) (room_joiner s) hj hk e =
      absurd (prefix_clash "room_h" "room_j" "ost:" "oiner:" _ _ refl refl e)
  key_text_injective (room_joiner r) (refresh v j) hj hk e =
      absurd (prefix_clash "ro" "rt" "om_joiner:" ":" _ _ refl refl e)
  key_text_injective (room_joiner r) (online v) hj hk e =
      absurd (prefix_clash "r" "o" "oom_joiner:" "nline:" _ _ refl refl e)
  key_text_injective (room_joiner r) (busy v) hj hk e =
      absurd (prefix_clash "r" "b" "oom_joiner:" "usy:" _ _ refl refl e)
  key_text_injective (room_joiner r) (room_host s) hj hk e =
      absurd (prefix_clash "room_j" "room_h" "oiner:" "ost:" _ _ refl refl e)

  -- A key that holds a list never has the text of a key that holds a text.
  pub list_key_text-ne-key_text :
      (j : ListKey) (k : Key) → list_key_text E.show_uuid j ≢ key_text E.show_uuid k
  unfolding key_text list_key_text
  list_key_text-ne-key_text (refresh_list u) (refresh v j) e =
      prefix_clash "rt_" "rt:" "list:" "" _ _ refl refl e
  list_key_text-ne-key_text (refresh_list u) (online v) e =
      prefix_clash "r" "o" "t_list:" "nline:" _ _ refl refl e
  list_key_text-ne-key_text (refresh_list u) (busy v) e =
      prefix_clash "r" "b" "t_list:" "usy:" _ _ refl refl e
  list_key_text-ne-key_text (refresh_list u) (room_host r) e =
      prefix_clash "rt" "ro" "_list:" "om_host:" _ _ refl refl e
  list_key_text-ne-key_text (refresh_list u) (room_joiner r) e =
      prefix_clash "rt" "ro" "_list:" "om_joiner:" _ _ refl refl e

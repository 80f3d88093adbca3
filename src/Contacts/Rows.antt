-- ===== src/Contacts/Rows.antt =====
-- routes/contacts.rs: what each statement does to the rows of `contacts`, for a test on rows.
use flutter_21_client.Prelude.{
  ℕ, Bool, true, false, ◌&&◌, none, List, [], ◌∷◌, map, any, find, keep, ◌≡◌, refl, arith, ◌⊎◌, inl,
}
use flutter_21_client.Services.{Uuid}
use flutter_21_client.World.Tables.{Db, accepted, Contact}
use flutter_21_client.Contacts.Statements.{
  between, is_status, is_contact, renew_request, accept_row, is_pending_from_to,
}

module _ {ℓ} {A : Type ℓ} (p : A → Bool) where
  pub any-keep : (q : A → Bool) (xs : List A) → any p (keep q xs) ≡ true → any p xs ≡ true
  any-keep q [] h = h
  any-keep q (x ∷ xs) h = ground (arith, any-keep q xs)

  pub any-keep_disjoint :
      (q : A → Bool)
      → ((x : A) → p x ≡ true → q x ≡ false)
      → (xs : List A) → any p (keep q xs) ≡ false
  any-keep_disjoint q no_both [] = refl
  any-keep_disjoint q no_both (x ∷ xs) = ground (arith, no_both x, any-keep_disjoint q no_both xs)

  pub any-map :
      (f : A → A)
      → ((x : A) → p (f x) ≡ true → p x ≡ true)
      → (xs : List A) → any p (map f xs) ≡ true
      → any p xs ≡ true
  any-map f back [] h = h
  any-map f back (x ∷ xs) h = ground (arith, back x, any-map f back xs)

  pub any-map_same :
      (f : A → A) → ((x : A) → p (f x) ≡ p x) → (xs : List A) → any p (map f xs) ≡ any p xs
  any-map_same f same [] = refl
  any-map_same f same (x ∷ xs) = ground (arith, same x, any-map_same f same xs)

  pub find_of_not_any : (xs : List A) → any p xs ≡ false → find p xs ≡ none
  find_of_not_any [] h = refl
  find_of_not_any (x ∷ xs) h = ground (arith, find_of_not_any xs)

-- An accepted row of the two, whoever asked.
abbrev pub is_link : Uuid → Uuid → Contact → Bool
is_link a b c = is_status c.status accepted && between a b c

module _ (a b : Uuid) where
  pub is_link-renew_request :
      (r c : Contact) → is_link a b (renew_request r c) ≡ true → is_link a b c ≡ true
  is_link-renew_request r c h = ground arith

  -- An UPDATE by `accept_request` makes links only of the two parties, from a pending row.
  pub any-accept_row :
      (requester target : Uuid) (now : ℕ) (cs : List Contact)
      → any (is_link a b) (map (accept_row requester target now) cs) ≡ true
      → (any (is_link a b) cs ≡ true)
        ⊎ ((any (is_pending_from_to requester target) cs ≡ true)
            × (((a ≡ requester) × (b ≡ target)) ⊎ ((a ≡ target) × (b ≡ requester))))
  any-accept_row requester target now [] h = inl h
  any-accept_row requester target now (c ∷ cs) h =
      ground (arith, any-accept_row requester target now cs)

  pub is_contact_comm : (d : Db) → is_contact a b d ≡ is_contact b a d
  is_contact_comm d = go d.contacts
    where
      go : (cs : List Contact) → any (is_link a b) cs ≡ any (is_link b a) cs
      go [] = refl
      go (c ∷ cs) = ground (arith, go cs)

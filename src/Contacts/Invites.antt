-- ===== src/Contacts/Invites.antt =====
-- routes/contacts.rs: how often an invite link can be redeemed.
use flutter_21_client.Prelude.{
  ℕ, suc, String, Bool, false, ◌&&◌, Option, some, List, [], ◌∷◌, map, find, ◌≡◌, refl, arith,
  nat_eq, Option-cases, inl, inr, ltb, ◌==◌, text_eq,
}
use flutter_21_client.Errors.{ok, err, bad_request}
use flutter_21_client.Services.{Services, Uuid}
use flutter_21_client.World.{World, M, pure, stored, ◌>>=◌}
use flutter_21_client.World.Tables.{Db, natural, negative, InviteLink}
use flutter_21_client.Auth.{AuthUser}
use flutter_21_client.Contacts.{claim_invite, redeem_invite, use_invite_link}
use flutter_21_client.Contacts.Statements.{
  find_invite, use_up, use_link, minus_one, is_zero, insert_request_if_new,
}

find-map {ℓ} :
    {A : Type ℓ} (p : A → Bool) (f : A → A)
    → ((x : A) → p (f x) ≡ p x)
    → (xs : List A) (x : A) → find p xs ≡ some x
    → find p (map f xs) ≡ some (f x)
find-map p f same [] x h = cc
find-map p f same (y ∷ ys) x h = ground (arith, same y, find-map p f same ys x)

-- The statement that counts a use leaves the link to be found again, with one use less.
find_invite-use_up :
    (owner : Uuid) (token : String) (now : ℕ) (d : Db) (l : InviteLink)
    → find_invite owner token now d ≡ some l
    → find_invite owner token now (stored d (use_up l.id d))
      ≡ some (record l { uses_left = minus_one l.uses_left })
unfolding use_up
find_invite-use_up owner token now d l h = ground (
  arith,
  find-map (λ k. nat_eq k.owner_id owner && k.token == token && ltb now k.expires_at)
      (use_link l.id) (λ k. ground arith) d.invite_links l h,
)

abbrev pub link_in : {E : Services} → Uuid → String → World E → Option InviteLink
link_in owner token w = find_invite owner token w.now w.db

module _ {E : Services} (auth : AuthUser) (owner : Uuid) (token : String) where
  -- A redemption that succeeds found a link that is not expired and has uses left other than zero,
  -- and leaves it with one use less.
  pub use_invite_link-ok :
      (w : World E) (answer : String)
      → (use_invite_link auth owner token w).0 ≡ ok answer
      → (l : InviteLink) × (link_in owner token w ≡ some l)
        × (is_zero l.uses_left ≡ false)
        × (link_in owner token (use_invite_link auth owner token w).1
            ≡ some (record l { uses_left = minus_one l.uses_left }))
  unfolding use_invite_link insert_request_if_new
  use_invite_link-ok w answer h = elim (Option-cases (link_in owner token w)) [
    | inl missing ↦ absurd (ground arith)
    | inr (l, found) ↦
        (l, found, ground arith, ground (arith, find_invite-use_up owner token w.now w.db l found))
  ]

  -- A link with one use left serves once, if the requests come one after the other: when a
  -- redemption has succeeded, the next one, by anybody, with the tables and the clock as the first
  -- one left them, is refused. The database answers it.
  pub use_invite_link_once :
      (w v : World E) (answer : String) (l : InviteLink) (next : AuthUser)
      → link_in owner token w ≡ some l
      → l.uses_left ≡ natural 1
      → (use_invite_link auth owner token w).0 ≡ ok answer
      → v.db ≡ (use_invite_link auth owner token w).1.db
      → v.now ≡ (use_invite_link auth owner token w).1.now
      → v.db_outcomes ≡ []
      → (use_invite_link next owner token v).0 ≡ err (bad_request "Invite link has been used")
  unfolding use_invite_link
  use_invite_link_once w v answer l next found one h same now up =
      let (l', found', _, after) = use_invite_link-ok w answer h in
      let here : link_in owner token v ≡ some (record l' { uses_left = minus_one l'.uses_left }) =
        rw (same, now) after in
      ground arith

-- Two tasks that redeem one link at the same time: both check it before either counts its use.
abbrev pub race : {E : Services} → AuthUser → AuthUser → Uuid → String → M E String
race first second owner token = claim_invite owner token >>= λ l. claim_invite owner token >>= λ k.
    redeem_invite first owner l >>= λ _. redeem_invite second owner k

module _ {E : Services} (owner : Uuid) (token : String) where
  -- The link may have been read earlier: only its id counts.
  redeem_invite-found :
      (auth : AuthUser) (l k : InviteLink) (w : World E)
      → w.db_outcomes ≡ []
      → link_in owner token w ≡ some l
      → k.id ≡ l.id
      → ((redeem_invite auth owner k w).0 ≡ ok "request_sent")
        × ((redeem_invite auth owner k w).1.db_outcomes ≡ [])
        × (link_in owner token (redeem_invite auth owner k w).1
            ≡ some (record l { uses_left = minus_one l.uses_left }))
  unfolding redeem_invite insert_request_if_new
  redeem_invite-found auth l k w up found same =
      ground (arith, find_invite-use_up owner token w.now w.db l found)

  claim_invite-found :
      (l : InviteLink) (w : World E)
      → w.db_outcomes ≡ []
      → find_invite owner token w.now w.db ≡ some l
      → is_zero l.uses_left ≡ false
      → claim_invite owner token w ≡ (ok l, w)
  unfolding claim_invite
  claim_invite-found l w up found uses = ground arith

  -- Two redemptions that both check a link with one use left before either counts its use are both
  -- served, and leave minus one uses. The database answers.
  pub race_serves_both :
      (first second : AuthUser) (l : InviteLink) (w : World E)
      → w.db_outcomes ≡ []
      → link_in owner token w ≡ some l
      → l.uses_left ≡ natural 1
      → ((race first second owner token w).0 ≡ ok "request_sent")
        × (link_in owner token (race first second owner token w).1
            ≡ some (record l { uses_left = negative 0 }))
  race_serves_both first second l w up found one =
      let claim = claim_invite-found l w up found (ground arith) in
      let w' : World E = (redeem_invite {E = E} first owner l w).1 in
      let (fine, up', found') = redeem_invite-found first l l w up found refl in
      let l' = record l { uses_left = minus_one l.uses_left } in
      let (fine', _, found'') = redeem_invite-found second l' l w' up' found' refl in
      (ground (arith, claim, fine, fine'), ground (arith, claim, fine, found''))

  -- The users redeem the link one after the other.
  pub redeem_each : List AuthUser → M E (Unit {0})
  redeem_each [] = pure tt
  redeem_each (auth ∷ auths) = do use_invite_link auth owner token >>= λ _. redeem_each auths

  -- A link whose uses have gone below zero does not run out: however many redemptions follow, one
  -- after the other at a time when it is not expired, all are served. The database answers.
  pub negative_serves_all :
      (auths : List AuthUser) (l : InviteLink) (n : ℕ) (w : World E)
      → w.db_outcomes ≡ []
      → link_in owner token w ≡ some l
      → l.uses_left ≡ negative n
      → (redeem_each auths w).0 ≡ ok tt
  unfolding redeem_each use_invite_link
  negative_serves_all [] l n w up found neg = refl
  negative_serves_all (auth ∷ auths) l n w up found neg =
      let (fine, up', found') = redeem_invite-found auth l l w up found refl in
      let more = minus_one l.uses_left in
      ground (
        arith,
        claim_invite-found l w up found (ground arith),
        fine,
        negative_serves_all auths (record l { uses_left = negative (suc n) }) (suc n)
            (redeem_invite {E = E} auth owner l w).1 up' (ground (arith, found')) refl,
      )

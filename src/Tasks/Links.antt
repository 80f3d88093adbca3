-- ===== src/Tasks/Links.antt =====
-- routes/contacts.rs in steps: how two users come to be contacts.
use flutter_21_client.Prelude.{
  true, false, [], any, uuid_eq, ◌≡◌, ◌⊎◌, sym, subst, ◌∙◌, arith, inl, inr, Bool-cases,
}
use mathlib.Core.Bool.{false≢true}
use flutter_21_client.Services.{Services, Uuid}
use flutter_21_client.World.{World, db_statement}
use flutter_21_client.Config.{Config}
use flutter_21_client.Contacts.Statements.{is_contact, is_pending_from_to, accept_pending}
use flutter_21_client.Contacts.Permission.{Linked}
use flutter_21_client.Contacts.Rows.{any-accept_row}
use flutter_21_client.System.History.{Unlinked, Stable-Unlinked, Links, Links-step}
use flutter_21_client.Tasks.Writes.{store_acceptance}
use flutter_21_client.Tasks.Pool.{
  Pool, arrived, polled, ◌⟶◌, arrives, polls, elsewhere, ◌⟶*◌, here, after,
}
use flutter_21_client.Tasks.Steady.{Steady, IsOrdinary, IsAcceptance}
use flutter_21_client.Tasks.Valid.{HasSteady, HasSteady-lookup, HasSteady-path, HasSteady-empty}

module _ {E : Services} (a b : Uuid) where
  -- One of the two users has asked the other.
  abbrev pub IsAsked : Uuid → Uuid → World E → Type 0
  IsAsked requester target w =
      (any (is_pending_from_to requester target) w.db.contacts ≡ true)
      × (((a ≡ requester) × (b ≡ target)) ⊎ ((a ≡ target) × (b ≡ requester)))

  Linked-store_acceptance :
      (requester target : Uuid) (w : World E)
      → Linked a b (store_acceptance requester target w).1.db
      → Linked a b w.db ⊎ IsAsked requester target w
  unfolding store_acceptance accept_pending db_statement
  Linked-store_acceptance requester target w h =
      ground (arith, any-accept_row a b requester target w.now w.db.contacts)

  -- A step of a task is the UPDATE that accepts the request of one of the two to the other.
  abbrev pub Accepts : World E → World E → Type 0
  Accepts w v =
      (requester : Uuid) × (target : Uuid) × IsAsked requester target w
      × (v ≡ (store_acceptance requester target w).1)

  abbrev pub LinksPool : Config E → Pool E → Pool E → Type 0
  LinksPool c p q = Links a b c p.server q.server ⊎ Accepts p.server.world q.server.world

  step-Accepts :
      (f : World E → World E) (w : World E)
      → IsOrdinary f ⊎ IsAcceptance f
      → is_contact a b w.db ≡ false
      → is_contact a b (f w).db ≡ true
      → Accepts w (f w)
  unfolding IsOrdinary IsAcceptance
  step-Accepts f w (inl ordinary) out linked =
      absurd (false≢true (sym (ordinary (Unlinked a b) (Stable-Unlinked a b) w out) ∙ linked))
  step-Accepts f w (inr (requester, target, same)) out linked =
      elim (Linked-store_acceptance requester target w
        (subst (λ (v : World E). is_contact a b v.db ≡ true) (same w) linked)) [
          | inl before ↦ absurd (false≢true (sym out ∙ before))
          | inr asked ↦ (requester, target, asked, same w)
        ]

  module _ (c : Config E) where
    LinksPool-step :
        (p q : Pool E)
        → ◌⟶◌ c p q
        → HasSteady p.tasks
        → is_contact a b p.server.world.db ≡ false
        → is_contact a b q.server.world.db ≡ true
        → LinksPool c p q
    unfolding arrived polled Steady
    LinksPool-step p _ (arrives r) steady out linked = absurd (false≢true (sym out ∙ linked))
    LinksPool-step p _ (polls n f next at) steady out linked =
        inr
          (step-Accepts f p.server.world (HasSteady-lookup n f next p.tasks steady at).0 out linked)
    LinksPool-step p _ (elsewhere s there) steady out linked =
        inl (Links-step a b c p.server s there out linked)

    path-LinksPool :
        (p q : Pool E)
        → ◌⟶*◌ c p q
        → HasSteady p.tasks
        → is_contact a b p.server.world.db ≡ false
        → is_contact a b q.server.world.db ≡ true
        → (u : Pool E) × (v : Pool E) × (◌⟶*◌ c p u) × LinksPool c u v × (◌⟶*◌ c v q)
    path-LinksPool p _ here steady out linked = absurd (false≢true (sym out ∙ linked))
    path-LinksPool p _ (after {q = q} {r = r} before move) steady out linked =
        elim (Bool-cases (is_contact a b q.server.world.db)) [
          | inl linked_then ↦
              let (u, v, to, links, on) = path-LinksPool p q before steady out linked_then in
              (u, v, to, links, after on move)
          | inr unlinked ↦ (
            q,
            r,
            before,
            LinksPool-step q r move (HasSteady-path c p q before steady) unlinked linked,
            here,
          )
        ]

    -- Two users who were no contacts when no request was in progress, and who are contacts later,
    -- however the steps of the requests fell between each other and between the other work, became so
    -- by an acceptance on the way: a request that the server served as a whole, or the UPDATE of a
    -- request in steps, and either accepts a pending request that one of the two has made to the
    -- other.
    pub contacts_asked :
        (p q : Pool E)
        → ◌⟶*◌ c p q
        → p.tasks ≡ []
        → is_contact a b p.server.world.db ≡ false
        → is_contact a b q.server.world.db ≡ true
        → (u : Pool E) × (v : Pool E) × (◌⟶*◌ c p u) × LinksPool c u v × (◌⟶*◌ c v q)
    contacts_asked p q path empty out linked =
        path-LinksPool p q path (HasSteady-empty c p empty) out linked

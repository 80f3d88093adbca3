-- ===== src/System/History.antt =====
-- routes/contacts.rs over the life of the server: how two users come to be contacts.
use flutter_21_client.Prelude.{
  true, false, Option, none, some, any, ◌≡◌, ◌⊎◌, refl, sym, subst, ap, ◌∙◌, arith, inl, inr,
  Bool-cases, Option-cases, uuid_eq,
}
use mathlib.Core.Bool.{false≢true}
use flutter_21_client.Errors.{ok, Result-cases}
use flutter_21_client.Services.{Services, Uuid}
use flutter_21_client.World.{World, stored}
use flutter_21_client.World.Tables.{Db, pending, blocked}
use flutter_21_client.World.Keeps.{Keeps}
use flutter_21_client.Config.{Config}
use flutter_21_client.Auth.{AuthUser}
use flutter_21_client.Middleware.{Headers, extract_bearer, require_auth}
use flutter_21_client.Api.{Endpoint, accepts, serve}
use flutter_21_client.Database.{insert_user, mark_seen, insert_room}
use flutter_21_client.Contacts.Statements.{
  is_contact, is_pending_from_to, new_contact, upsert_request, insert_contact,
  insert_request_if_new, delete_pending, delete_accepted, delete_between, insert_invite, use_up,
}
use flutter_21_client.Contacts.Permission.{
  Linked, Linked-upsert_request, Linked-insert_contact, Linked-insert_request_if_new,
  Linked-delete_pending, Linked-delete_accepted, Linked-delete_between, Linked-accept_request,
}
use flutter_21_client.System.Stable.{Property, Stable}
use flutter_21_client.System.Accounts.{Keeps-require_auth}
use flutter_21_client.System.Serving.{Keeps-serve}
use flutter_21_client.System.Sockets.{Holds-handle_frame, Holds-cleanup, Holds-deliver_published}
use flutter_21_client.Signaling.Socket.{handle_frame}
use flutter_21_client.System.Steps.{
  Server, served, open_socket, close_socket, received, passed, ◌⟶◌, requests, opens, reads, ends,
  receives, waits, ◌⟶*◌, here, after,
}
use flutter_21_client.System.Invariant.{Holds-after_frame}

abbrev accepted_by : Endpoint → Option (Option Uuid)
accepted_by (accepts r) = some r
accepted_by _ = none

accepted_by-some : (e : Endpoint) (r : Option Uuid) → accepted_by e ≡ some r → e ≡ accepts r
accepted_by-some e r h = ground arith

module _ (a b : Uuid) where
  abbrev pub Unlinked : Property
  Unlinked d cs = is_contact a b d ≡ false

  unlink :
      {A : Type 0} (f : Db → Option (A × Db)) (d : Db)
      → (Linked a b (stored d (f d)) → Linked a b d)
      → is_contact a b d ≡ false
      → is_contact a b (stored d (f d)) ≡ false
  unlink f d back h = elim (Bool-cases (is_contact a b (stored d (f d)))) [
    | inl linked ↦ absurd (false≢true (sym h ∙ back linked))
    | inr out ↦ out
  ]

  pub Stable-Unlinked : Stable Unlinked
  unfolding insert_user mark_seen insert_room insert_invite use_up
  Stable-Unlinked = record {
    inserts_user = λ u d cs h. ground arith;
    marks_seen = λ u now d cs h. h;
    inserts_room = λ r d cs h. ground arith;
    asks = λ id x y now d cs h.
        unlink (upsert_request (new_contact id x y pending now)) d
          (Linked-upsert_request a b (new_contact id x y pending now) d refl) h;
    declines = λ x y d cs h. unlink (delete_pending x y) d (Linked-delete_pending a b x y d) h;
    removes = λ x y d cs h. unlink (delete_accepted x y) d (Linked-delete_accepted a b x y d) h;
    clears = λ x y d cs h. unlink (delete_between x y) d (Linked-delete_between a b x y d) h;
    blocks = λ id x y now d cs h.
        unlink (insert_contact (new_contact id x y blocked now)) d
          (Linked-insert_contact a b (new_contact id x y blocked now) d refl) h;
    asks_by_link = λ id x y now d cs h.
        unlink (insert_request_if_new (new_contact id x y pending now)) d
          (Linked-insert_request_if_new a b (new_contact id x y pending now) d refl) h;
    invites = λ id x t now d cs h. ground arith;
    uses = λ id d cs h. h;
  }

  module _ {E : Services} (c : Config E) where
    -- The bearer of the headers accepts the pending request of one of the two users, being the other.
    abbrev pub Accepts : Headers → Uuid → Server E → Type 0
    Accepts headers requester s =
        (auth : AuthUser) × ((require_auth c (extract_bearer headers) s.world).0 ≡ ok auth)
        × (any (is_pending_from_to requester auth.user_id) s.world.db.contacts ≡ true)
        × (((a ≡ requester) × (b ≡ auth.user_id)) ⊎ ((a ≡ auth.user_id) × (b ≡ requester)))

    require_auth-db :
        (bearer : Headers) (w : World E) → (require_auth c (extract_bearer bearer) w).1.db ≡ w.db
    unfolding Keeps
    require_auth-db headers w =
        Keeps-require_auth E (λ d cs. d ≡ w.db) c (extract_bearer headers) w refl

    served_accepts :
        (headers : Headers) (requester : Uuid) (s : Server E)
        → is_contact a b s.world.db ≡ false
        → is_contact a b (served c headers (accepts (some requester)) s).world.db ≡ true
        → Accepts headers requester s
    unfolding served serve
    served_accepts headers requester s out h =
        let w : World E = (require_auth c (extract_bearer headers) s.world).1 in
        let same = require_auth-db headers s.world in
        elim (Result-cases (require_auth c (extract_bearer headers) s.world).0) [
          | inl (auth, e) ↦ elim (Linked-accept_request a b auth requester w (rw e at h)) [
            | inl before ↦ absurd (false≢true (sym out ∙ subst (Linked a b) same before))
            | inr (asked, parties) ↦ (
              auth,
              e,
              subst (λ d. any (is_pending_from_to requester auth.user_id) d.contacts ≡ true) same
                  asked,
              parties,
            )
          ]
          | inr (x, e) ↦ absurd (false≢true (sym out ∙ subst (Linked a b) same (rw e at h)))
        ]

    served-none :
        (headers : Headers) (s : Server E)
        → is_contact a b s.world.db ≡ false
        → is_contact a b (served c headers (accepts none) s).world.db ≡ false
    unfolding served serve
    served-none headers s out =
        let same = require_auth-db headers s.world in
        elim (Result-cases (require_auth c (extract_bearer headers) s.world).0) [
          | inl (auth, e) ↦ rw e (subst (λ d. is_contact a b d ≡ false) (sym same) out)
          | inr (x, e) ↦ rw e (subst (λ d. is_contact a b d ≡ false) (sym same) out)
        ]

    -- What makes the two contacts.
    abbrev pub Links : Server E → Server E → Type 0
    Links s t =
        (headers : Headers) × (requester : Uuid) × Accepts headers requester s
        × (t ≡ served c headers (accepts (some requester)) s)

    served-Links :
        (headers : Headers) (e : Endpoint) (s : Server E)
        → is_contact a b s.world.db ≡ false
        → is_contact a b (served c headers e s).world.db ≡ true
        → Links s (served c headers e s)
    unfolding served
    served-Links headers e s out h = elim (Option-cases (accepted_by e)) [
      | inl other ↦ absurd (
          false≢true (
            sym (
              Keeps-serve E Unlinked c headers Stable-Unlinked e
                (λ r same. let clash : none ≡ some r = sym other ∙ ap accepted_by same in cc)
                s.world out)
            ∙ h))
      | inr (none, same) ↦
          let here : e ≡ accepts none = accepted_by-some e none same in
          absurd (false≢true (sym (served-none headers s out) ∙ rw here at h))
      | inr (some requester, same) ↦
          let this : e ≡ accepts (some requester) = accepted_by-some e (some requester) same in
          (
            headers,
            requester,
            served_accepts headers requester s out (rw this at h),
            ap (λ x. served c headers x s) this,
          )
    ]

    pub Links-step :
        (s t : Server E)
        → ◌⟶◌ c s t
        → is_contact a b s.world.db ≡ false
        → is_contact a b t.world.db ≡ true
        → Links s t
    unfolding open_socket close_socket received passed
    Links-step s _ (requests headers e) out h = served-Links headers e s out h
    Links-step s _ opens out h = absurd (false≢true (sym out ∙ h))
    Links-step s _ (reads tx user_id f is_open) out h =
        let r = handle_frame E c tx user_id f s.world in
        let still =
          Holds-after_frame c Unlinked tx s r Stable-Unlinked (λ user d cs p. p)
            (Holds-handle_frame E Unlinked Stable-Unlinked c tx (λ user d cs active p. p) user_id f
              s.world out) in
        absurd (false≢true (sym still ∙ h))
    Links-step s _ (ends tx user_id is_open) out h = absurd (
        false≢true (
          sym (Holds-cleanup E Unlinked Stable-Unlinked c tx (λ user d cs p. p) user_id s.world out)
          ∙ h))
    Links-step s _ (receives m) out h =
        absurd (false≢true (sym (Holds-deliver_published E Unlinked m s.world out) ∙ h))
    Links-step s _ (waits seconds redis db) out h = absurd (false≢true (sym out ∙ h))

    -- Two users who were no contacts and are contacts after any course of the server became so by an
    -- acceptance on the way: a request whose bearer `require_auth` admits as one of the two accepts a
    -- pending request that the other one has made to that user.
    pub Links-reach :
        (s t : Server E)
        → ◌⟶*◌ c s t
        → is_contact a b s.world.db ≡ false
        → is_contact a b t.world.db ≡ true
        → (u : Server E) × (v : Server E) × (◌⟶*◌ c s u) × Links u v × (◌⟶*◌ c v t)
    Links-reach s _ here out h = absurd (false≢true (sym out ∙ h))
    Links-reach s _ (after {t = t} {u = x} before step) out h =
        elim (Bool-cases (is_contact a b t.world.db)) [
          | inl linked ↦
              let (u, v, to, links, on) = Links-reach s t before out linked in
              (u, v, to, links, after on step)
          | inr unlinked ↦ (t, x, before, Links-step t x step unlinked h, here)
        ]

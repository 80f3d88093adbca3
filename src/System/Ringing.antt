-- ===== src/System/Ringing.antt =====
-- signaling/server.rs and routes/contacts.rs over the life of the server: who can be rung.
use flutter_21_client.Prelude.{
  ◌<◌, String, Bool, true, false, Option, none, some, [], ◌≡◌, refl, ◌∙◌, arith, inl, inr,
  Bool-cases, uuid_eq, ◌==◌, text_eq,
}
use flutter_21_client.Errors.{ok, err, ApiResult}
use flutter_21_client.Services.{Services, Uuid, Claims}
use flutter_21_client.World.{World, WsTx}
use flutter_21_client.Config.{Config}
use flutter_21_client.Contacts.Statements.{is_contact}
use flutter_21_client.Database.{user_is_active, update_last_seen, find_user_by_id}
use flutter_21_client.Hub.{register}
use flutter_21_client.RedisStore.{set_online}
use flutter_21_client.Signaling.{dispatch_message}
use flutter_21_client.Signaling.CallGate.{addressee, rings, dispatch-rings}
use flutter_21_client.Signaling.Fields.{text_field}
use flutter_21_client.Signaling.Socket.{
  Frame, text, ping, close, binary, pong, welcome, admit, identify, check_claims, check_token,
  authenticate, report, signal, typed, parsed_frame, handle_frame,
}
use flutter_21_client.System.Steps.{Server, ◌⟶*◌}
use flutter_21_client.System.History.{Links, Links-reach}

abbrev pub named_in : (E : Services) → Option E.Value → Option Uuid
named_in E none = none
named_in E (some msg) = addressee E (text_field E msg "to")

-- The user that the field "to" of a frame names.
abbrev pub callee : (E : Services) → Frame → Option Uuid
callee E (text t) = named_in E (E.from_str t)
callee E _ = none

module _ {E : Services} (c : Config E) (tx : WsTx) where
  -- Two users of whom the first one rings the second, who is the one named.
  abbrev pub Rung : Option Uuid → Option Uuid → World E → Type 0
  Rung user_id named w =
      (sender : Uuid) × (to : Uuid) × (user_id ≡ some sender)
      × (named ≡ some to)
      × (is_contact sender to w.db ≡ true)

  register-rings : (user : Uuid) (w : World E) → rings (register user tx w) ≡ rings w
  unfolding register
  register-rings user w = ground arith

  set_online-rings : (user : Uuid) (w : World E) → rings (set_online {E = E} user w).1 ≡ rings w
  unfolding set_online
  set_online-rings user w = ground arith

  update_last_seen-rings :
      (user : Uuid) (w : World E) → rings (update_last_seen {E = E} user w).1 ≡ rings w
  unfolding update_last_seen
  update_last_seen-rings user w = ground arith

  find_user_by_id-rings :
      (user : Uuid) (w : World E) → rings (find_user_by_id {E = E} user w).1 ≡ rings w
  unfolding find_user_by_id
  find_user_by_id-rings user w = ground arith

  user_is_active-rings :
      (user : Uuid) (w : World E) → rings (user_is_active {E = E} user w).1 ≡ rings w
  unfolding user_is_active
  user_is_active-rings user w = ground arith

  welcome-rings : (user : Uuid) (w : World E) → rings (welcome E c tx user w) ≡ rings w
  unfolding welcome
  welcome-rings user w =
      let w₁ : World E = register user tx w in
      let w₂ : World E = (set_online {E = E} user w₁).1 in
      let w₃ : World E = (update_last_seen {E = E} user w₂).1 in
      omega (
        arith,
        find_user_by_id-rings user w₃,
        update_last_seen-rings user w₂,
        set_online-rings user w₁,
        register-rings user w,
      )

  admit-rings :
      (user_id : Option Uuid) (user : Uuid) (active : ApiResult Bool) (w : World E)
      → rings (admit E c tx user user_id active w).1 ≡ rings w
  admit-rings user_id user (ok true) w = welcome-rings user w
  admit-rings user_id user (ok false) w = omega arith
  admit-rings user_id user (err e) w = omega arith

  identify-rings :
      (user_id user : Option Uuid) (w : World E)
      → rings (identify E c tx user_id user w).1 ≡ rings w
  identify-rings user_id none w = refl
  identify-rings user_id (some user) w =
      let (active, w') = user_is_active {E = E} user w in
      admit-rings user_id user active w' ∙ user_is_active-rings user w

  check_claims-rings :
      (user_id : Option Uuid) (claims : ApiResult Claims) (w : World E)
      → rings (check_claims E c tx user_id claims w).1 ≡ rings w
  check_claims-rings user_id (ok claims) w = identify-rings user_id (E.parse_uuid claims.sub) w
  check_claims-rings user_id (err e) w = omega arith

  authenticate-rings :
      (user_id : Option Uuid) (token : Option String) (w : World E)
      → rings (check_token E c tx user_id token w).1 ≡ rings w
  unfolding authenticate
  authenticate-rings user_id none w = omega arith
  authenticate-rings user_id (some token) w = check_claims-rings user_id _ w

  report-rings : (r : ApiResult (Unit {0})) (w : World E) → rings (report E c tx r w) ≡ rings w
  report-rings (ok _) w = refl
  report-rings (err e) w = omega arith

  signal-rings :
      (user_id : Option Uuid) (msg_type : String) (msg : E.Value) (w : World E)
      → rings w < rings (signal E c tx user_id msg_type msg w)
      → Rung user_id (addressee E (text_field E msg "to")) w
  unfolding signal
  signal-rings none msg_type msg w h = absurd (omega (arith, h))
  signal-rings (some user) msg_type msg w h =
      let (result, w') = dispatch_message E c user msg_type msg w in
      let more : rings w < rings w' = omega (arith, h, report-rings result w') in
      let permits = (dispatch-rings E c user msg msg_type w more).1 in
      (user, permits.0, refl, permits.1.0, permits.1.2)

  typed-rings :
      (user_id : Option Uuid) (msg : E.Value) (msg_type : Option String) (w : World E)
      → rings w < rings (typed E c tx user_id msg msg_type w).1
      → Rung user_id (addressee E (text_field E msg "to")) w
  unfolding authenticate
  typed-rings user_id msg none w h = absurd (omega (arith, h))
  typed-rings user_id msg (some msg_type) w h = elim (Bool-cases (msg_type == "auth")) [
    | inl same ↦
        absurd
          (omega (arith, rw same at h, authenticate-rings user_id (text_field E msg "token") w))
    | inr other ↦ signal-rings user_id msg_type msg w (rw other at h)
  ]

  parsed_frame-rings :
      (user_id : Option Uuid) (msg : Option E.Value) (w : World E)
      → rings w < rings (parsed_frame E c tx user_id msg w).1
      → Rung user_id (named_in E msg) w
  parsed_frame-rings user_id none w h = absurd (omega (arith, h))
  parsed_frame-rings user_id (some msg) w h = typed-rings user_id msg (text_field E msg "type") w h

  pub handle_frame-rings :
      (user_id : Option Uuid) (f : Frame) (w : World E)
      → rings w < rings (handle_frame E c tx user_id f w).1
      → Rung user_id (callee E f) w
  unfolding handle_frame
  handle_frame-rings user_id (text t) w h = parsed_frame-rings user_id (E.from_str t) w h
  handle_frame-rings user_id ping w h = absurd (omega (arith, h))
  handle_frame-rings user_id close w h = absurd (omega (arith, h))
  handle_frame-rings user_id binary w h = absurd (omega (arith, h))
  handle_frame-rings user_id pong w h = absurd (omega (arith, h))

  -- From a state without contact rows, whatever course the server takes: when a frame on a socket
  -- makes it hand out a `call-incoming`, the socket speaks for a user, that user and the one whom the
  -- frame names are contacts, and on the way one of the two accepted a pending request of the other,
  -- by a request whose bearer `require_auth` admitted.
  pub rung_by_acceptance :
      (s t : Server E) (user_id : Option Uuid) (f : Frame)
      → ◌⟶*◌ c s t
      → s.world.db.contacts ≡ []
      → rings t.world < rings (handle_frame E c tx user_id f t.world).1
      → (sender : Uuid) × (to : Uuid) × (u : Server E) × (v : Server E) × (user_id ≡ some sender)
        × (callee E f ≡ some to)
        × (is_contact sender to t.world.db ≡ true)
        × (◌⟶*◌ c s u)
        × Links sender to c u v
        × (◌⟶*◌ c v t)
  rung_by_acceptance s t user_id f way no_rows h =
      let (sender, to, speaks, named, linked) = handle_frame-rings user_id f t.world h in
      let none_yet : is_contact sender to s.world.db ≡ false = rw no_rows refl in
      let (u, v, before, links, on) = Links-reach sender to c s t way none_yet linked in
      (sender, to, u, v, speaks, named, linked, before, links, on)

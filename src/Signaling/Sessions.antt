-- ===== src/Signaling/Sessions.antt =====
-- signaling/server.rs, `handle_socket`: who a socket speaks for.
use flutter_21_client.Prelude.{
  String, Bool, true, false, Option, none, some, ◌∷◌, ◌≡◌, ◌⊎◌, ◌∙◌, ap, inl, inr, refl, arith,
  insert, uuid_eq, nat_eq, find, ◌==◌, text_eq, eq_iff, Option-cases, Bool-cases,
}
use flutter_21_client.Errors.{ok, err, ApiResult, Result-cases}
use flutter_21_client.Services.{Services, Uuid, Claims}
use flutter_21_client.World.{World, WsTx}
use flutter_21_client.World.Events.{Event, auth_error, error}
use flutter_21_client.Config.{Config}
use flutter_21_client.Jwt.{timestamp, verify_access, jwt_service}
use flutter_21_client.Database.{user_is_active, active_or_false}
use flutter_21_client.Signaling.{dispatch_message}
use flutter_21_client.Signaling.Connections.{connections-dispatch_message}
use flutter_21_client.Signaling.Socket.{
  Frame, text, ping, close, binary, pong, Flow, continues, breaks, handle_frame, authenticate,
  signal, welcome, admit, identify, check_token, check_claims, report, typed, parsed_frame,
}
use flutter_21_client.Signaling.Fields.{text_field}

-- The world apart from what was handed to sockets is untouched.
abbrev pub SameState : {E : Services} → World E → World E → Type 0
SameState v w =
    (v.store ≡ w.store)
    × (v.db ≡ w.db)
    × (v.connections ≡ w.connections)
    × (v.published ≡ w.published)

module _ (E : Services) (c : Config E) (tx : WsTx) where
  -- Nothing but replies to itself.
  abbrev pub Replies : World E → World E → Type 0
  Replies v w = SameState v w × ((v.sent ≡ w.sent) ⊎ ((e : Event) × (v.sent ≡ (tx, e) ∷ w.sent)))

  -- The user of an access token that verifies now, with an active row.
  abbrev pub AdmitsBy : String → Uuid → World E → Type 0
  AdmitsBy token user w =
      (claims : Claims) × (E.decode c.jwt_access_secret (timestamp w.now) token ≡ ok claims)
      × (E.parse_uuid claims.sub ≡ some user)
      × (active_or_false (find (λ u. nat_eq u.user_id user) w.db.users) ≡ true)

  abbrev pub IsAdmitted : Uuid → World E → Type 0
  IsAdmitted user w = (token : String) × AdmitsBy token user w

  -- What an "auth" message with the given token comes to.
  abbrev AuthResult : Option String → Option Uuid → World E → Flow × World E → Type 0
  AuthResult given user_id w (breaks u, v) = (u ≡ user_id) × Replies v w
  AuthResult given user_id w (continues none, v) = ⊥
  AuthResult given user_id w (continues (some user), v) =
      ((token : String) × (given ≡ some token) × AdmitsBy token user w)
      × (v.connections ≡ insert user tx w.connections)

  welcome-connections :
      (user : Uuid) (w : World E)
      → (welcome E c tx user w).connections ≡ insert user tx w.connections
  unfolding welcome
  welcome-connections user w = ground arith

  admit_lem :
      (user_id : Option Uuid) (user : Uuid) (token : String) (claims : Claims) (w v : World E)
      (active : ApiResult Bool)
      → E.decode c.jwt_access_secret (timestamp w.now) token ≡ ok claims
      → E.parse_uuid claims.sub ≡ some user
      → (active ≡ ok true → active_or_false (find (λ u. nat_eq u.user_id user) w.db.users) ≡ true)
      → SameState v w
      → v.sent ≡ w.sent
      → AuthResult (some token) user_id w (admit E c tx user user_id active v)
  admit_lem user_id user token claims w v (ok true) verified parsed is_active same sent = (
    (token, refl, (claims, verified, parsed, is_active refl)),
    welcome-connections user v ∙ ap (insert user tx) same.2,
  )
  admit_lem user_id user token claims w v (ok false) verified parsed is_active same sent = (
    refl,
    (same, inr (auth_error "User inactive", ap (◌∷◌ (tx, auth_error "User inactive")) sent)),
  )
  admit_lem user_id user token claims w v (err e) verified parsed is_active same sent = (
    refl,
    (same, inr (auth_error "User inactive", ap (◌∷◌ (tx, auth_error "User inactive")) sent)),
  )

  with_user :
      (user_id : Option Uuid) (user : Uuid) (token : String) (claims : Claims) (w : World E)
      → E.decode c.jwt_access_secret (timestamp w.now) token ≡ ok claims
      → E.parse_uuid claims.sub ≡ some user
      → AuthResult (some token) user_id w (identify E c tx user_id (some user) w)
  unfolding user_is_active
  with_user user_id user token claims w verified parsed =
      let w' : World E = (user_is_active {E = E} user w).1 in
      admit_lem user_id user token claims w w' (user_is_active {E = E} user w).0 verified parsed
        (λ h. ground arith) (ground arith, ground arith, ground arith, ground arith) (ground arith)

  with_token :
      (user_id : Option Uuid) (token : String) (w : World E)
      → AuthResult (some token) user_id w (check_token E c tx user_id (some token) w)
  unfolding verify_access jwt_service
  with_token user_id token w =
      elim (Result-cases (E.decode c.jwt_access_secret (timestamp w.now) token)) [
        | inl (claims, verified) ↦ elim (Option-cases (E.parse_uuid claims.sub)) [
          | inl bad ↦
              rw (verified, check_claims, report, typed, parsed_frame, bad)
                (refl, ((refl, refl, refl, refl), inl refl))
          | inr (user, parsed) ↦
              rw (verified, check_claims, report, typed, parsed_frame, parsed)
                (with_user user_id user token claims w verified parsed)
        ]
        | inr (e, refused) ↦ rw refused (refl, ((refl, refl, refl, refl), inr (_, refl)))
      ]

  authenticate-AuthResult :
      (user_id : Option Uuid) (parsed : E.Value) (w : World E)
      → AuthResult (text_field E parsed "token") user_id w (authenticate E c tx user_id parsed w)
  unfolding authenticate
  authenticate-AuthResult user_id parsed w = elim (Option-cases (text_field E parsed "token")) [
    | inl missing ↦ rw (missing, authenticate) (refl, ((refl, refl, refl, refl), inr (_, refl)))
    | inr (token, given) ↦ rw (given, authenticate) (with_token user_id token w)
  ]

  -- What a frame comes to, for a socket whose variable `user_id` is as given: without a user, the loop
  -- goes on with a user only by an admission; with one, the socket's user changes only so, too.
  abbrev pub FrameResult : Option Uuid → World E → Flow × World E → Type 0
  FrameResult user_id w (breaks u, v) = (u ≡ user_id) × (v.connections ≡ w.connections)
  FrameResult user_id w (continues u, v) =
      ((u ≡ user_id) × (v.connections ≡ w.connections))
      ⊎ ((user : Uuid) × (u ≡ some user)
          × IsAdmitted user w
          × (v.connections ≡ insert user tx w.connections))

  frame_of_auth :
      (given : Option String) (user_id : Option Uuid) (w : World E) (r : Flow × World E)
      → AuthResult given user_id w r
      → FrameResult user_id w r
  frame_of_auth given user_id w (breaks u, v) h = (h.0, h.1.0.2)
  frame_of_auth given user_id w (continues none, v) h = elim h [ ]
  frame_of_auth given user_id w (continues (some user), v) ((token, _, admitted), h) =
      inr (user, refl, (token, admitted), h)

  report_lem :
      (r : ApiResult (Unit {0})) (v : World E) → (report E c tx r v).connections ≡ v.connections
  report_lem (ok _) v = refl
  report_lem (err e) v = refl

  signal-connections :
      (user_id : Option Uuid) (msg_type : String) (parsed : E.Value) (w : World E)
      → (signal E c tx user_id msg_type parsed w).connections ≡ w.connections
  unfolding signal
  signal-connections none msg_type parsed w = refl
  signal-connections (some user) msg_type parsed w =
      report_lem (dispatch_message E c user msg_type parsed w).0
        (dispatch_message E c user msg_type parsed w).1
      ∙ connections-dispatch_message E c user parsed msg_type w

  typed_lem :
      (user_id : Option Uuid) (parsed : E.Value) (msg_type : Option String) (w : World E)
      → FrameResult user_id w (typed E c tx user_id parsed msg_type w)
  typed_lem user_id parsed none w = inl (refl, refl)
  typed_lem user_id parsed (some msg_type) w = elim (Bool-cases (msg_type == "auth")) [
    | inl auth ↦ rw auth (frame_of_auth _ user_id w _ (authenticate-AuthResult user_id parsed w))
    | inr other ↦ rw other (inl (refl, signal-connections user_id msg_type parsed w))
  ]

  parsed_lem :
      (user_id : Option Uuid) (parsed : Option E.Value) (w : World E)
      → FrameResult user_id w (parsed_frame E c tx user_id parsed w)
  parsed_lem user_id none w = inl (refl, refl)
  parsed_lem user_id (some parsed) w = typed_lem user_id parsed (text_field E parsed "type") w

  -- A frame leaves the user of its socket and the table of connections alone, except that an "auth"
  -- message may admit a user: its token verifies as an access token, names the user, and the user's
  -- row is active; the socket then speaks for that user and receives the user's messages.
  pub handle_frame-FrameResult :
      (user_id : Option Uuid) (f : Frame) (w : World E)
      → FrameResult user_id w (handle_frame E c tx user_id f w)
  unfolding handle_frame
  handle_frame-FrameResult user_id (text t) w = parsed_lem user_id (E.from_str t) w
  handle_frame-FrameResult user_id ping w = inl (refl, refl)
  handle_frame-FrameResult user_id close w = (refl, refl)
  handle_frame-FrameResult user_id binary w = inl (refl, refl)
  handle_frame-FrameResult user_id pong w = inl (refl, refl)

  -- The frame is an "auth" message whose token admits the user.
  abbrev pub IsAuthOf : Frame → Uuid → World E → Type 0
  IsAuthOf f user w =
      (t : String) × (parsed : E.Value) × (token : String) × (f ≡ text t)
      × (E.from_str t ≡ some parsed)
      × (text_field E parsed "type" ≡ some "auth")
      × (text_field E parsed "token" ≡ some token)
      × AdmitsBy token user w

  -- What a frame comes to before anybody has authenticated.
  abbrev pub GateResult : Frame → World E → Flow × World E → Type 0
  GateResult f w (breaks u, v) = (u ≡ none) × Replies v w
  GateResult f w (continues none, v) = Replies v w
  GateResult f w (continues (some user), v) =
      IsAuthOf f user w × (v.connections ≡ insert user tx w.connections)

  gate_of_auth :
      (t : String) (parsed : E.Value) (w : World E) (r : Flow × World E)
      → E.from_str t ≡ some parsed
      → text_field E parsed "type" ≡ some "auth"
      → AuthResult (text_field E parsed "token") none w r
      → GateResult (text t) w r
  gate_of_auth t parsed w (breaks u, v) reads is_auth h = h
  gate_of_auth t parsed w (continues none, v) reads is_auth h = elim h [ ]
  gate_of_auth t parsed w (continues (some user), v) reads is_auth ((token, given, admitted), h) =
      ((t, parsed, token, refl, reads, is_auth, given, admitted), h)

  quiet : (w : World E) → Replies w w
  quiet w = ((refl, refl, refl, refl), inl refl)

  typed_gate :
      (t : String) (parsed : E.Value) (msg_type : Option String) (w : World E)
      → E.from_str t ≡ some parsed
      → text_field E parsed "type" ≡ msg_type
      → GateResult (text t) w (typed E c tx none parsed msg_type w)
  unfolding signal
  typed_gate t parsed none w reads is_type = quiet w
  typed_gate t parsed (some msg_type) w reads is_type = elim (Bool-cases (msg_type == "auth")) [
    | inl auth ↦
        let is_auth = is_type ∙ ap some ((eq_iff msg_type "auth").0 auth) in
        rw auth (
          gate_of_auth t parsed w (authenticate E c tx none parsed w) reads is_auth
            (authenticate-AuthResult none parsed w))
    | inr other ↦ rw other ((refl, refl, refl, refl), inr (error "Not authenticated", refl))
  ]

  parsed_gate :
      (t : String) (parsed : Option E.Value) (w : World E)
      → E.from_str t ≡ parsed
      → GateResult (text t) w (parsed_frame E c tx none parsed w)
  parsed_gate t none w reads = ((refl, refl, refl, refl), inr (error "Invalid JSON", refl))
  parsed_gate t (some parsed) w reads =
      typed_gate t parsed (text_field E parsed "type") w reads refl

  -- On a socket that nobody has authenticated, every frame either is an "auth" message and admits the
  -- user of its token, which verifies as an access token, whose row is active and who is then reached
  -- by this socket, or leaves the tables, the keyspace, the connections and the published messages as they were, and hands out
  -- at most one reply, to this socket.
  pub handle_frame-GateResult :
      (f : Frame) (w : World E) → GateResult f w (handle_frame E c tx none f w)
  unfolding handle_frame
  handle_frame-GateResult (text t) w = parsed_gate t (E.from_str t) w refl
  handle_frame-GateResult ping w = quiet w
  handle_frame-GateResult close w = (refl, quiet w)
  handle_frame-GateResult binary w = quiet w
  handle_frame-GateResult pong w = quiet w

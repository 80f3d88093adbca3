-- ===== src/Api/Gate.antt =====
-- main.rs and auth/middleware.rs: what a request without a valid access token comes to.
use flutter_21_client.Prelude.{
  String, Bool, true, false, some, ◌≡◌, ◌≢◌, refl, arith, inl, inr, Option-cases,
}
use flutter_21_client.Errors.{ok, err, AppError, into_response, Result-cases}
use flutter_21_client.Services.{Services, Claims, DecodeError, expired_signature, other_error}
use flutter_21_client.World.{World}
use flutter_21_client.Config.{Config}
use flutter_21_client.Jwt.{timestamp, decode_error}
use flutter_21_client.Auth.{AuthUser}
use flutter_21_client.Middleware.{Headers, extract_bearer, require_auth}
use flutter_21_client.Api.{
  Endpoint, registers, logs_in, refreshes, logs_out, asks_me, searches, by_handle, asks_user,
  creates_room, asks_room, lists, lists_pending, lists_sent, sends, accepts, declines, removes,
  blocks, invites, redeems, asks_ice, asks_health, asks_metrics, upgrades, Reply, handled, Served,
  with_user, serve,
}

-- The routes for everybody: accounts, the probes and the upgrade to a WebSocket.
abbrev pub is_public : Endpoint → Bool
is_public (registers _) = true
is_public (logs_in _) = true
is_public (refreshes _) = true
is_public asks_health = true
is_public asks_metrics = true
is_public upgrades = true
is_public _ = false

decode_error-401 : (e : DecodeError) → (into_response (decode_error e)).status ≡ 401
unfolding decode_error into_response
decode_error-401 expired_signature = refl
decode_error-401 (other_error e) = refl

module _ {E : Services} (c : Config E) (headers : Headers) (w : World E) where
  -- The Authorization header has no Bearer token that verifies now as an access token.
  abbrev pub HasNoToken : Type 0
  HasNoToken =
      (token : String) (claims : Claims)
      → extract_bearer headers ≡ some token
      → E.decode c.jwt_access_secret (timestamp w.now) token ≢ ok claims

  -- Refused as unauthorized, with the state as it was.
  abbrev pub IsRefused : Reply × World E → Type 0
  IsRefused r = (e : AppError) × (r ≡ (handled (err e), w)) × ((into_response e).status ≡ 401)

  require_auth-refuses :
      HasNoToken
      → (e : AppError) × (require_auth c (extract_bearer headers) w ≡ (err e, w))
        × ((into_response e).status ≡ 401)
  unfolding require_auth into_response
  require_auth-refuses h = elim (Option-cases (extract_bearer headers)) [
    | inl missing ↦ rw (missing, require_auth) (_, refl, refl)
    | inr (token, found) ↦
        elim (Result-cases (E.decode c.jwt_access_secret (timestamp w.now) token)) [
          | inl (claims, verified) ↦ absurd (h token claims found verified)
          | inr (e, refused) ↦ (decode_error e, ground arith, decode_error-401 e)
        ]
  ]

  with_user-IsRefused :
      HasNoToken → (handler : AuthUser → Served E) → IsRefused (with_user c headers handler w)
  with_user-IsRefused h handler =
      let (e, same, code) = require_auth-refuses h in (e, rw same refl, code)

  -- A request without a valid access token, to any route but those for everybody, is refused with the
  -- status 401, and changes nothing.
  pub serve-IsRefused :
      (e : Endpoint) → HasNoToken → is_public e ≡ false → IsRefused (serve c headers e w)
  unfolding serve
  serve-IsRefused (registers b) t closed = cc
  serve-IsRefused (logs_in b) t closed = cc
  serve-IsRefused (refreshes b) t closed = cc
  serve-IsRefused asks_health t closed = cc
  serve-IsRefused asks_metrics t closed = cc
  serve-IsRefused upgrades t closed = cc
  serve-IsRefused (logs_out b) t closed = with_user-IsRefused t _
  serve-IsRefused asks_me t closed = with_user-IsRefused t _
  serve-IsRefused (searches q) t closed = with_user-IsRefused t _
  serve-IsRefused (by_handle h) t closed = with_user-IsRefused t _
  serve-IsRefused (asks_user id) t closed = with_user-IsRefused t _
  serve-IsRefused creates_room t closed = with_user-IsRefused t _
  serve-IsRefused (asks_room id) t closed = with_user-IsRefused t _
  serve-IsRefused lists t closed = with_user-IsRefused t _
  serve-IsRefused lists_pending t closed = with_user-IsRefused t _
  serve-IsRefused lists_sent t closed = with_user-IsRefused t _
  serve-IsRefused (sends u) t closed = with_user-IsRefused t _
  serve-IsRefused (accepts u) t closed = with_user-IsRefused t _
  serve-IsRefused (declines u) t closed = with_user-IsRefused t _
  serve-IsRefused (removes u) t closed = with_user-IsRefused t _
  serve-IsRefused (blocks u) t closed = with_user-IsRefused t _
  serve-IsRefused invites t closed = with_user-IsRefused t _
  serve-IsRefused (redeems b) t closed = with_user-IsRefused t _
  serve-IsRefused asks_ice t closed = with_user-IsRefused t _

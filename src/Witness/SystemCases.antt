-- ===== src/Witness/SystemCases.antt =====
-- The server at work: requests with the token of a user, and frames.
use flutter_21_client.Prelude.{
  String, true, false, ◌≡◌, ◌<◌, refl, none, some, [], ◌∷◌, arith, uuid_eq, subst, ◌==◌, text_eq,
  if◌then◌else◌,
}
use flutter_21_client.Services.{Uuid}
use flutter_21_client.World.Tables.{accepted}
use flutter_21_client.World.Events.{contact_request, contact_accepted}
use flutter_21_client.Middleware.{Headers, extract_bearer, require_auth}
use flutter_21_client.Api.{accepts, sends, serve}
use flutter_21_client.Contacts.Statements.{is_contact, new_contact}
use flutter_21_client.Signaling.Socket.{Frame, text, handle_frame}
use flutter_21_client.Signaling.CallGate.{rings}
use flutter_21_client.System.Steps.{Server, served, ◌⟶*◌, here, after, requests}
use flutter_21_client.System.Valid.{IsValid, IsValid-reach}
use flutter_21_client.System.History.{Links, Links-reach}
use flutter_21_client.System.Ringing.{callee, rung_by_acceptance}
use flutter_21_client.Witness.Setting.{small, settings, start, tables}

-- The server with the socket of user 2, whose channel is 7, and that of user 1, whose channel is 8.
abbrev boot : Server small
boot = record { world = start; sockets = (7, some 2) ∷ (8, some 1) ∷ []; opened = 9 }

abbrev bearer : String → Headers
bearer token name = if name == "authorization" then some token else none

-- User 3 accepts the request of user 1.
abbrev accepted_by_cleo : Server small
accepted_by_cleo = served settings (bearer "Bearer 3x") (accepts (some 1)) boot

cleo_accepts : ◌⟶*◌ settings boot accepted_by_cleo
cleo_accepts = after here (requests (bearer "Bearer 3x") (accepts (some 1)))

boot-IsValid : IsValid boot
boot-IsValid = ground arith

IsValid-reach_example : IsValid accepted_by_cleo
IsValid-reach_example = IsValid-reach settings boot accepted_by_cleo cleo_accepts boot-IsValid

ann_knows_cleo : is_contact 1 3 accepted_by_cleo.world.db ≡ true
unfolding served serve require_auth extract_bearer flutter_21_client.Contacts.accept_request
    flutter_21_client.Contacts.Statements.accept_pending
ann_knows_cleo = refl

Links-reach_example :
    (u : Server small) × (v : Server small) × (◌⟶*◌ settings boot u)
    × Links 1 3 settings u v
    × (◌⟶*◌ settings v accepted_by_cleo)
Links-reach_example =
    Links-reach 1 3 settings boot accepted_by_cleo cleo_accepts refl ann_knows_cleo

-- The same server before anybody asked anybody.
abbrev pub strangers : Server small
strangers = record boot { world = record start { db = record tables { contacts = [] } } }

abbrev asked : Server small
asked = served settings (bearer "Bearer 1x") (sends (some 2)) strangers

abbrev acquainted : Server small
acquainted = served settings (bearer "Bearer 2x") (accepts (some 1)) asked

acquaintance : ◌⟶*◌ settings strangers acquainted
acquaintance =
    after (after here (requests (bearer "Bearer 1x") (sends (some 2))))
      (requests (bearer "Bearer 2x") (accepts (some 1)))

-- The same state, written out.
abbrev pub met : Server small
met = record strangers {
  world = record strangers.world {
    db = record strangers.world.db { contacts = new_contact 1 1 2 accepted 0 ∷ [] };
    published = record { addressee = 1; payload = contact_accepted 2 "bob" } ∷ [];
    sent = (7, contact_request 1 "ann" false) ∷ [];
    drawn = 2;
  };
}

acquainted_is_met : acquainted ≡ met
unfolding served serve require_auth extract_bearer flutter_21_client.Contacts.send_request
    flutter_21_client.Contacts.Statements.upsert_request flutter_21_client.Contacts.accept_request
    flutter_21_client.Contacts.Statements.accept_pending
acquainted_is_met = refl

way_to_met : ◌⟶*◌ settings strangers met
way_to_met = subst (◌⟶*◌ settings strangers) acquainted_is_met acquaintance

one_more_ring : rings (handle_frame small settings 8 (some 1) (text "call") met.world).1 ≡ 1
unfolding handle_frame flutter_21_client.Signaling.Socket.signal
    flutter_21_client.Signaling.dispatch_message flutter_21_client.Signaling.Calls.call
    flutter_21_client.Contacts.can_call flutter_21_client.Signaling.Calls.ring_if_connected
    flutter_21_client.Hub.is_connected flutter_21_client.Signaling.Calls.ring_unless_busy
    flutter_21_client.RedisStore.is_busy flutter_21_client.Signaling.Calls.ring
    flutter_21_client.RedisStore.set_busy flutter_21_client.Crypto.encrypt
    flutter_21_client.Database.find_user_by_id flutter_21_client.Hub.send_to
one_more_ring = refl

pub rings_now :
    rings met.world < rings (handle_frame small settings 8 (some 1) (text "call") met.world).1
rings_now = rw one_more_ring (omega arith)

rung_by_acceptance_example :
    (sender : Uuid) × (to : Uuid) × (u : Server small) × (v : Server small) × (some 1 ≡ some sender)
    × (callee small (text "call") ≡ some to)
    × (is_contact sender to met.world.db ≡ true)
    × (◌⟶*◌ settings strangers u)
    × Links sender to settings u v
    × (◌⟶*◌ settings v met)
rung_by_acceptance_example =
    rung_by_acceptance settings 8 strangers met (some 1) (text "call") way_to_met refl rings_now

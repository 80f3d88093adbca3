-- ===== src/Signaling/Delivers.antt =====
-- signaling/server.rs, `call`: a permitted call reaches the callee.
use flutter_21_client.Prelude.{
  String, true, none, some, [], ◌∷◌, ◌≡◌, ◌≢◌, arith, lookup, uuid_eq, find,
}
use flutter_21_client.Errors.{ok}
use flutter_21_client.Services.{Services, Uuid, busy}
use flutter_21_client.World.{World, WsTx}
use flutter_21_client.World.Events.{call_incoming}
use flutter_21_client.Config.{Config}
use flutter_21_client.Auth.{display_name_of}
use flutter_21_client.Contacts.{can_call}
use flutter_21_client.Contacts.Statements.{is_contact}
use flutter_21_client.Crypto.{seal, encrypt, decrypt, returns}
use flutter_21_client.Crypto.RoundTrip.{decrypt-encrypt}
use flutter_21_client.Database.{is_active_user, find_user_by_id}
use flutter_21_client.Hub.{is_connected, send_to}
use flutter_21_client.RedisStore.{is_busy, set_busy}
use flutter_21_client.Signaling.{dispatch_message}
use flutter_21_client.Signaling.Fields.{text_field}
use flutter_21_client.Signaling.Calls.{call_id_of, ring, ring_unless_busy, ring_if_connected, call}

module _ (E : Services) (c : Config E) (sender to : Uuid) (tx : WsTx) where
  ring-delivers :
      (offer : E.Value) (sealed : String) (w : World E)
      → w.db_outcomes ≡ []
      → w.redis_outcomes ≡ []
      → lookup to w.connections ≡ some tx
      → seal E c.signaling_secret w.drawn (E.value_text offer) ≡ ok sealed
      → ((ring E c sender to offer w).0 ≡ ok tt)
        × ((ring E c sender to offer w).1.sent
            ≡ (
              tx,
              call_incoming sender
                  (display_name_of (find (is_active_user sender) w.db.users))
                  sealed
                  (call_id_of E sender to w),
            )
              ∷ w.sent)
  unfolding ring set_busy encrypt find_user_by_id send_to
  ring-delivers offer sealed w up up' here s = (ground arith, ground arith)

  -- When the database and Redis answer and the offer is encrypted: a "call" to another user who is an
  -- accepted contact, is connected to this instance and has no busy mark is answered without an
  -- error, and the callee's socket is handed a `call-incoming` with the caller, the caller's name and
  -- the id of the call; its payload decrypts under the signalling secret to the text of the offer.
  pub call-delivers :
      (msg offer : E.Value) (target sealed : String) (w : World E)
      → text_field E msg "to" ≡ some target
      → E.parse_uuid target ≡ some to
      → E.get msg "offer" ≡ some offer
      → to ≢ sender
      → is_contact sender to w.db ≡ true
      → w.db_outcomes ≡ []
      → w.redis_outcomes ≡ []
      → lookup to w.connections ≡ some tx
      → E.value (busy to) w.store ≡ none
      → seal E c.signaling_secret w.drawn (E.value_text offer) ≡ ok sealed
      → ((dispatch_message E c sender "call" msg w).0 ≡ ok tt)
        × ((dispatch_message E c sender "call" msg w).1.sent
            ≡ (
              tx,
              call_incoming sender
                  (display_name_of (find (is_active_user sender) w.db.users))
                  sealed
                  (call_id_of E sender to w),
            )
              ∷ w.sent)
        × (decrypt E c.signaling_secret sealed ≡ returns (ok (E.value_text offer)))
  unfolding dispatch_message call can_call ring_if_connected is_connected ring_unless_busy is_busy
      encrypt call_id_of
  call-delivers msg offer target sealed w named parsed given other linked up up' here free s =
      let w₁ : World E = (can_call {E = E} sender to w).1 in
      let w₂ : World E = (is_busy {E = E} to w₁).1 in
      let reached = ring-delivers offer sealed w₂ in
      (
        ground (arith, reached),
        ground (arith, reached),
        decrypt-encrypt c.signaling_secret (E.value_text offer) sealed w s,
      )

-- ===== src/Signaling/Calls.antt =====
-- signaling/server.rs, `dispatch_message`: calls from user to user.
use Prim.Native.String.{◌++◌}
use flutter_21_client.Prelude.{String, nat_eq, if◌then◌else◌}
use flutter_21_client.Errors.{bad_request}
use flutter_21_client.Services.{Services, Uuid}
use flutter_21_client.World.{World, M, read, ◌>>=◌, ◌>>◌}
use flutter_21_client.World.Events.{
  call_rejected, user_offline, user_busy, call_incoming, call_answered, ice, call_declined, hangup,
}
use flutter_21_client.Config.{Config}
use flutter_21_client.Auth.{display_name_of, reject_if}
use flutter_21_client.Contacts.{can_call}
use flutter_21_client.Crypto.{encrypt}
use flutter_21_client.Database.{find_user_by_id}
use flutter_21_client.Hub.{send_to, is_connected}
use flutter_21_client.RedisStore.{is_busy, set_busy, clear_busy}
use flutter_21_client.Signaling.Fields.{text_field, parse_uuid, require_field, text_or}

module _ (E : Services) where
  -- `format!("{}-{}-{}", from, to, now.timestamp_millis())`
  unfoldable pub call_id_of : Uuid → Uuid → World E → String
  call_id_of sender to w =
      E.show_uuid sender ++ ("-" ++ (E.show_uuid to ++ ("-" ++ E.show_number w.now)))

  -- `call`, from the marks on both users.
  unfoldable pub ring : Config E → Uuid → Uuid → E.Value → M E (Unit {0})
  unfolding call_id_of
  ring c sender to offer = do
    call_id ← read (call_id_of sender to)
    set_busy {E = E} sender call_id
    set_busy {E = E} to call_id
    encrypted_offer ← encrypt c.signaling_secret (E.value_text offer)
    caller ← find_user_by_id sender
    send_to to (call_incoming sender (display_name_of caller) encrypted_offer call_id)

  -- `call`, from the query of the callee's mark.
  unfoldable pub ring_unless_busy : Config E → Uuid → Uuid → E.Value → M E (Unit {0})
  ring_unless_busy c sender to offer = do
    busy ← is_busy to
    if busy then send_to sender (user_busy to) else ring c sender to offer

  unfoldable pub ring_if_connected : Config E → Uuid → Uuid → E.Value → M E (Unit {0})
  ring_if_connected c sender to offer = do
    connected ← read (is_connected to)
    if connected then ring_unless_busy c sender to offer else send_to sender (user_offline to)

  unfoldable pub call : Config E → Uuid → E.Value → M E (Unit {0})
  unfolding parse_uuid require_field
  call c sender msg = do
    to ← parse_uuid E msg "to"
    offer ← require_field E msg "offer"
    reject_if (nat_eq to sender) (bad_request "Cannot call yourself")
    permitted ← can_call sender to
    if permitted
        then ring_if_connected c sender to offer
        else send_to sender (call_rejected "not_contacts" to)

  unfoldable pub answer : Config E → E.Value → M E (Unit {0})
  unfolding parse_uuid require_field
  answer c msg = do
    to ← parse_uuid E msg "to"
    reply ← require_field E msg "answer"
    encrypted_answer ← encrypt c.signaling_secret (E.value_text reply)
    send_to to (call_answered encrypted_answer)

  unfoldable pub ice_candidate : Config E → Uuid → E.Value → M E (Unit {0})
  unfolding parse_uuid require_field
  ice_candidate c sender msg = do
    to ← parse_uuid E msg "to"
    candidate ← require_field E msg "candidate"
    encrypted ← encrypt c.signaling_secret (E.value_text candidate)
    send_to to (ice encrypted sender)

  unfoldable pub decline : Uuid → E.Value → M E (Unit {0})
  unfolding parse_uuid
  decline sender msg = do
    to ← parse_uuid E msg "to"
    send_to to (call_declined (text_or (text_field E msg "reason") "declined"))
    clear_busy {E = E} sender
    clear_busy {E = E} to

  unfoldable pub hang_up : Uuid → E.Value → M E (Unit {0})
  unfolding parse_uuid
  hang_up sender msg = do
    to ← parse_uuid E msg "to"
    send_to to hangup
    clear_busy {E = E} sender
    clear_busy {E = E} to

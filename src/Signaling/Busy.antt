-- ===== src/Signaling/Busy.antt =====
-- signaling/server.rs, `decline` and `hangup`: the busy marks.
use flutter_21_client.Prelude.{none, some, ◌≡◌, arith, if◌then◌else◌}
use flutter_21_client.Errors.{ok}
use flutter_21_client.Services.{Services, Uuid, Key, busy, key_eq}
use flutter_21_client.World.{World}
use flutter_21_client.Hub.{send_to}
use flutter_21_client.RedisStore.{clear_busy}
use flutter_21_client.Signaling.Calls.{decline, hang_up}
use flutter_21_client.Signaling.Fields.{text_field}
use flutter_21_client.Signaling.CallGate.{addressee}

module _ (E : Services) (sender to : Uuid) (msg : E.Value) where
  abbrev cleared : E.Store → E.Store
  cleared s = E.del (busy to) (E.del (busy sender) s)

  value-cleared :
      (k : Key) (s : E.Store)
      → E.value k (cleared s) ≡ (
          if key_eq (busy to) k then none else if key_eq (busy sender) k then none else E.value k s)
  value-cleared k s =
      ground (arith, E.value-del k (busy to) (E.del (busy sender) s), E.value-del k (busy sender) s)

  hang_up-store :
      (w : World E)
      → addressee E (text_field E msg "to") ≡ some to
      → (hang_up E sender msg w).0 ≡ ok tt
      → (hang_up E sender msg w).1.store ≡ cleared w.store
  unfolding hang_up send_to clear_busy
  hang_up-store w p h = ground arith

  decline-store :
      (w : World E)
      → addressee E (text_field E msg "to") ≡ some to
      → (decline E sender msg w).0 ≡ ok tt
      → (decline E sender msg w).1.store ≡ cleared w.store
  unfolding decline send_to clear_busy
  decline-store w p h = ground arith

  -- After a "hangup" that succeeds, neither its sender nor the user whom it names has a busy mark, and
  -- every other key is as it was. Nothing asks that the two were in a call.
  pub hang_up-clears :
      (w : World E) (k : Key)
      → addressee E (text_field E msg "to") ≡ some to
      → (hang_up E sender msg w).0 ≡ ok tt
      → E.value k (hang_up E sender msg w).1.store ≡ (
          if key_eq (busy to) k
          then none
          else if key_eq (busy sender) k
          then none
          else E.value k w.store)
  hang_up-clears w k p h = rw (hang_up-store w p h) (value-cleared k w.store)

  -- A "decline" that succeeds does the same to the marks as a "hangup".
  pub decline-clears :
      (w : World E) (k : Key)
      → addressee E (text_field E msg "to") ≡ some to
      → (decline E sender msg w).0 ≡ ok tt
      → E.value k (decline E sender msg w).1.store ≡ (
          if key_eq (busy to) k
          then none
          else if key_eq (busy sender) k
          then none
          else E.value k w.store)
  decline-clears w k p h = rw (decline-store w p h) (value-cleared k w.store)

-- ===== src/Signaling/Fields.antt =====
-- signaling/server.rs: reading the fields of a message.
use Prim.Native.String.{◌++◌}
use flutter_21_client.Prelude.{String, Option, none, some}
use flutter_21_client.Errors.{bad_request}
use flutter_21_client.Services.{Services, Uuid}
use flutter_21_client.World.{M, or_fail, ◌>>=◌}

-- `unwrap_or`
abbrev pub text_or : Option String → String → String
text_or none default = default
text_or (some s) default = s

module _ (E : Services) where
  -- `msg.get(field).and_then(Value::as_str)`
  abbrev pub text_of : Option E.Value → Option String
  text_of none = none
  text_of (some v) = E.as_str v

  abbrev pub text_field : E.Value → String → Option String
  text_field msg field = text_of (E.get msg field)

  unfoldable pub parse_uuid : E.Value → String → M E Uuid
  parse_uuid msg field = do
    text ← or_fail {E = E} (text_field msg field) (bad_request ("Missing field: " ++ field))
    or_fail (E.parse_uuid text) (bad_request ("Invalid UUID in field: " ++ field))

  unfoldable pub require_field : E.Value → String → M E E.Value
  require_field msg field = or_fail (E.get msg field) (bad_request ("Missing field: " ++ field))

-- ===== src/Witness/Documents.antt =====
-- JSON documents for the witnesses: texts, and objects whose members are texts.
use flutter_21_client.Prelude.{
  String, Option, none, some, List, [], ◌∷◌, lookup, text_eq, ◌==◌, if◌then◌else◌,
}

-- A text, or an object with texts.
pub data Json : Type 0 where
  text : String → Json
  object : List (String × String) → Json

abbrev pub field : Option String → Option Json
field none = none
field (some s) = some (text s)

abbrev pub member : Json → String → Option Json
member (text s) k = none
member (object fs) k = field (lookup k fs)

abbrev pub text_in : Json → Option String
text_in (text s) = some s
text_in (object fs) = none

abbrev pub written : Json → String
written (text s) = s
written (object fs) = "{}"

abbrev pub auth_message : String → Json
auth_message t = object (("type", "auth") ∷ ("token", t) ∷ [])

abbrev pub call_message : Json
call_message = object (("type", "call") ∷ ("to", "2") ∷ ("offer", "sdp") ∷ [])

-- The text of a frame is read as a call of user 2 or as the token of an "auth" message.
abbrev pub read_message : String → Option Json
read_message t = some (if t == "call" then call_message else auth_message t)

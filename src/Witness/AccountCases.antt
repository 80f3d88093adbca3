-- ===== src/Witness/AccountCases.antt =====
-- Accounts: a registration and a login.
use flutter_21_client.Prelude.{true, ◌&&◌, ◌||◌, ◌≡◌, refl, none, some, find, ◌==◌, text_eq}
use flutter_21_client.Errors.{ok}
use flutter_21_client.World.{World}
use flutter_21_client.World.Tables.{User, public_user}
use flutter_21_client.Auth.{
  RegisterRequest, LoginRequest, AuthResponse, validate_registration, register, login,
}
use flutter_21_client.Auth.Registration.{HasRegistered, register-ok, login-ok}
use flutter_21_client.Crypto.{verify_password}
use flutter_21_client.Witness.Setting.{small, settings, start}

abbrev pub dan : RegisterRequest
dan = record {
  username = "dan";
  email = "dan@there";
  display_name = "Dan";
  password = "long password";
}

abbrev pub later : World small
later = record start { drawn = 8 }

abbrev pub dan_answer : AuthResponse
dan_answer = record {
  user = record {
    user_id = 9;
    username = "dan";
    display_name = "Dan";
    avatar_url = none;
    last_seen = 0;
  };
  tokens = record { access_token = "33"; refresh_token = "33" };
}

pub registered : (register settings dan later).0 ≡ ok dan_answer
unfolding register flutter_21_client.Auth.issue_tokens
registered = refl

register-ok_example :
    (validate_registration small.regex_is_match dan ≡ ok tt)
    × HasRegistered small dan dan_answer later.db (register settings dan later).1.db
register-ok_example = register-ok settings dan dan_answer later registered

abbrev ann_login : LoginRequest
ann_login = record { identifier = "ann"; password = "password" }

abbrev ann_answer : AuthResponse
ann_answer = record {
  user = record {
    user_id = 1;
    username = "ann";
    display_name = "ann";
    avatar_url = none;
    last_seen = 0;
  };
  tokens = record { access_token = "11"; refresh_token = "12" };
}

logged_in : (login settings ann_login start).0 ≡ ok ann_answer
unfolding login flutter_21_client.Auth.issue_tokens
logged_in = refl

login-ok_example :
    (u : User) × (find
        (λ (v : User). (v.email == "ann" || v.username == "ann") && v.is_active)
        start.db.users
      ≡ some u)
    × (verify_password small "password" u.password_hash ≡ ok true)
    × (ann_answer.user ≡ public_user u)
login-ok_example = login-ok settings ann_login ann_answer start logged_in

-- ===== src/Witness/TaskCases.antt =====
-- Account requests whose steps fall between each other's.
use flutter_21_client.Prelude.{◌≡◌, ◌≢◌, refl, none, some, [], ap, arith, ◌∙◌, lookup, uuid_eq, inr}
use flutter_21_client.Errors.{ok}
use flutter_21_client.World.{World}
use flutter_21_client.Auth.{
  RegisterRequest, LogoutRequest, Tokens, register, rotate, refresh, logout,
}
use flutter_21_client.Auth.Logout.{logout-ends}
use flutter_21_client.Tasks.{run, finished}
use flutter_21_client.Tasks.Requests.{registers, refreshes, begin, signed_in, renewed}
use flutter_21_client.Tasks.Alone.Requests.{run-begin}
use flutter_21_client.Tasks.Pool.{Pool, arrived, arrives, ◌⟶*◌, here, after}
use flutter_21_client.Tasks.Valid.{IsValid-pool}
use flutter_21_client.System.Valid.{IsValid}
use flutter_21_client.Tasks.Progress.{Reaches, run-Reaches, path_trans}
use flutter_21_client.Tasks.Taken.{username_column}
use flutter_21_client.Tasks.Names.{names_once}
use flutter_21_client.Tasks.Refreshes.{refresh_race}
use flutter_21_client.Witness.Setting.{small, settings, ann}
use flutter_21_client.Witness.AccountCases.{dan, dan_answer, later}
use flutter_21_client.Witness.AuthCases.{old_claims, held, new_tokens}

-- No request is in progress.
abbrev pub idle : World small → Pool small
idle w = record { server = record { world = w; sockets = []; opened = 9 }; tasks = []; begun = 0 }

-- Another request for the name of `dan`.
abbrev second_dan : RegisterRequest
second_dan = record dan { email = "dan@elsewhere" }

abbrev one_in : Pool small
one_in = arrived settings (registers dan) (idle later)

abbrev both_in : Pool small
both_in = arrived settings (registers second_dan) one_in

first_there : lookup 0 both_in.tasks ≡ some (begin settings (registers dan))
unfolding arrived
first_there = refl

first_answered : (run (begin settings (registers dan)) later).0 ≡ ok (signed_in dan_answer)
unfolding register flutter_21_client.Auth.issue_tokens
first_answered = ap (λ r. r.0) (run-begin small settings (registers dan) later) ∙ refl

-- The first request runs to its end, and then the second one.
ran_first :
    Reaches settings 0
      (
        finished (run (begin settings (registers dan)) later).0,
        (run (begin settings (registers dan)) later).1,
      )
      both_in
unfolding arrived
ran_first = run-Reaches settings 0 (begin settings (registers dan)) both_in first_there

abbrev after_first : Pool small
after_first = ran_first.0

second_there : lookup 1 after_first.tasks ≡ some (begin settings (registers second_dan))
unfolding arrived
second_there = ran_first.2.2 1 refl

later-IsValid : IsValid (idle later).server
later-IsValid = ground arith

IsValid-pool_example : IsValid after_first.server
IsValid-pool_example =
    IsValid-pool settings (idle later) after_first
      (path_trans settings (idle later) both_in after_first
        (after (after here (arrives (registers dan))) (arrives (registers second_dan))) ran_first.1)
      refl later-IsValid

ran_second :
    Reaches settings 1
      (
        finished (run (begin settings (registers second_dan)) after_first.server.world).0,
        (run (begin settings (registers second_dan)) after_first.server.world).1,
      )
      after_first
ran_second = run-Reaches settings 1 (begin settings (registers second_dan)) after_first second_there

names_once_example : lookup 1 ran_second.0.tasks ≢ some (finished (ok (signed_in dan_answer)))
unfolding arrived
names_once_example =
    let (_, to_q, (_, answered, _)) = ran_first in
    let (_, to_r, (_, _, others)) = ran_second in
    names_once settings username_column (idle later) (idle later) one_in ran_second.0 dan second_dan
      (signed_in dan_answer) (signed_in dan_answer) refl here here
      (path_trans settings both_in ran_first.0 ran_second.0 to_q to_r) refl
      (others 0 refl ∙ (answered ∙ ap (λ r. some (finished r)) first_answered))

abbrev more_tokens : Tokens
more_tokens = record { access_token = "13"; refresh_token = "13" }

first_rotation : (rotate {E = small} settings 1 "1" held).0 ≡ ok new_tokens
unfolding rotate flutter_21_client.Auth.issue_tokens
first_rotation = refl

second_rotation :
    (rotate {E = small} settings 1 "1" (rotate {E = small} settings 1 "1" held).1).0
    ≡ ok more_tokens
unfolding rotate flutter_21_client.Auth.issue_tokens
second_rotation = refl

refresh_race_example :
    (q : Pool small) × ◌⟶*◌ settings
      (arrived settings (refreshes "11") (arrived settings (refreshes "11") (idle held)))
      q
    × (lookup 0 q.tasks ≡ some (finished (ok (renewed new_tokens))))
    × (lookup 1 q.tasks ≡ some (finished (ok (renewed more_tokens))))
refresh_race_example =
    refresh_race settings "11" (idle held) old_claims 1 new_tokens more_tokens refl refl (λ e. cc)
      refl first_rotation second_rotation

abbrev this_session : LogoutRequest
this_session = record { refresh_token = some "11"; logout_all = none }

abbrev logged_out : World small
logged_out = (logout settings ann this_session held).1

logout-ends_example :
    (refresh {E = small} settings "11"
      (record logged_out { store = small.advance 5 logged_out.store })).0
    ≢ ok new_tokens
unfolding logout
logout-ends_example =
    logout-ends settings ann this_session "11" old_claims held
      (record logged_out { store = small.advance 5 logged_out.store }) 5 new_tokens
      (inr (refl, refl)) refl refl refl refl

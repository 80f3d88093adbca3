-- ===== src/Witness/MeetingCases.antt =====
-- Users who become contacts by requests in steps, and a call between them.
use flutter_21_client.Prelude.{◌<◌, subst, sym, true, ◌≡◌, refl, some, [], ap, ◌∙◌, lookup, uuid_eq}
use flutter_21_client.Services.{Uuid}
use flutter_21_client.Signaling.CallGate.{rings}
use flutter_21_client.Signaling.Socket.{text, handle_frame}
use flutter_21_client.System.Ringing.{callee}
use flutter_21_client.Tasks.Ringing.{rung_amid_steps}
use flutter_21_client.Witness.SystemCases.{strangers, met, rings_now}
use flutter_21_client.World.{World}
use flutter_21_client.Tasks.{run, finished}
use flutter_21_client.Tasks.Requests.{Request, turns_to, begin}
use flutter_21_client.Tasks.Alone.Requests.{serve_request, run-begin}
use flutter_21_client.Contacts.Statements.{is_contact}
use flutter_21_client.Contacts.Permission.{accepts, sends, handle}
use flutter_21_client.Tasks.Links.{LinksPool, contacts_asked}
use flutter_21_client.Tasks.Pool.{arrives, after, Pool, arrived, ◌⟶*◌, here}
use flutter_21_client.Tasks.Progress.{Reaches, run-Reaches, path_trans}
use flutter_21_client.Witness.Setting.{small, settings, start, ann, bob, cleo}
use flutter_21_client.Witness.TaskCases.{idle}

-- User 3 accepts the request of user 1.
abbrev accepting : Request
accepting = turns_to cleo (accepts 1)

abbrev cleo_in : Pool small
cleo_in = arrived settings accepting (idle start)

cleo_there : lookup 0 cleo_in.tasks ≡ some (begin settings accepting)
unfolding arrived
cleo_there = refl

ran_cleo :
    Reaches settings 0
      (finished (run (begin settings accepting) start).0, (run (begin settings accepting) start).1)
      cleo_in
unfolding arrived
ran_cleo = run-Reaches settings 0 (begin settings accepting) cleo_in cleo_there

cleo_linked : is_contact 1 3 ran_cleo.0.server.world.db ≡ true
unfolding handle flutter_21_client.Contacts.accept_request
    flutter_21_client.Contacts.Statements.accept_pending
cleo_linked =
    let (_, _, (same, _, _)) = ran_cleo in
    ap (λ (w : World small). is_contact 1 3 w.db)
      (same ∙ ap (λ r. r.1) (run-begin small settings accepting start))

contacts_asked_example :
    (u : Pool small) × (v : Pool small) × (◌⟶*◌ settings (idle start) u)
    × LinksPool 1 3 settings u v
    × (◌⟶*◌ settings v ran_cleo.0)
contacts_asked_example =
    contacts_asked 1 3 settings (idle start) ran_cleo.0
      (path_trans settings (idle start) cleo_in ran_cleo.0 (after here (arrives accepting))
        ran_cleo.1)
      refl refl cleo_linked

-- User 1 asks user 2, who accepts; both requests have arrived before either takes a step.
abbrev quiet : Pool small
quiet = record { server = strangers; tasks = []; begun = 0 }

abbrev asking : Request
asking = turns_to ann (sends 2)

abbrev agreeing : Request
agreeing = turns_to bob (accepts 1)

abbrev asked_in : Pool small
asked_in = arrived settings agreeing (arrived settings asking quiet)

asking_there : lookup 0 asked_in.tasks ≡ some (begin settings asking)
unfolding arrived
asking_there = refl

agreeing_there : lookup 1 asked_in.tasks ≡ some (begin settings agreeing)
unfolding arrived
agreeing_there = refl

ran_asking :
    Reaches settings 0
      (
        finished (run (begin settings asking) strangers.world).0,
        (run (begin settings asking) strangers.world).1,
      )
      asked_in
unfolding arrived
ran_asking = run-Reaches settings 0 (begin settings asking) asked_in asking_there

abbrev after_asking : Pool small
after_asking = ran_asking.0

ran_agreeing :
    Reaches settings 1
      (
        finished (run (begin settings agreeing) after_asking.server.world).0,
        (run (begin settings agreeing) after_asking.server.world).1,
      )
      after_asking
ran_agreeing =
    let (_, _, (_, _, others)) = ran_asking in
    run-Reaches settings 1 (begin settings agreeing) after_asking (others 1 refl ∙ agreeing_there)

-- What the two requests leave.
world_met : ran_agreeing.0.server.world ≡ met.world
unfolding handle flutter_21_client.Contacts.send_request
    flutter_21_client.Contacts.Statements.upsert_request flutter_21_client.Contacts.accept_request
    flutter_21_client.Contacts.Statements.accept_pending
world_met =
    let (_, _, (same, _, _)) = ran_asking in
    let (_, _, (same', _, _)) = ran_agreeing in
    let w = (serve_request small settings asking strangers.world).1 in
    same'
    ∙ (ap (λ v. (run (begin settings agreeing) v).1)
          (same ∙ ap (λ r. r.1) (run-begin small settings asking strangers.world))
        ∙ ap (λ r. r.1) (run-begin small settings agreeing w))

rung_amid_steps_example :
    (sender : Uuid) × (to : Uuid) × (u : Pool small) × (v : Pool small) × (some 1 ≡ some sender)
    × (callee small (text "call") ≡ some to)
    × (is_contact sender to ran_agreeing.0.server.world.db ≡ true)
    × (◌⟶*◌ settings quiet u)
    × LinksPool sender to settings u v
    × (◌⟶*◌ settings v ran_agreeing.0)
rung_amid_steps_example =
    rung_amid_steps settings 8 quiet ran_agreeing.0 (some 1) (text "call")
      (path_trans settings quiet after_asking ran_agreeing.0
        (path_trans settings quiet asked_in after_asking
          (after (after here (arrives asking)) (arrives agreeing)) ran_asking.1)
        ran_agreeing.1)
      refl refl
      (subst
        (λ (w : World small).
          rings w < rings (handle_frame small settings 8 (some 1) (text "call") w).1)
        (sym world_met) rings_now)

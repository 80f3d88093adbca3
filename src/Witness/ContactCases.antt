-- ===== src/Witness/ContactCases.antt =====
-- Contacts, blocks and invite links.
use flutter_21_client.Prelude.{true, false, ◌≡◌, refl, some, [], arith, any}
use flutter_21_client.Errors.{ok, err, forbidden, bad_request}
use flutter_21_client.World.{World}
use flutter_21_client.World.Tables.{InviteLink, negative}
use flutter_21_client.Contacts.{
  accept_request, send_request, block_user, use_invite_link, can_call, redeem_invite,
}
use flutter_21_client.Contacts.Statements.{
  is_contact, insert_contact, delete_between, use_up, accept_pending, minus_one, is_zero,
}
use flutter_21_client.Contacts.Permission.{handle, accepts}
use flutter_21_client.Contacts.Blocks.{
  is_block, blocks_both_ways, invite_passes_block, redeem_and_accept,
}
use flutter_21_client.Contacts.Invites.{
  link_in, use_invite_link-ok, use_invite_link_once, race, race_serves_both,
}
use flutter_21_client.Witness.Setting.{small, settings, start, ann, bob, cleo, invite_link}

accepted_now : is_contact 1 3 (handle {E = small} settings cleo (accepts 1) start).1.db ≡ true
unfolding handle flutter_21_client.Contacts.accept_request accept_pending
accepted_now = refl

abbrev after_block : World small
after_block = (block_user cleo 1 start).1

block_done : (block_user {E = small} cleo 1 start).0 ≡ ok "blocked"
unfolding block_user delete_between insert_contact
block_done = refl

block_quiet : after_block.db_outcomes ≡ []
unfolding block_user delete_between insert_contact
block_quiet = refl

blocks_both_ways_example :
    ((send_request cleo 1 after_block).0 ≡ err (forbidden "BLOCKED"))
    × ((send_request ann 3 after_block).0 ≡ err (forbidden "BLOCKED"))
    × ((can_call 3 1 after_block).0 ≡ ok false)
    × ((can_call 1 3 after_block).0 ≡ ok false)
blocks_both_ways_example =
    blocks_both_ways cleo ann start after_block "blocked" (λ e. omega arith) block_done refl
      block_quiet

link_left : link_in 3 "once" after_block ≡ some invite_link
unfolding block_user delete_between insert_contact
link_left = refl

invite_passes_block_example :
    ((redeem_and_accept {E = small} cleo ann "once" after_block).0 ≡ ok "accepted")
    × (is_contact ann.user_id cleo.user_id (redeem_and_accept cleo ann "once" after_block).1.db
        ≡ true)
    × (any
          (is_block cleo.user_id ann.user_id)
          (redeem_and_accept cleo ann "once" after_block).1.db.contacts
        ≡ true)
invite_passes_block_example =
    invite_passes_block cleo ann start after_block "blocked" (λ e. omega arith) block_done refl
      block_quiet "once" invite_link link_left refl

redeemed : (use_invite_link {E = small} bob 3 "once" start).0 ≡ ok "request_sent"
unfolding use_invite_link use_up
redeemed = refl

use_invite_link-ok_example :
    (l : InviteLink) × (link_in 3 "once" start ≡ some l)
    × (is_zero l.uses_left ≡ false)
    × (link_in 3 "once" (use_invite_link bob 3 "once" start).1
        ≡ some (record l { uses_left = minus_one l.uses_left }))
use_invite_link-ok_example = use_invite_link-ok bob 3 "once" start "request_sent" redeemed

abbrev after_redemption : World small
after_redemption = (use_invite_link bob 3 "once" start).1

redemption_quiet : after_redemption.db_outcomes ≡ []
unfolding use_invite_link use_up
redemption_quiet = refl

use_invite_link_once_example :
    (use_invite_link ann 3 "once" after_redemption).0
    ≡ err (bad_request "Invite link has been used")
use_invite_link_once_example =
    use_invite_link_once bob 3 "once" start after_redemption "request_sent" invite_link ann refl
      refl redeemed refl refl redemption_quiet

race_serves_both_example :
    ((race ann bob 3 "once" start).0 ≡ ok "request_sent")
    × (link_in 3 "once" (race ann bob 3 "once" start).1
        ≡ some (record invite_link { uses_left = negative 0 }))
race_serves_both_example = race_serves_both 3 "once" ann bob invite_link start refl refl refl

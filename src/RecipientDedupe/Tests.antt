-- ===== src/RecipientDedupe/Tests.antt =====
-- The life of one reservation of fanoutRecipientDedupe.ts.
use cse356_discord.Common.{◌≡◌, refl, true, false, none, some, [], arith}
use cse356_discord.RecipientDedupe.{
  issued, Dedupe, Recipient, reserve_recipient, confirm_recipient, release_recipient,
}
use cse356_discord.RecipientDedupe.Laws.{IsBounded}
use cse356_discord.RecipientDedupe.Reservation.{
  reserve_recipient-exclusive, confirm_recipient-final,
}

abbrev nobody : Dedupe
nobody = record { ttl_ms = 10; max_entries = 3; seen = []; next_token = 0 }

nobody-IsBounded : IsBounded nobody
nobody-IsBounded = record { within = omega arith; positive = omega arith }

abbrev alice : Recipient
alice = record {
  message_id = "m1";
  user_id = "alice";
  event_name = "message:created";
  connection_id = "user";
}

reserved_token : (reserve_recipient alice 5 nobody).1 ≡ some (issued 5 1)
unfolding reserve_recipient
reserved_token = refl

reserve_recipient-exclusive_example :
    (reserve_recipient alice 900 (reserve_recipient alice 5 nobody).0).1 ≡ none
reserve_recipient-exclusive_example =
    reserve_recipient-exclusive alice 5 900 nobody (issued 5 1) nobody-IsBounded reserved_token

confirmation : (confirm_recipient alice none 5 nobody).1 ≡ true
unfolding confirm_recipient
confirmation = refl

confirm_recipient-final_example :
    ((release_recipient alice none (confirm_recipient alice none 5 nobody).0).1 ≡ false)
    × ((reserve_recipient alice 700 (confirm_recipient alice none 5 nobody).0).1 ≡ none)
confirm_recipient-final_example =
    confirm_recipient-final alice none none 5 700 nobody nobody-IsBounded confirmation

-- ===== src/Transfer/Tests.antt =====
-- `sendPayment` on the database of `Samples`, src/payment/payment.service.ts.
use nfc_payment_api.Prelude.{ℕ, List, ◌≡◌, refl, some, arith}
use nfc_payment_api.Prelude.Int.{negsuc, naira, ◌+ℤ◌, ◌-ℤ◌}
use nfc_payment_api.External.Memory.{memory, memory-IsLawful}
use nfc_payment_api.Exec.{ok, ◌>>=◌}
use nfc_payment_api.Response.{Response, transaction, refused, succeeded}
use nfc_payment_api.World.{World, create_transaction}
use nfc_payment_api.UserLookup.{get_user_by_unique_identifier}
use nfc_payment_api.Transfer.{SendPayment, exchange, transfer, pay, send_to, send_payment}
use nfc_payment_api.Identifier.{is_valid_email, is_phone}
use nfc_payment_api.Regex.{matches, matches_some_line}
use nfc_payment_api.Transfer.Moves.{new_transfer}
use nfc_payment_api.Transfer.Laws.{CanSend, IsSent, send_payment-IsSent, send_payment_completes}
use nfc_payment_api.World.Balances.{balance_at}
use nfc_payment_api.Accounts.{Entry, post_all, sends, Run, done, next, FitsAll}
use nfc_payment_api.Accounts.Refinement.{run-refines}
use nfc_payment_api.Samples.{start, customer_wallet, merchant_wallet, merchant, ada}

abbrev gift : SendPayment
gift = record { recipient_unique_identifier = "bola@stark.pay"; amount = naira 250 }

abbrev gift_answer : Response
gift_answer =
    succeeded "Successfully sent payment"
      (transaction (new_transfer memory customer_wallet merchant_wallet (naira 250) start))

abbrev after_gift : World memory
after_gift = (send_payment memory ada gift start).1

gift_resolves : send_payment memory ada gift start ≡ (ok gift_answer, after_gift)
unfolding send_payment send_to pay transfer exchange create_transaction
    get_user_by_unique_identifier is_valid_email is_phone matches matches_some_line ◌>>=◌ ◌+ℤ◌ ◌-ℤ◌
gift_resolves = refl

send_payment-IsSent_example : IsSent memory ada gift start gift_answer after_gift
send_payment-IsSent_example =
    send_payment-IsSent memory ada gift start gift_answer after_gift memory-IsLawful gift_resolves
      refl

gift_checks : CanSend memory ada gift start customer_wallet merchant_wallet
unfolding get_user_by_unique_identifier is_valid_email is_phone matches matches_some_line ◌>>=◌
gift_checks = record {
  named = record { user = merchant; wallet = some merchant_wallet };
  known = refl;
  holds = refl;
  own = refl;
  covered = omega arith;
}

send_payment_completes_example : (send_payment memory ada gift start).0 ≡ ok gift_answer
unfolding exchange ◌>>=◌ ◌+ℤ◌ ◌-ℤ◌
send_payment_completes_example =
    send_payment_completes memory ada gift start customer_wallet merchant_wallet customer_wallet
      memory-IsLawful gift_checks refl refl refl refl

-- A negative amount: 90 kobo are 900 thousandths.
abbrev theft : SendPayment
theft = record gift { amount = negsuc 899 }

theft_checks : CanSend memory ada theft start customer_wallet merchant_wallet
unfolding get_user_by_unique_identifier is_valid_email is_phone matches matches_some_line ◌>>=◌
theft_checks = record {
  named = record { user = merchant; wallet = some merchant_wallet };
  known = refl;
  holds = refl;
  own = refl;
  covered = omega arith;
}

abbrev stray : SendPayment
stray = record gift { recipient_unique_identifier = "eve" }

stray_is_unknown : (send_payment memory ada stray start).0 ≡ ok (refused "Recipient not found")
unfolding send_payment send_to get_user_by_unique_identifier is_valid_email is_phone matches
    matches_some_line ◌>>=◌
stray_is_unknown = refl

abbrev gift_run : Run memory start after_gift
gift_run = next (sends ada gift gift_answer gift_resolves) done

run-refines_example :
    (l : List Entry) × (FitsAll memory gift_run l
      × ((j : ℕ) → balance_at memory after_gift j ≡ post_all l j (balance_at memory start j)))
run-refines_example = run-refines memory memory-IsLawful start after_gift gift_run

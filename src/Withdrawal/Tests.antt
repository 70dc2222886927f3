-- ===== src/Withdrawal/Tests.antt =====
-- `userWithdraw` on the database of `Samples`, src/wallet/wallet.service.ts.
use nfc_payment_api.Prelude.{◌≡◌, refl, ◌⊎◌, none}
use nfc_payment_api.Prelude.Int.{naira}
use nfc_payment_api.External.Memory.{memory}
use nfc_payment_api.Exec.{ok, ◌>>=◌}
use nfc_payment_api.Response.{refused}
use nfc_payment_api.Withdrawal.{
  WithdrawIntoBankAccount, user_withdraw, withdraw, withdraw_to_bank, record_withdrawal,
}
use nfc_payment_api.Withdrawal.Laws.{user_withdraw-refused}
use nfc_payment_api.Samples.{start, saver, ada}

-- 40,000 naira, of a wallet that has 30,000.
abbrev payday : WithdrawIntoBankAccount
payday = record { requested_amount = naira 40000; password = "1234"; narration = none }

abbrev wrong_pin : WithdrawIntoBankAccount
wrong_pin = record payday { password = "4321" }

wrong_pin_answer :
    (user_withdraw memory saver wrong_pin start).0 ≡ ok (refused "Incorrect password")
unfolding user_withdraw ◌>>=◌
wrong_pin_answer = refl

user_withdraw-refused_example :
    ((refused "Incorrect password" ≡ refused "Incorrect password")
      ⊎ (refused "Incorrect password" ≡ refused "failed to make withdrawal request"))
    × ((user_withdraw memory saver wrong_pin start).1.wallets ≡ start.wallets)
    × ((user_withdraw memory saver wrong_pin start).1.transactions ≡ start.transactions)
user_withdraw-refused_example =
    user_withdraw-refused memory saver wrong_pin start (refused "Incorrect password")
      wrong_pin_answer refl

unbanked_answer :
    (user_withdraw memory ada payday start).0 ≡ ok (refused "failed to make withdrawal request")
unfolding user_withdraw withdraw withdraw_to_bank record_withdrawal ◌>>=◌
unbanked_answer = refl

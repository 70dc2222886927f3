-- ===== src/Withdrawal/Business/Tests.antt =====
-- Payouts on the database of `Samples`, src/wallet/wallet.service.ts.
use mathlib.Core.Option
use nfc_payment_api.Prelude.{
  ℕ, ◌≡◌, refl, Bool, String, ◌==◌, if◌then◌else◌, arith, true, some, none, [], ◌∷◌,
}
use nfc_payment_api.Prelude.Int.{ℤ, pos, naira, ◌≤ℤ◌, ◌-ℤ◌, ◌+ℤ◌}
use nfc_payment_api.Schema.{User, BankAccount, Wallet}
use nfc_payment_api.External.Memory.{memory, memory-IsLawful}
use nfc_payment_api.Exec.{ok, ◌>>=◌}
use nfc_payment_api.Response.{Response, transaction, succeeded}
use nfc_payment_api.Reference.{generate}
use nfc_payment_api.World.{World, create_transaction}
use nfc_payment_api.World.Balances.{balance_at}
use nfc_payment_api.Withdrawal.{
  TransferData, flutterwave_transfer, request_transfer, check_account, withdraw_to_bank, payout,
}
use nfc_payment_api.Withdrawal.Business.{
  wallet_of_business, BusinessWithdraw, get_withdrawal_balance, post_payout, business_withdraw,
}
use nfc_payment_api.Withdrawal.Business.Posting.{IsPaidOut, new_payout, business_withdraw-IsPaidOut}
use nfc_payment_api.Withdrawal.Business.Refund.{failed_payout_restores}
use nfc_payment_api.WebhookPayload.{FlutterwaveData}
use nfc_payment_api.Webhook.Transfers.{notified}
use nfc_payment_api.External.{Payout, answered}
use nfc_payment_api.Withdrawal.Business.Laws.{payout_is_limited, payout_without_balance}
use nfc_payment_api.Samples.{
  start, customer, line, account, customer_wallet, merchant_wallet, line_wallet,
}

abbrev owner : User
owner = record customer { business_id = some 0 }

abbrev line_account : BankAccount
line_account = record account { business_id = some 0; user_id = none }

abbrev banked : Wallet → World memory
banked x = record start {
  bank_accounts = some line_account ∷ [];
  wallets = some customer_wallet ∷ some merchant_wallet ∷ some x ∷ [];
}

abbrev cash_out : BusinessWithdraw
cash_out = record { requested_amount = naira 250; password = "1234" }

abbrev d : TransferData
d = record { reference = (payout memory (naira 250) line_account).reference; amount = naira 250 }

abbrev full : Wallet
full = record line_wallet { balance = naira 30000 }

abbrev after : World memory
after = (business_withdraw memory cash_out owner (banked full)).1

abbrev answer : Response
answer =
    succeeded "Withdrawal request made successfully"
      (transaction (new_payout memory owner 0 "Line" full d (banked full)))

paid : business_withdraw memory cash_out owner (banked full) ≡ (ok answer, after)
unfolding business_withdraw post_payout get_withdrawal_balance flutterwave_transfer request_transfer
    check_account withdraw_to_bank create_transaction generate ◌>>=◌ ◌+ℤ◌ ◌-ℤ◌
paid = refl

memory_honest :
    (p : Payout) (success : Bool) (reference : String) (amount : ℤ)
    → memory.initiate_transfer p ≡ answered success reference amount
    → amount ≡ p.amount
memory_honest p success reference amount h = ground arith

payout_is_limited_example :
    (x : Wallet) × (wallet_of_business memory 0 (banked full) ≡ some x)
    × (naira 250 ≤ℤ naira 30000)
    × ((j : ℕ)
        → balance_at memory after j ≡ (
            if x.id == j
            then Option.map (λ y. y -ℤ naira 250) (balance_at memory (banked full) j)
            else balance_at memory (banked full) j))
unfolding get_withdrawal_balance ◌+ℤ◌ ◌-ℤ◌
payout_is_limited_example =
    payout_is_limited memory memory-IsLawful cash_out owner 0 (naira 30000) (banked full) after
      answer memory_honest refl refl (ground arith) paid refl

business_withdraw-IsPaidOut_example : IsPaidOut memory cash_out owner 0 (banked full) answer after
business_withdraw-IsPaidOut_example =
    business_withdraw-IsPaidOut memory memory-IsLawful cash_out owner 0 (banked full) answer after
      refl paid refl

-- The report of the transfer that failed.
abbrev bounced : FlutterwaveData
bounced = record {
  id = 5;
  amount = naira 250;
  status = "FAILED";
  customer_email = none;
  trx_ref = none;
  reference = some d.reference;
  fee = pos 0;
}

failed_payout_restores_example :
    balance_at memory (notified memory bounced after) 2 ≡ balance_at memory (banked full) 2
failed_payout_restores_example =
    failed_payout_restores memory memory-IsLawful cash_out owner 0 (banked full) after answer
      bounced refl paid refl refl refl refl 2

payout_without_balance_example :
    ((business_withdraw memory cash_out owner (banked line_wallet)).0
      ≡ ok (
          succeeded "Withdrawal request made successfully"
            (transaction (new_payout memory owner 0 "Line" line_wallet d (banked line_wallet)))))
    × (balance_at memory (business_withdraw memory cash_out owner (banked line_wallet)).1 2
        ≡ some (line_wallet.balance -ℤ naira 250))
unfolding get_withdrawal_balance generate ◌+ℤ◌ ◌-ℤ◌
payout_without_balance_example =
    payout_without_balance memory memory-IsLawful cash_out owner 0 "1234" line line_account
      line_wallet d true (banked line_wallet) refl refl refl refl refl refl refl refl refl refl refl
      refl refl

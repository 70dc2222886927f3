-- ===== src/Withdrawal/Business.antt =====
-- `businessWithdraw` of WalletService, src/wallet/wallet.service.ts, and `getWithdrawalBalance` of
-- BusinessService, src/business/business.service.ts.
pub mod Posting
pub mod Laws
pub mod Refund
mod Tests
use Prim.Native.String.{◌++◌ as append}
use nfc_payment_api.Prelude.{
  ℕ, String, Bool, true, false, Option, none, some, same_id, is_some, if◌then◌else◌,
}
use nfc_payment_api.Prelude.Int.{ℤ, pos, ◌+ℤ◌, ◌-ℤ◌}
use nfc_payment_api.Schema.{
  User, Business, BankAccount, Wallet, Transaction, TransactionType, pending, flutterwave,
}
use nfc_payment_api.External.{Env}
use nfc_payment_api.Exec.{
  Exec, validation_error, pure, throw, gets, defined, try_catch, all_or_nothing, ◌>>=◌, ◌>>◌,
}
use nfc_payment_api.Response.{
  Response, Payload, UserWithWallet, transaction, empty_object, null, refused, succeeded,
}
use nfc_payment_api.World.{World, update_wallet, create_transaction}
use nfc_payment_api.World.Balances.{take_balance}
use nfc_payment_api.Withdrawal.{
  TransferData, WithdrawAnswer, requested, not_requested, requested_reference, withdraw_to_bank,
}

-- BusinessWithdrawDto, without the narration, which the payout does not carry
pub record BusinessWithdraw : Type 0 where
  pub requested_amount : ℤ
  pub password : String

abbrev pub of_business : ℕ → Transaction → Bool
of_business b t = same_id t.business_id (some b)

abbrev pub held_by : ℕ → Wallet → Bool
held_by b x = same_id x.business_id (some b)

abbrev pub or_zero : Option ℤ → ℤ
or_zero none = pos 0
or_zero (some a) = a

abbrev pub refused_with : String → Payload → Response
refused_with m p = record (refused m) { payload = p }

module _ (env : Env) where
  abbrev pub account_of_business : ℕ → World env → Option BankAccount
  account_of_business b w = env.find_first (λ a. same_id a.business_id (some b)) w.bank_accounts

  abbrev pub wallet_of_business : ℕ → World env → Option Wallet
  wallet_of_business b w = env.find_first (held_by b) w.wallets

  abbrev recent_total : ℕ → World env → ℤ
  recent_total b w = or_zero (env.recent_sum (of_business b) (λ t. t.amount) w.transactions)

  -- The balance less the service fee and what came in during the last two days; null for an error.
  pub get_withdrawal_balance : ℕ → World env → Option ℤ
  get_withdrawal_balance b w = elim (wallet_of_business b w) [
    | none ↦ none
    | some x ↦ elim (env.find b w.businesses) [
      | none ↦ none
      | some business ↦ some (
          x.balance
          -ℤ (env.percent_of business.service_fee_percentage x.balance +ℤ recent_total b w))
    ]
  ]

  abbrev pub payout_row : User → ℕ → String → Wallet → TransferData → Transaction
  payout_row user b name wallet d = record {
    id = 0;
    transaction_reference = d.reference;
    status = pending;
    wallet_id = some wallet.id;
    card_id = none;
    type = TransactionType.withdrawal;
    amount = d.amount;
    recipient_id = none;
    created_by_id = some user.id;
    narration = some (append "StarkPay Payout to " name);
    processor_status = "failed";
    processor_trx_id = none;
    processor = flutterwave;
    fee = pos 0;
    business_id = some b;
    station_id = none;
  }

  pub post_payout : User → ℕ → String → Wallet → TransferData → Exec (World env) Transaction
  post_payout user b name wallet d = all_or_nothing (do
    update_wallet env wallet.id (take_balance d.amount)
    create_transaction env (payout_row user b name wallet d))

  -- A refusal has no reference, so no failed row is written.
  abbrev pub finish_payout : User → ℕ → String → Wallet → WithdrawAnswer → Exec (World env) Response
  finish_payout user b name wallet (requested d) = do
    row ← post_payout user b name wallet d
    pure (succeeded "Withdrawal request made successfully" (transaction row))
  finish_payout user b name wallet (not_requested m) = pure (refused_with m empty_object)
  -- An undefined amount is refused, in the debit and in the row.
  finish_payout user b name wallet (requested_reference r) = throw validation_error

  -- The limit is the withdrawal balance, or 0 if there is none.
  abbrev pub withdraw_from :
      BusinessWithdraw
      → User
      → ℕ
      → String
      → Option BankAccount
      → Option Wallet
      → Exec (World env) Response
  withdraw_from dto user b name none wallet =
      pure (refused_with "Please add a bank account first." empty_object)
  withdraw_from dto user b name (some account) wallet = do
    limit ← gets (λ w. or_zero (get_withdrawal_balance b w))
    x ← defined wallet
    answer ← withdraw_to_bank env (some account.id) x.id dto.requested_amount (some limit)
    finish_payout user b name x answer

  abbrev business_id_of : User → Exec (World env) ℕ
  business_id_of user = elim user.business_id [ none ↦ throw validation_error | some b ↦ pure b ]

  pub business_withdraw : BusinessWithdraw → User → Exec (World env) Response
  business_withdraw dto user =
      try_catch
        (do
          b ← business_id_of user
          found ← gets (λ w. env.find b w.businesses)
          business ← defined found
          hash ← defined user.hash
          account ← gets (account_of_business b)
          wallet ← gets (wallet_of_business b)
          if env.verify hash dto.password
              then withdraw_from dto user b business.name account wallet
              else pure (refused "Incorrect password"))
        (λ e. pure (refused_with "Failed to make withdrawal request" empty_object))

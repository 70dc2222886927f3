-- ===== src/Transfer.antt =====
-- `sendPayment` of PaymentService, src/payment/payment.service.ts.
pub mod Moves
pub mod Laws
mod Tests
use nfc_payment_api.Prelude.{String, Option, none, some, if◌then◌else◌}
use nfc_payment_api.Prelude.Int.{ℤ, pos, ltb_ℤ}
use nfc_payment_api.Schema.{Wallet, Transaction, TransactionType, successful, flutterwave}
use nfc_payment_api.External.{Env}
use nfc_payment_api.Exec.{Exec, pure, defined, try_catch, all_or_nothing, ◌>>=◌, ◌>>◌}
use nfc_payment_api.Response.{
  Response, UserWithWallet, Payload, transaction, found_user, refused, succeeded,
}
use nfc_payment_api.World.{World, update_wallet, create_transaction}
use nfc_payment_api.Reference.{generate}
use nfc_payment_api.UserLookup.{get_user_by_unique_identifier}
use nfc_payment_api.World.Balances.{add_balance, take_balance}

-- SendPaymentDto
pub record SendPayment : Type 0 where
  pub recipient_unique_identifier : String
  pub amount : ℤ

-- `const { data } = …`, undefined or null if no user was found
abbrev pub recipient_of : Payload → Option UserWithWallet
recipient_of (found_user u) = some u
recipient_of _ = none

module _ (env : Env) where
  abbrev pub transfer_row : Wallet → Wallet → ℤ → Transaction
  transfer_row from to amount = record {
    id = 0;
    transaction_reference = generate env TransactionType.transfer;
    status = successful;
    wallet_id = some from.id;
    card_id = none;
    type = TransactionType.transfer;
    amount = amount;
    recipient_id = to.user_id;
    created_by_id = from.user_id;
    narration = none;
    processor_status = "failed";
    processor_trx_id = none;
    processor = flutterwave;
    fee = pos 0;
    business_id = none;
    station_id = none;
  }

  -- The two writes, then the record of them.
  pub exchange : Wallet → Wallet → ℤ → Exec (World env) (Unit {0})
  exchange from to amount = all_or_nothing (do
    update_wallet env from.id (take_balance amount)
    update_wallet env to.id (add_balance amount))

  pub transfer : Wallet → Wallet → ℤ → Exec (World env) Response
  transfer from to amount = do
    exchange from to amount
    row ← create_transaction env (transfer_row from to amount)
    pure (succeeded "Successfully sent payment" (transaction row))

  -- The sender's wallet is the one that was read when the request was authenticated.
  pub pay : Option Wallet → Wallet → ℤ → Exec (World env) Response
  pay wallet to amount = do
    from ← defined wallet
    if ltb_ℤ from.balance amount
        then pure (refused "Insufficient balance")
        else transfer from to amount

  pub send_to : UserWithWallet → ℤ → Option UserWithWallet → Exec (World env) Response
  send_to sender amount none = pure (refused "Recipient not found")
  send_to sender amount (some recipient) = elim recipient.wallet [
    | none ↦ pure (refused "Recipient wallet not found")
    | some to ↦ pay sender.wallet to amount
  ]

  pub send_payment : UserWithWallet → SendPayment → Exec (World env) Response
  send_payment sender dto =
      try_catch
        (do
          answer ← get_user_by_unique_identifier env dto.recipient_unique_identifier
          send_to sender dto.amount (recipient_of answer.payload))
        (λ e. pure (refused "Failed to send payment"))

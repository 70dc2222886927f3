-- ===== src/Funding.antt =====
-- `fundWalletWithBankTransfer` and its use by agents, of WalletService, src/wallet/wallet.service.ts,
-- with `createWithFlw` of src/wallet/helpers/collection-account.helper.ts. The name of the account in
-- the answer is left out.
pub mod Laws
mod Tests
use nfc_payment_api.Prelude.{
  ℕ, String, Bool, true, false, Option, none, some, str_eq, same_id, same_text, if◌then◌else◌,
}
use nfc_payment_api.Prelude.Int.{ℤ, pos, ◌+ℤ◌, ltb_ℤ, naira}
use nfc_payment_api.Schema.{User, Wallet, Transaction, TransactionType, pending, flutterwave}
use nfc_payment_api.External.{Env, AccountAnswer}
use nfc_payment_api.Exec.{
  Exec, Error, text, type_error, pure, throw, gets, defined, try_catch, rethrow_http, ◌>>=◌, ◌>>◌,
}
use nfc_payment_api.Response.{Response, UserWithWallet, account, null, refused, succeeded}
use nfc_payment_api.World.{World, create_transaction}
use nfc_payment_api.Reference.{generate}
use nfc_payment_api.UserLookup.{get_user_by_unique_identifier}
use nfc_payment_api.Transfer.{recipient_of}

-- `{ success, data }`; a rejected promise leaves null, whose status cannot be read.
abbrev pub account_answer : Option AccountAnswer → AccountAnswer
account_answer none = record { success = false; bank_name = none; account_number = none }
account_answer (some a) = a

abbrev pub funding_row : Env → User → Wallet → ℤ → Transaction
funding_row env user wallet amount = record {
  id = 0;
  transaction_reference = generate env TransactionType.fund_wallet;
  status = pending;
  wallet_id = some wallet.id;
  card_id = none;
  type = TransactionType.fund_wallet;
  amount = amount;
  recipient_id = some user.id;
  created_by_id = none;
  narration = none;
  processor_status = "failed";
  processor_trx_id = none;
  processor = flutterwave;
  fee = pos 0;
  business_id = none;
  station_id = none;
}

module _ (env : Env) where
  abbrev pub created : User → ℤ → AccountAnswer
  created user amount =
      account_answer
        (env.create_account user.email amount (generate env TransactionType.fund_wallet))

  -- `!created.success && !createdBloc.success` reads a property of null where the account was not
  -- created.
  pub open_account : User → Option Wallet → ℤ → Exec (World env) Response
  open_account user wallet amount =
      if (created user amount).success
      then (do
        target ← defined wallet
        create_transaction env (funding_row env user target amount)
        pure (
            succeeded "Bank account created successfully."
              (account (created user amount).bank_name (created user amount).account_number)))
      else throw type_error

  pub fund_within_limits : UserWithWallet → Option Wallet → ℤ → Exec (World env) Response
  fund_within_limits user wallet amount =
      if ltb_ℤ (naira 50000) amount
      then pure (refused "Your cannot fund with more than 50,000 at once.")
      else (do
        own ← defined user.wallet
        if ltb_ℤ (naira 300000) (amount +ℤ own.balance)
            then pure (refused "Your cannot have more than NGN 300,000 in your wallet")
            else open_account user.user wallet amount)

  pub fund_wallet_with_bank_transfer :
      UserWithWallet → Option Wallet → ℤ → Exec (World env) Response
  fund_wallet_with_bank_transfer user wallet amount =
      try_catch (fund_within_limits user wallet amount)
        (rethrow_http (text "Failed to create bank account"))

  abbrev fund_found : ℤ → Option UserWithWallet → Exec (World env) Response
  fund_found amount none = pure (refused "User not found")
  fund_found amount (some user) = fund_wallet_with_bank_transfer user user.wallet amount

  -- The agent's lookup reads as that of the user service.
  pub agent_fund_wallet_with_bank_transfer : String → ℤ → Exec (World env) Response
  agent_fund_wallet_with_bank_transfer identifier amount =
      try_catch
        (do
          answer ← get_user_by_unique_identifier env identifier
          fund_found amount (recipient_of answer.payload))
        (λ e. pure (refused "Failed to generate account number"))
